-- ===== src/Util/Commands/Lines.antt =====
-- Which command a line or a name runs, by the register of src/Util/CMD.h.
use ffzkit.Base.{
  Bytes, same_bytes, same_bytes_refl, same_bytes-eq, ◌≡◌, ◌≢◌, refl, sym, ap, ◌∙◌, inl, inr, List,
  [], ◌∷◌, Option, none, some, if◌then◌else◌, Bool-cases,
}
use ffzkit.Util.Commands.Words.{words, get_args-words}
use ffzkit.Util.Commands.{c_str, Register, find_cmd, regist_cmd, unregist_cmd, run_args, run_line}

module _ {ℓ} {C : Type ℓ} where
  find_cmd-unregist_other :
      (name other : Bytes) (m : Register C)
      → other ≢ name
      → find_cmd other (unregist_cmd name m) ≡ find_cmd other m
  unfolding find_cmd unregist_cmd
  find_cmd-unregist_other name other [] ne = refl
  find_cmd-unregist_other name other ((n, c) ∷ m) ne = elim (Bool-cases (same_bytes n name)) [
    | inl e ↦
        let n-name = same_bytes-eq n name e in
        elim (Bool-cases (same_bytes n other)) [
          | inl k ↦ absurd (ne (sym (same_bytes-eq n other k) ∙ n-name))
          | inr k ↦ rw (e, k) refl
        ]
    | inr e ↦
        rw (unregist_cmd, e, find_cmd)
          (ap (λ r. if same_bytes n other then some c else r)
            (find_cmd-unregist_other name other m ne))
  ]

  -- A command that is registered is found under its name unless one was there, which then stays;
  -- the commands of the other names are as they were, also when a name is taken out again.
  pub regist_cmd_lem :
      (name : Bytes) (c : Option C) (m : Register C)
      → (find_cmd name m ≡ none → find_cmd name (regist_cmd name c m) ≡ some c)
        × ((c' : Option C) → find_cmd name m ≡ some c' → regist_cmd name c m ≡ m)
        × ((other : Bytes)
            → other ≢ name
            → (find_cmd other (regist_cmd name c m) ≡ find_cmd other m)
              × (find_cmd other (unregist_cmd name m) ≡ find_cmd other m))
  unfolding regist_cmd find_cmd
  regist_cmd_lem name c m = (
    (λ e. rw (regist_cmd, e, find_cmd, same_bytes_refl name) refl),
    (λ c' e. rw (regist_cmd, e) refl),
    λ other ne. (others other ne (find_cmd name m), find_cmd-unregist_other name other m ne),
  )
    where
      others :
          (other : Bytes)
          → other ≢ name
          → (o : Option (Option C))
          → find_cmd other (elim o [ none ↦ (name, c) ∷ m | some c' ↦ m ]) ≡ find_cmd other m
      others other ne none = elim (Bool-cases (same_bytes name other)) [
        | inl e ↦ absurd (ne (sym (same_bytes-eq name other e)))
        | inr e ↦ rw e refl
      ]
      others other ne (some c') = refl

  -- A line runs the command that its first word names, with all its words for arguments; a line
  -- without a word does nothing, and an unknown name is an exception.
  pub run_line-words {κ} :
      {S : Type κ} (exec : C → List Bytes → S → S) (m : Register C) (line : Bytes) (s : S)
      → run_line exec m line s ≡ run_args exec m (words (c_str line)) s
  unfolding run_line run_args c_str
  run_line-words exec m [] s = refl
  run_line-words exec m (c ∷ cs) s = ap (λ l. run_args exec m l s) (get_args-words (c ∷ cs))
