-- ===== src/Util/Files/Scan/Shown.antt =====
-- What scanDir shows to its callback.
use ffzkit.Base.{
  Bytes, ℕ, zero, suc, ◌≡◌, refl, sym, ap, ◌∙◌, inl, inr, Bool, true, false, not, ◌&&◌, ◌||◌, List,
  [], ◌∷◌, Option, some, Bool-cases, Option-cases,
}
use ffzkit.Util.Files.Paths.{is_special_dir}
use ffzkit.Util.Files.Scan.{
  strip, is_hidden, child, Run, ended, undefined, ran_out, and_then, behind_cb, scan_entries,
  scan_dir,
}

-- The state that a run comes to.
abbrev pub state_of {ℓ} : {T : Type ℓ} → Run T → T
state_of (ended t) = t
state_of (undefined t) = t
state_of (ran_out t) = t

pub state_of-and_then {ℓ κ} :
    {T : Type ℓ} (P : T → Type κ) (r : Run T) (k : T → Run T)
    → P (state_of r)
    → ((t : T) → P t → P (state_of (k t)))
    → P (state_of (and_then r k))
unfolding and_then
state_of-and_then P (ended t) k p q = q t p
state_of-and_then P (undefined t) k p q = p
state_of-and_then P (ran_out t) k p q = p

module _ {ℓ κ} {T : Type ℓ} (entries : Bytes → T → Option (List Bytes)) (is_dir : Bytes → T → Bool)
    (cb : Bytes → Bool → T → Bool × T) (P : T → Type κ) where
  -- The callback keeps `P` when it is called for an entry of a directory that is scanned.
  abbrev pub Keeps : (Bytes → Type 0) → Bool → Type (ℓ ⊔ κ)
  Keeps Scanned show =
      (p n : Bytes) (d : Bool) (t : T)
      → Scanned p
      → (is_special_dir n || (not show && is_hidden n)) ≡ false
      → P t
      → P (cb (child p n) d t).1

  behind_cb-keeps :
      (r : Bool × T) (deeper : Bool) (sub rest : T → Run T)
      → P r.1
      → ((t : T) → P t → P (state_of (sub t)))
      → ((t : T) → P t → P (state_of (rest t)))
      → P (state_of (behind_cb entries is_dir cb r deeper sub rest))
  unfolding behind_cb
  behind_cb-keeps (false, t) deeper sub rest h s k = h
  behind_cb-keeps (true, t) true sub rest h s k = state_of-and_then P (sub t) rest (s t h) k
  behind_cb-keeps (true, t) false sub rest h s k = state_of-and_then P (ended t) rest h k

  scan_entries-keeps :
      (sub : Bytes → T → Run T) (path : Bytes) (enter show : Bool) (ns : List Bytes) (t : T)
      → Keeps (λ p. p ≡ path) show
      → ((q : Bytes) (u : T) → P u → P (state_of (sub q u)))
      → P t
      → P (state_of (scan_entries entries is_dir cb sub path enter show ns t))
  unfolding scan_entries
  scan_entries-keeps sub path enter show [] t c s h = h
  scan_entries-keeps sub path enter show (n ∷ ns) t c s h =
      let rest : (u : T)
          → P u
          → P (state_of (scan_entries entries is_dir cb sub path enter show ns u)) =
        λ u k. scan_entries-keeps sub path enter show ns u c s k in
      elim (Bool-cases (is_special_dir n || (not show && is_hidden n))) [
        | inl e ↦ rw (scan_entries, e) (rest t h)
        | inr e ↦
            rw (scan_entries, e)
              (behind_cb-keeps (cb (child path n) (is_dir (child path n) t) t)
                (is_dir (child path n) t && enter) (sub (child path n))
                (scan_entries entries is_dir cb sub path enter show ns)
                (c path n (is_dir (child path n) t) t refl e h) (s (child path n)) rest)
      ]

  -- scanDir shows its callback no entry that is `.` or `..`, and a hidden one only if it stands in
  -- the directory that the caller named and the caller asked for hidden ones: whatever the callback
  -- keeps under such calls it keeps over the whole scan, however deep, and in a scan that breaks
  -- off too. So a scan that enters subdirectories shows no hidden file of theirs, though the caller
  -- asked for hidden files.
  pub scan_dir_shown :
      (fuel : ℕ) (path : Bytes) (enter show : Bool) (t : T)
      → Keeps (λ p. strip path ≡ some p) show
      → Keeps (λ _. Unit) false
      → P t
      → P (state_of (scan_dir entries is_dir cb fuel path enter show t))
  unfolding scan_dir
  scan_dir_shown zero path enter show t c d h = h
  scan_dir_shown (suc fuel) path enter show t c d h = elim (Option-cases (strip path)) [
    | inl e ↦ rw (scan_dir, e) h
    | inr (p, e) ↦ elim (Option-cases (entries p t)) [
      | inl f ↦ rw (scan_dir, e, f) h
      | inr (ns, f) ↦
          rw (scan_dir, e, f)
            (scan_entries-keeps (λ q. scan_dir entries is_dir cb fuel q enter false) p enter show ns
              t (λ q n b u g k m. c q n b u (e ∙ ap some (sym g)) k m)
              (λ q u k. scan_dir_shown fuel q enter false u (λ q' n b v g. d q' n b v tt) d k) h)
    ]
  ]
