-- ===== src/Util/Files/Create/Prefixes.antt =====
-- Which directories create_path makes, and in which order.
use mathlib.Core.List.{append_assoc, append-nil}
use mathlib.Core.Option
use ffzkit.Base.{
  Bytes, ℕ, zero, suc, ◌+◌, ◌<◌, ◌≡◌, ◌≢◌, refl, sym, ap, ◌∙◌, inl, inr, Bool, false, List, [], ◌∷◌,
  ◌++◌, Option, none, some, ltb, ◌==◌, if◌then◌else◌, length, length-append, take, take-length,
  Option-cases, Bool-cases, arith,
}
use ffzkit.Util.Text.Find.{find, find_from, find_byte, find_byte_none}
use native.Mathlib.Decide.{ℕ_discrete}
use ffzkit.Util.Files.Paths.Dirs.{NoSlash}
use ffzkit.Util.Text.Split.{drop-append}
use ffzkit.Util.Files.Paths.{slash, name_at}
use ffzkit.Util.Files.Create.{Made, done, failed, ensure, next_round, make_dirs, create_path}

-- The prefixes of a path that end in a separator, behind its first bytes.
unfoldable pub prefixes : Bytes → Bytes → List Bytes
prefixes before [] = []
prefixes before (c ∷ cs) =
    let rest = prefixes (before ++ c ∷ []) cs in
    if c == b'/' then (before ++ c ∷ []) ∷ rest else rest

-- Those of a path; a separator in front does not count.
abbrev pub parents : Bytes → List Bytes
parents [] = []
parents (c ∷ cs) = prefixes (c ∷ []) cs

find_from-split :
    (before rest : Bytes)
    → find_from (before ++ rest) slash (length before)
      ≡ Option.map (◌+◌ (length before)) (find slash rest)
unfolding find_from
find_from-split before rest =
    let inside : ltb (length (before ++ rest)) (length before) ≡ false =
      ground (arith, length-append before rest) in
    rw (find_from, inside, drop-append before rest) refl

-- A text up to its first separator.
data Cut (s : Bytes) : Type 0 where
  whole : NoSlash s → Cut s
  cut : (p r : Bytes) → NoSlash p → s ≡ p ++ b'/' ∷ r → Cut s

Cut-cons : (c : ℕ) (cs : Bytes) → c ≢ b'/' → Cut cs → Cut (c ∷ cs)
Cut-cons c cs ne (whole n) = whole (ne, n)
Cut-cons c cs ne (cut p r n e) = cut (c ∷ p) r (ne, n) (ap (λ l. c ∷ l) e)

to_cut : (s : Bytes) → Cut s
to_cut [] = whole tt
to_cut (c ∷ cs) = elim (ℕ_discrete c b'/') [
  | yes e ↦ cut [] cs tt (ap (λ x. x ∷ cs) e)
  | no ne ↦ Cut-cons c cs ne (to_cut cs)
]

prefixes-none : (before s : Bytes) → NoSlash s → prefixes before s ≡ []
unfolding prefixes
prefixes-none before [] h = refl
prefixes-none before (c ∷ cs) h =
    let other : (c == b'/') ≡ false = (let n = h.0 in ground arith) in
    rw (prefixes, other) (prefixes-none (before ++ c ∷ []) cs h.1)

prefixes-cut :
    (before p r : Bytes)
    → NoSlash p
    → prefixes before (p ++ b'/' ∷ r) ≡ (before ++ p ++ slash) ∷ prefixes (before ++ p ++ slash) r
unfolding prefixes
prefixes-cut before [] r h = rw append-nil refl
prefixes-cut before (c ∷ p) r h =
    let other : (c == b'/') ≡ false = (let n = h.0 in ground arith) in
    rw (prefixes, other)
      (prefixes-cut (before ++ c ∷ []) p r h.1
        ∙ ap (λ l. (l ++ slash) ∷ prefixes (l ++ slash) r) (append_assoc before (c ∷ []) p))

module _ {ℓ} {S : Type ℓ} (exists : Bytes → S → Bool) (mkdir : Bytes → S → Option S) where
  -- The directories one after another, up to the first failure: one that is there is left, and every
  -- other is made.
  pub make_each : List Bytes → S → Made S
  make_each [] s = done s
  make_each (d ∷ ds) s =
      let here = make_each ds s in
      if exists d s then here else elim (mkdir d s) [ none ↦ failed s | some s' ↦ make_each ds s' ]

  make_each-cons :
      (d : Bytes) (ds : List Bytes) (s : S)
      → make_each (d ∷ ds) s ≡ next_round exists mkdir (ensure exists mkdir d s) s (make_each ds)
  unfolding make_each next_round
  make_each-cons d ds s = elim (Bool-cases (exists d s)) [
    | inl e ↦ rw (e, next_round) refl
    | inr e ↦ elim (Option-cases (mkdir d s)) [
      | inl z ↦ rw (e, z, next_round) refl
      | inr (s', z) ↦ rw (e, z, next_round) refl
    ]
  ]

  next_round-same :
      (o : Option S) (s : S) (again other : S → Made S)
      → ((u : S) → again u ≡ other u)
      → next_round exists mkdir o s again ≡ next_round exists mkdir o s other
  unfolding next_round
  next_round-same none s again other e = refl
  next_round-same (some u) s again other e = e u

  make_dirs-step :
      (fuel index : ℕ) (path dir : Bytes) (s : S)
      → name_at (find_from path slash index) ≡ length dir
      → take (length dir) path ≡ dir
      → (length dir == 0) ≡ false
      → make_dirs exists mkdir (suc fuel) index path s
        ≡ next_round exists mkdir
            (ensure exists mkdir dir s)
            s
            (make_dirs exists mkdir fuel (length dir) path)
  unfolding make_dirs
  make_dirs-step fuel index path dir s e t f = rw (make_dirs, e, t, f) refl

  make_dirs-each :
      (fuel : ℕ) (before rest : Bytes) (s : S)
      → length rest < fuel
      → make_dirs exists mkdir fuel (length before) (before ++ rest) s
        ≡ make_each (prefixes before rest) s
  unfolding make_dirs make_each
  make_dirs-each zero before rest s h = elim h [ ]
  make_dirs-each (suc fuel) before rest s h = elim (to_cut rest) [
    | whole n ↦
        rw
          (
            make_dirs,
            find_from-split before rest,
            find_byte_none b'/' rest n,
            prefixes-none before rest n,
          )
          refl
    | cut p r n e ↦
        let dir : Bytes = before ++ p ++ slash in
        let path : before ++ rest ≡ dir ++ r = rw e (simp append_assoc) in
        let at : name_at (find_from (before ++ rest) slash (length before)) ≡ length dir =
          rw (find_from-split before rest, e, find_byte b'/' p r n)
            (omega (arith, length-append (before ++ p) slash, length-append before p)) in
        let full : (length dir == 0) ≡ false = ground (arith, length-append (before ++ p) slash) in
        let step =
          make_dirs-step fuel (length before) (before ++ rest) dir s at
            (ap (take (length dir)) path ∙ take-length dir r) full in
        let short : length r < fuel = omega (arith, ap length e, length-append p (slash ++ r)) in
        let spec : prefixes before rest ≡ dir ∷ prefixes dir r =
          ap (prefixes before) e ∙ prefixes-cut before p r n in
        step
        ∙ next_round-same (ensure exists mkdir dir s) s
            (make_dirs exists mkdir fuel (length dir) (before ++ rest)) (make_each (prefixes dir r))
            (λ u.
              ap (λ x. make_dirs exists mkdir fuel (length dir) x u) path
              ∙ make_dirs-each fuel dir r u short)
        ∙ sym (make_each-cons dir (prefixes dir r) s)
        ∙ ap (λ l. make_each l s) (sym spec)
  ]

  -- create_path makes the directories that end at the separators of the path, each one that is not
  -- there, in order and from the outermost, and stops at the first that cannot be made; the loop
  -- ends for every path.
  pub create_path-each :
      (path : Bytes) (s : S) → create_path exists mkdir path s ≡ make_each (parents path) s
  unfolding create_path make_dirs make_each
  create_path-each [] s = refl
  create_path-each (c ∷ cs) s = make_dirs-each (length (c ∷ cs) + 1) (c ∷ []) cs s (omega arith)
