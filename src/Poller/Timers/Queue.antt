-- ===== src/Poller/Timers/Queue.antt =====
-- The multimap keeps its order and its entries.
use mathlib.Core.List.{Perm, perm_middle}
use mathlib.Core.List.Perm
use ffzkit.Base.{ℕ, ◌≤◌, ◌≡◌, refl, inl, inr, List, [], ◌∷◌, ◌++◌, ltb, All, arith, Bool-cases}
use ffzkit.Poller.Timers.{Timers, emplace, insert_all}

module _ {ℓ} {T : Type ℓ} where
  -- Every key of the list is at least `k`.
  abbrev pub AllFrom : ℕ → Timers T → Type 0
  AllFrom k = All λ e. k ≤ e.0

  abbrev pub IsSorted : Timers T → Type 0
  IsSorted [] = Unit
  IsSorted (e ∷ m) = AllFrom e.0 m × IsSorted m

  pub All-emplace {κ} :
      (P : ℕ × T → Type κ) (k : ℕ) (t : T) (m : Timers T)
      → P (k, t)
      → All P m
      → All P (emplace k t m)
  unfolding emplace
  All-emplace P k t [] p h = (p, tt)
  All-emplace P k t ((j, u) ∷ m) p h = elim (Bool-cases (ltb k j)) [
    | inl e ↦ rw e (p, h)
    | inr e ↦ rw e (h.0, All-emplace P k t m p h.1)
  ]

  AllFrom-mono : {j k : ℕ} (m : Timers T) → j ≤ k → AllFrom k m → AllFrom j m
  AllFrom-mono [] h a = tt
  AllFrom-mono {j} {k} (e ∷ m) h a = (omega arith, AllFrom-mono {j = j} {k = k} m h a.1)

  pub emplace-IsSorted : (k : ℕ) (t : T) (m : Timers T) → IsSorted m → IsSorted (emplace k t m)
  unfolding emplace
  emplace-IsSorted k t [] h = (tt, tt)
  emplace-IsSorted k t ((j, u) ∷ m) h = elim (Bool-cases (ltb k j)) [
    | inl e ↦ rw e ((ground arith, AllFrom-mono {j = k} {k = j} m (ground arith) h.0), h)
    | inr e ↦ rw e (All-emplace (λ x. j ≤ x.0) k t m (ground arith) h.0, emplace-IsSorted k t m h.1)
  ]

  pub emplace-perm : (k : ℕ) (t : T) (m : Timers T) → Perm (emplace k t m) ((k, t) ∷ m)
  unfolding emplace
  emplace-perm k t [] = Perm.refl _
  emplace-perm k t ((j, u) ∷ m) = elim (Bool-cases (ltb k j)) [
    | inl e ↦ rw e (Perm.refl _)
    | inr e ↦ rw e (Perm.trans (Perm.cons (j, u) (emplace-perm k t m)) (Perm.swap (k, t) (j, u) m))
  ]

  pub insert_all-IsSorted :
      (es : List (ℕ × T)) (m : Timers T) → IsSorted m → IsSorted (insert_all es m)
  unfolding insert_all
  insert_all-IsSorted [] m h = h
  insert_all-IsSorted ((k, t) ∷ es) m h =
      insert_all-IsSorted es (emplace k t m) (emplace-IsSorted k t m h)

  pub All-insert_all {κ} :
      (P : ℕ × T → Type κ) (es : List (ℕ × T)) (m : Timers T)
      → All P es
      → All P m
      → All P (insert_all es m)
  unfolding insert_all
  All-insert_all P [] m p h = h
  All-insert_all P ((k, t) ∷ es) m p h =
      All-insert_all P es (emplace k t m) p.1 (All-emplace P k t m p.0 h)

  pub insert_all-perm : (es : List (ℕ × T)) (m : Timers T) → Perm (insert_all es m) (es ++ m)
  unfolding insert_all
  insert_all-perm [] m = Perm.refl m
  insert_all-perm ((k, t) ∷ es) m =
      Perm.trans (insert_all-perm es (emplace k t m))
        (Perm.trans (Perm.append (Perm.refl es) (emplace-perm k t m)) (perm_middle es m))

  pub insert_all-append :
      (es fs : List (ℕ × T)) (m : Timers T)
      → insert_all (es ++ fs) m ≡ insert_all fs (insert_all es m)
  unfolding insert_all
  insert_all-append [] fs m = refl
  insert_all-append ((k, t) ∷ es) fs m = insert_all-append es fs (emplace k t m)
