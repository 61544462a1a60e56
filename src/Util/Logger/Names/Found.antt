-- ===== src/Util/Logger/Names/Found.antt =====
-- The index that a FileChannel goes on with when it finds log files.
use ffzkit.Base.{
  Bytes, same_bytes, same_bytes-eq, bytes_lt, codes, ℕ, ◌≤◌, ◌≡◌, refl, sym, subst, ◌⊎◌, inl, inr,
  Bool, true, false, not, ◌&&◌, List, [], ◌∷◌, ◌++◌, Option, none, some, Bool-cases, arith,
}
use ffzkit.Util.Text.Find.{end_with}
use ffzkit.Util.Logger.FileChannel.{emplace}
use ffzkit.Util.Logger.Names.{collect, greater_index, index_of, last_index, create_channel}

abbrev Has : Bytes → List Bytes → Type 0
Has p [] = ⊥
Has p (q ∷ files) = (q ≡ p) ⊎ Has p files

emplace-Has : (p : Bytes) (files : List Bytes) → Has p (emplace p files)
unfolding emplace
emplace-Has p [] = inl refl
emplace-Has p (q ∷ files) = elim (Bool-cases (same_bytes q p)) [
  | inl e ↦ rw (emplace, e) (inl (same_bytes-eq q p e))
  | inr e ↦ elim (Bool-cases (bytes_lt p q)) [
    | inl f ↦ rw (emplace, e, f) (inl refl)
    | inr f ↦ rw (emplace, e, f) (inr (emplace-Has p files))
  ]
]

emplace-keeps : (p r : Bytes) (files : List Bytes) → Has p files → Has p (emplace r files)
unfolding emplace
emplace-keeps p r [] h = inr h
emplace-keeps p r (q ∷ files) h = elim (Bool-cases (same_bytes q r)) [
  | inl e ↦ rw (emplace, e) h
  | inr e ↦ elim (Bool-cases (bytes_lt r q)) [
    | inl f ↦ rw (emplace, e, f) (inr h)
    | inr f ↦
        rw (emplace, e, f)
          (elim h [ inl same ↦ inl same | inr k ↦ inr (emplace-keeps p r files k) ])
  ]
]

collect-keeps :
    (p : Bytes) (shown : List (Bytes × Bool)) (files : List Bytes)
    → Has p files
    → Has p (collect shown files)
unfolding collect
collect-keeps p [] files h = h
collect-keeps p ((q, d) ∷ shown) files h = elim (Bool-cases (not d && end_with q (codes ".log"))) [
  | inl e ↦ rw (collect, e) (collect-keeps p shown (emplace q files) (emplace-keeps p q files h))
  | inr e ↦ rw (collect, e) (collect-keeps p shown files h)
]

collect-Has :
    (before after : List (Bytes × Bool)) (p : Bytes) (files : List Bytes)
    → end_with p (codes ".log") ≡ true
    → Has p (collect (before ++ (p, false) ∷ after) files)
unfolding collect
collect-Has [] after p files e =
    rw (collect, e) (collect-keeps p after (emplace p files) (emplace-Has p files))
collect-Has ((q, d) ∷ before) after p files e = collect-Has before after p _ e

module _ (scan_index : Bytes → Option ℕ) (prefix : Bytes) where
  greater_index-le :
      (n k : ℕ) (o : Option ℕ) → (n ≤ greater_index n o) × (o ≡ some k → k ≤ greater_index n o)
  unfolding greater_index
  greater_index-le n k none = (omega arith, λ e. cc)
  greater_index-le n k (some found) = (ground arith, λ e. ground arith)

  last_index-from : (files : List Bytes) (n : ℕ) → n ≤ last_index scan_index prefix files n
  unfolding last_index
  last_index-from [] n = omega arith
  last_index-from (p ∷ files) n = omega (
    arith,
    (greater_index-le n 0 (index_of scan_index prefix p)).0,
    last_index-from files (greater_index n (index_of scan_index prefix p)),
  )

  last_index-Has :
      (files : List Bytes) (n k : ℕ) (p : Bytes)
      → Has p files
      → index_of scan_index prefix p ≡ some k
      → k ≤ last_index scan_index prefix files n
  unfolding last_index
  last_index-Has [] n k p h e = absurd h
  last_index-Has (q ∷ files) n k p h e = elim h [
    | inl same ↦
        let m = greater_index n (index_of scan_index prefix q) in
        let a =
          (greater_index-le n k (index_of scan_index prefix q)).1
            (subst (λ x. index_of scan_index prefix x ≡ some k) (sym same) e) in
        omega (arith, a, last_index-from files m)
    | inr k' ↦ last_index-Has files (greater_index n (index_of scan_index prefix q)) k p k' e
  ]

  -- A new FileChannel goes on with an index that no log file of today is beyond: whatever the scan has
  -- shown, a file, and no directory, whose name ends with ".log", begins with the date of today and holds
  -- an index has one that is not greater.
  pub create_channel-index :
      (before after : List (Bytes × Bool)) (path : Bytes) (k : ℕ)
      → end_with path (codes ".log") ≡ true
      → index_of scan_index prefix path ≡ some k
      → k ≤ (create_channel scan_index prefix (before ++ (path, false) ∷ after)).index
  unfolding create_channel
  create_channel-index before after path k e f =
      last_index-Has (collect (before ++ (path, false) ∷ after) []) 0 k path
        (collect-Has before after path [] e) f
