-- ===== src/Util/Options/Indices.antt =====
-- The indices that operator<< of OptionParser, src/Util/CMD.h, gives to its options.
use ffzkit.Base.{
  ℕ, suc, ◌+◌, ◌≤◌, ◌<◌, ◌≡◌, ◌≢◌, refl, ap, ◌∙◌, inl, inr, true, false, List, [], ◌∷◌, none, some,
  ltb, ◌==◌, length, All, lookup, arith, Bool-cases,
}
use ffzkit.Util.Options.{Opt, emplace_sorted, Parser, add_option, resolve}

module _ {ℓ} {V : Type ℓ} where
  -- The keys are in order, from `low` on.
  abbrev pub IsAscending : ℕ → List (ℕ × V) → Type 0
  IsAscending low [] = Unit
  IsAscending low ((j, v) ∷ m) = (low ≤ j) × IsAscending (suc j) m

  lookup-below : (k low : ℕ) (m : List (ℕ × V)) → IsAscending low m → k < low → lookup k m ≡ none
  unfolding lookup
  lookup-below k low [] a h = refl
  lookup-below k low ((j, v) ∷ m) a h =
      let not_here : (j == k) ≡ false = ground (arith, a.0) in
      rw not_here (lookup-below k (suc j) m a.1 (omega (arith, a.0)))

  lookup-emplace_sorted :
      (k : ℕ) (v : V) (m : List (ℕ × V)) (low : ℕ)
      → IsAscending low m
      → lookup k m ≡ none
      → lookup k (emplace_sorted k v m) ≡ some v
  unfolding lookup emplace_sorted
  lookup-emplace_sorted k v [] low a e = ground arith
  lookup-emplace_sorted k v ((j, w) ∷ m) low a e = elim (Bool-cases (j == k)) [
    | inl p ↦ let e' : some w ≡ none = rw p at e in cc
    | inr p ↦
        let later = lookup-emplace_sorted k v m (suc j) a.1 (rw p at e) in ground (arith, later)
  ]

  lookup-emplace_sorted_other :
      (i k : ℕ) (v : V) (m : List (ℕ × V)) → i ≢ k → lookup i (emplace_sorted k v m) ≡ lookup i m
  unfolding lookup emplace_sorted
  lookup-emplace_sorted_other i k v [] ne = ground arith
  lookup-emplace_sorted_other i k v ((j, w) ∷ m) ne =
      let later = lookup-emplace_sorted_other i k v m ne in ground (arith, later)

  emplace_sorted-taken :
      (k : ℕ) (v w : V) (m : List (ℕ × V)) (low : ℕ)
      → IsAscending low m
      → lookup k m ≡ some w
      → emplace_sorted k v m ≡ m
  unfolding lookup emplace_sorted
  emplace_sorted-taken k v w [] low a e = cc
  emplace_sorted-taken k v w ((j, x) ∷ m) low a e = elim (Bool-cases (k == j)) [
    | inl p ↦ rw p refl
    | inr p ↦
        let other : (j == k) ≡ false = ground arith in
        let e' : lookup k m ≡ some w = rw other at e in
        elim (Bool-cases (ltb k j)) [
          | inl q ↦
              let gone = lookup-below k (suc j) m a.1 (ground arith) in
              let e'' : none ≡ some w = rw gone at e' in cc
          | inr q ↦ rw (p, q) (ap (λ r. (j, x) ∷ r) (emplace_sorted-taken k v w m (suc j) a.1 e'))
        ]
  ]

  emplace_sorted-IsAscending :
      (k : ℕ) (v : V) (m : List (ℕ × V)) (low : ℕ)
      → low ≤ k
      → IsAscending low m
      → IsAscending low (emplace_sorted k v m)
  unfolding emplace_sorted
  emplace_sorted-IsAscending k v [] low h a = (h, tt)
  emplace_sorted-IsAscending k v ((j, x) ∷ m) low h a = elim (Bool-cases (k == j)) [
    | inl p ↦ rw p a
    | inr p ↦ elim (Bool-cases (ltb k j)) [
      | inl q ↦ rw (p, q) (h, (ground arith, a.1))
      | inr q ↦ rw (p, q) (a.0, emplace_sorted-IsAscending k v m (suc j) (ground arith) a.1)
    ]
  ]

  lookup-above :
      (k bound : ℕ) (m : List (ℕ × V)) → All (λ e. e.0 < bound) m → bound ≤ k → lookup k m ≡ none
  unfolding lookup
  lookup-above k bound [] b h = refl
  lookup-above k bound ((j, v) ∷ m) b h =
      let not_here : (j == k) ≡ false = ground (arith, b.0) in
      rw not_here (lookup-above k bound m b.1 h)

-- The indices are in order and below the next one: so they are in a parser from which nothing was
-- deleted.
pub record IsDense (p : Parser) : Type 0 where
  pub ascending : IsAscending 255 p.options
  pub below : All (λ e. e.0 < 255 + length p.options) p.options

All-weaken :
    (low high : ℕ) (m : List (ℕ × Opt))
    → low ≤ high
    → All (λ e. e.0 < low) m
    → All (λ e. e.0 < high) m
All-weaken low high [] h a = tt
All-weaken low high (e ∷ m) h a = (omega (arith, a.0), All-weaken low high m h a.1)

emplace_sorted-last :
    (k : ℕ) (o : Opt) (m : List (ℕ × Opt))
    → All (λ e. e.0 < k) m
    → (length (emplace_sorted k o m) ≡ suc (length m))
      × All (λ e. e.0 < suc k) (emplace_sorted k o m)
unfolding emplace_sorted
emplace_sorted-last k o [] b = (refl, (omega arith, tt))
emplace_sorted-last k o ((j, x) ∷ m) b =
    let differs : (k == j) ≡ false = ground (arith, b.0) in
    let above : ltb k j ≡ false = ground (arith, b.0) in
    let rest = emplace_sorted-last k o m b.1 in
    rw (differs, above) (ap suc rest.0, (omega (arith, b.0), rest.1))

-- In a parser from which nothing was deleted, a new option gets an index of its own, under which
-- getopt_long's answer finds it; its short name leads to that index unless the name was taken;
-- every other index leads to the option that it did, and the next option can be added the same way.
pub add_option-IsDense :
    (o : Opt) (p : Parser)
    → IsDense p
    → let index = 255 + length p.options in
      let p' = add_option o p in
      IsDense p'
      × (lookup index p'.options ≡ some o)
      × ((i : ℕ) → i ≢ index → lookup i p'.options ≡ lookup i p.options)
      × ((low : ℕ)
          → IsAscending low p.char_index
          → o.short_opt ≢ 0
          → lookup o.short_opt p.char_index ≡ none
          → lookup o.short_opt p'.char_index ≡ some index)
unfolding add_option
add_option-IsDense o p v =
    let index = 255 + length p.options in
    let last = emplace_sorted-last index o p.options v.below in
    let fresh = lookup-above index index p.options v.below (omega arith) in
    (
      record {
        ascending = emplace_sorted-IsAscending index o p.options 255 (omega arith) v.ascending;
        below = All-weaken (suc index) _ _ (omega (arith, last.0)) last.1;
      },
      lookup-emplace_sorted index o p.options 255 v.ascending fresh,
      (λ i ne. lookup-emplace_sorted_other i index o p.options ne),
      λ low a ne free.
          let named : (o.short_opt == 0) ≡ false = ground arith in
          rw named (lookup-emplace_sorted o.short_opt index p.char_index low a free),
    )

-- The next index is the number of the options, so behind a deletion it may be taken. A new option
-- is then dropped, and its short name leads to the option that has the index.
pub add_option_lost :
    (o other : Opt) (p : Parser)
    → IsAscending 255 p.options
    → lookup (255 + length p.options) p.options ≡ some other
    → let p' = add_option o p in
      (p'.options ≡ p.options)
      × ((low : ℕ)
          → IsAscending low p.char_index
          → o.short_opt ≢ 0
          → o.short_opt < 255
          → lookup o.short_opt p.char_index ≡ none
          → resolve p' o.short_opt ≡ some other)
unfolding add_option resolve
add_option_lost o other p a e =
    let index = 255 + length p.options in
    let same = emplace_sorted-taken index o other p.options 255 a e in
    (
      same,
      λ low c ne char free.
          let named : (o.short_opt == 0) ≡ false = ground arith in
          let is_char : ltb o.short_opt 255 ≡ true = ground arith in
          let leads = lookup-emplace_sorted o.short_opt index p.char_index low c free in
          rw (is_char, named, leads) (ap (lookup index) same ∙ e),
    )
