-- ===== src/Util/Text/Find.antt =====
-- What the source uses of std::string: find, rfind, substr; and `start_with`, `end_with`.
use mathlib.Core.Option
use mathlib.Core.List.{append-nil}
use ffzkit.Base.{
  All, ◌≢◌, Bytes, ℕ, suc, ◌+◌, ◌-◌, ◌≤◌, ◌≡◌, refl, ap, ◌∙◌, subst, ◌↔◌, inl, inr, Bool, true,
  false, ◌&&◌, List, [], ◌∷◌, ◌++◌, Option, none, some, ltb, ◌==◌, if◌then◌else◌, length,
  length-append, drop, arith, Bool-cases, Option-cases,
}

pub is_prefix : Bytes → Bytes → Bool
is_prefix [] s = true
is_prefix (p ∷ ps) [] = false
is_prefix (p ∷ ps) (c ∷ cs) = p == c && is_prefix ps cs

-- The first position at which `pat` stands in `s`; `none` is npos.
unfoldable pub find : Bytes → Bytes → Option ℕ
unfolding is_prefix
find pat [] = if is_prefix pat [] then some 0 else none
find pat (c ∷ cs) = if is_prefix pat (c ∷ cs) then some 0 else Option.map suc (find pat cs)

-- `s.find(pat, pos)`.
unfoldable pub find_from : Bytes → Bytes → ℕ → Option ℕ
unfolding find
find_from s pat pos =
    if ltb (length s) pos then none else Option.map (◌+◌ pos) (find pat (drop pos s))

-- The last position at which `pat` stands in `s`.
unfoldable pub rfind : Bytes → Bytes → Option ℕ
unfolding is_prefix
rfind pat [] = if is_prefix pat [] then some 0 else none
rfind pat (c ∷ cs) = elim (rfind pat cs) [
  | some i ↦ some (suc i)
  | none ↦ if is_prefix pat (c ∷ cs) then some 0 else none
]

unfoldable pub start_with : Bytes → Bytes → Bool
unfolding find
start_with str substr = elim (find substr str) [ none ↦ false | some pos ↦ pos == 0 ]

unfoldable pub end_with : Bytes → Bytes → Bool
unfolding rfind
end_with str substr =
    if ltb (length str) (length substr)
    then false
    else elim (rfind substr str) [ none ↦ false | some pos ↦ pos == length str - length substr ]

pub is_prefix_iff :
    (pat s : Bytes) → (is_prefix pat s ≡ true) ↔ ((rest : Bytes) × (s ≡ pat ++ rest))
unfolding is_prefix
is_prefix_iff [] s = (λ _. (s, refl), λ _. refl)
is_prefix_iff (p ∷ ps) [] = (λ e. cc, λ (rest, e). cc)
is_prefix_iff (p ∷ ps) (c ∷ cs) = (
  λ e. let (rest, q) = (is_prefix_iff ps cs).0 (ground arith) in (rest, ground arith),
  λ (rest, e). ground (arith, (is_prefix_iff ps cs).1 (rest, ground arith)),
)

-- `pat` stands in `s` at position `i`.
abbrev pub Occurs : Bytes → Bytes → ℕ → Type 0
Occurs pat s i =
    (before : Bytes) × (after : Bytes) × (s ≡ before ++ (pat ++ after)) × (length before ≡ i)

Occurs-cons : (pat s : Bytes) (i c : ℕ) → Occurs pat s i → Occurs pat (c ∷ s) (suc i)
Occurs-cons pat s i c (before, after, e, l) = (c ∷ before, after, ap (◌∷◌ c) e, ap suc l)

Occurs-here : (pat s : Bytes) → is_prefix pat s ≡ true → Occurs pat s 0
Occurs-here pat s e = let (rest, q) = (is_prefix_iff pat s).0 e in ([], rest, q, refl)

pub find-Occurs : (pat s : Bytes) {i : ℕ} → find pat s ≡ some i → Occurs pat s i
unfolding find
find-Occurs pat [] e = elim (Bool-cases (is_prefix pat [])) [
  | inl p ↦ subst (Occurs pat []) (ground arith) (Occurs-here pat [] p)
  | inr p ↦ absurd (ground arith)
]
find-Occurs pat (c ∷ cs) {i} e = elim (Bool-cases (is_prefix pat (c ∷ cs))) [
  | inl p ↦ subst (Occurs pat (c ∷ cs)) (ground arith) (Occurs-here pat (c ∷ cs) p)
  | inr p ↦ elim (Option-cases (find pat cs)) [
    | inl q ↦ absurd (ground arith)
    | inr (j, q) ↦
        subst (Occurs pat (c ∷ cs)) (ground arith) (Occurs-cons pat cs j c (find-Occurs pat cs q))
  ]
]

-- `find` meets the first place: there is none before it, and none at all if it fails.
pub find_first :
    (pat s before after : Bytes)
    → s ≡ before ++ (pat ++ after)
    → (i : ℕ) × (find pat s ≡ some i) × (i ≤ length before)
unfolding find
find_first pat [] [] after e = (0, rw ((is_prefix_iff pat []).1 (after, e)), omega arith)
find_first pat [] (b ∷ bs) after e = absurd (cc)
find_first pat (c ∷ cs) [] after e =
    (0, rw ((is_prefix_iff pat (c ∷ cs)).1 (after, e)), omega arith)
find_first pat (c ∷ cs) (b ∷ bs) after e =
    let (i, q, h) = find_first pat cs bs after (ground arith) in
    elim (Bool-cases (is_prefix pat (c ∷ cs))) [
      | inl p ↦ (0, rw p, omega arith)
      | inr p ↦ (suc i, rw (p, q), omega arith)
    ]

rfind-Occurs : (pat s : Bytes) {i : ℕ} → rfind pat s ≡ some i → Occurs pat s i
unfolding rfind
rfind-Occurs pat [] e = elim (Bool-cases (is_prefix pat [])) [
  | inl p ↦ subst (Occurs pat []) (ground arith) (Occurs-here pat [] p)
  | inr p ↦ absurd (ground arith)
]
rfind-Occurs pat (c ∷ cs) e = elim (Option-cases (rfind pat cs)) [
  | inr (j, q) ↦
      subst (Occurs pat (c ∷ cs)) (ground arith) (Occurs-cons pat cs j c (rfind-Occurs pat cs q))
  | inl q ↦ elim (Bool-cases (is_prefix pat (c ∷ cs))) [
    | inl p ↦ subst (Occurs pat (c ∷ cs)) (ground arith) (Occurs-here pat (c ∷ cs) p)
    | inr p ↦ absurd (ground arith)
  ]
]

-- `rfind` meets the last place.
pub rfind_last :
    (pat s before after : Bytes)
    → s ≡ before ++ (pat ++ after)
    → (i : ℕ) × (rfind pat s ≡ some i) × (length before ≤ i)
unfolding rfind
rfind_last pat [] [] after e = (0, rw ((is_prefix_iff pat []).1 (after, e)), omega arith)
rfind_last pat [] (b ∷ bs) after e = absurd (cc)
rfind_last pat (c ∷ cs) [] after e = elim (Option-cases (rfind pat cs)) [
  | inl q ↦ (0, rw (q, (is_prefix_iff pat (c ∷ cs)).1 (after, e)), omega arith)
  | inr (j, q) ↦ (suc j, rw q, omega arith)
]
rfind_last pat (c ∷ cs) (b ∷ bs) after e =
    let (i, q, h) = rfind_last pat cs bs after (ground arith) in (suc i, rw q, omega arith)

start_with-is_prefix : (str substr : Bytes) → start_with str substr ≡ is_prefix substr str
unfolding start_with
start_with-is_prefix [] substr = ground arith
start_with-is_prefix (c ∷ cs) substr = ground arith

-- `start_with` says whether the string is the prefix and something behind it.
pub start_with_iff :
    (str substr : Bytes)
    → (start_with str substr ≡ true) ↔ ((rest : Bytes) × (str ≡ substr ++ rest))
start_with_iff str substr = rw (start_with-is_prefix str substr) (is_prefix_iff substr str)

length-zero {ℓ} : {A : Type ℓ} (xs : List A) → length xs ≡ 0 → xs ≡ []
length-zero [] e = refl
length-zero (x ∷ xs) e = absurd (omega arith)

end_with-true :
    (str substr : Bytes) → end_with str substr ≡ true → (rest : Bytes) × (str ≡ rest ++ substr)
unfolding end_with
end_with-true str substr e = elim (Option-cases (rfind substr str)) [
  | inl q ↦ absurd (ground arith)
  | inr (i, q) ↦
      let (before, after, cut, l) = rfind-Occurs substr str q in
      let n : length after ≡ 0 = ground (
        arith,
        ap length cut,
        length-append before (substr ++ after),
        length-append substr after,
      ) in
      (before, cut ∙ rw (length-zero after n, append-nil))
]

end_with-append : (rest substr : Bytes) → end_with (rest ++ substr) substr ≡ true
unfolding end_with
end_with-append rest substr =
    let (i, q, h) = rfind_last substr (rest ++ substr) rest [] (rw append-nil) in
    let (before, after, cut, l) = rfind-Occurs substr (rest ++ substr) q in
    rw q (
      ground (
        arith,
        ap length cut,
        length-append rest substr,
        length-append before (substr ++ after),
        length-append substr after,
      ))

-- `end_with` says whether the string is something and then the suffix.
pub end_with_iff :
    (str substr : Bytes) → (end_with str substr ≡ true) ↔ ((rest : Bytes) × (str ≡ rest ++ substr))
end_with_iff str substr =
    (end_with-true str substr, λ (rest, e). rw e (end_with-append rest substr))

-- `find` of one byte that is not in what stands before it.
pub find_byte :
    (c : ℕ) (a b : Bytes) → All (λ x. x ≢ c) a → find (c ∷ []) (a ++ c ∷ b) ≡ some (length a)
unfolding find is_prefix
find_byte c [] b h = let same : (c == c) ≡ true = ground arith in rw same refl
find_byte c (x ∷ a) b h =
    let other : (c == x) ≡ false = (let n = h.0 in ground arith) in
    rw (find, is_prefix, other, find_byte c a b h.1) refl

pub find_byte_none : (c : ℕ) (a : Bytes) → All (λ x. x ≢ c) a → find (c ∷ []) a ≡ none
unfolding find is_prefix
find_byte_none c [] h = refl
find_byte_none c (x ∷ a) h =
    let other : (c == x) ≡ false = (let n = h.0 in ground arith) in
    rw (find, is_prefix, other, find_byte_none c a h.1) refl

pub rfind_byte_none : (c : ℕ) (a : Bytes) → All (λ x. x ≢ c) a → rfind (c ∷ []) a ≡ none
unfolding rfind is_prefix
rfind_byte_none c [] h = refl
rfind_byte_none c (x ∷ a) h =
    let other : (c == x) ≡ false = (let n = h.0 in ground arith) in
    rw (rfind, rfind_byte_none c a h.1, is_prefix, other) refl

-- `rfind` of one byte that is not in what stands behind it.
pub rfind_byte :
    (c : ℕ) (a b : Bytes) → All (λ x. x ≢ c) b → rfind (c ∷ []) (a ++ c ∷ b) ≡ some (length a)
unfolding rfind is_prefix
rfind_byte c [] b h =
    let same : (c == c) ≡ true = ground arith in
    rw (rfind, rfind_byte_none c b h, is_prefix, same) refl
rfind_byte c (x ∷ a) b h = rw (rfind, rfind_byte c a b h) refl
