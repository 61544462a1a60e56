-- ===== src/Util/Logger/Names/Hundred.antt =====
-- Where the names of the hundredth and the later log files of a day stand.
use ffzkit.Base.{
  Bytes, bytes_lt, codes, ℕ, ◌+◌, ◌/◌, ◌%◌, ◌≤◌, ◌<◌, ◌≡◌, refl, ap, ◌∙◌, true, false, ◌∷◌, ◌++◌,
  inl, inr, ltb, ◌==◌, Bool-cases, arith,
}
use ffzkit.Util.Logger.Names.{Date, dec, dec2, log_name}
use ffzkit.Util.Logger.Names.Ordered.{
  two, dec2-two, dec2_long, digits_by_three, same_front, IsPrinted, char_lt,
}

two_front : (p q : ℕ) (x y : Bytes) → p < q → bytes_lt (two p x) (two q y) ≡ true
unfolding bytes_lt
two_front p q x y h = elim (Bool-cases (ltb (p / 10) (q / 10))) [
  | inl e ↦ let f : ltb (48 + p / 10) (48 + q / 10) ≡ true = ground arith in rw f refl
  | inr e ↦
      let same : p / 10 ≡ q / 10 = le_same p q h (ground arith) in
      let f : ltb (48 + q / 10) (48 + q / 10) ≡ false = ground arith in
      let g : (48 + q / 10 == 48 + q / 10) ≡ true = ground arith in
      let l : ltb (48 + p % 10) (48 + q % 10) ≡ true = lt_digit p q h same in
      rw (same, f, g, l) refl
]
  where
    le_same : (p q : ℕ) → p < q → q / 10 ≤ p / 10 → p / 10 ≡ q / 10
    le_same p q h le = omega arith

    lt_digit : (p q : ℕ) → p < q → p / 10 ≡ q / 10 → ltb (48 + p % 10) (48 + q % 10) ≡ true
    lt_digit p q h e = let k : 48 + p % 10 < 48 + q % 10 = omega arith in ground arith

dec2_by_three :
    (j : ℕ) (x : Bytes) → 100 ≤ j → j < 1000 → dec2 j ++ x ≡ two (j / 10) ((48 + j % 10) ∷ x)
dec2_by_three j x h k =
    let e : ltb j 10 ≡ false = ground arith in
    ap (λ y. y ++ x) (dec2_long j e ∙ digits_by_three 7 j h k)

-- A file of a day whose index has three digits stands in front of one of this day whose index has two
-- digits, if the first two digits of its index are the smaller number: the file 100 stands in front of
-- the file 11, and the file 200 in front of the file 21.
pub hundred_in_front :
    (dir : Bytes) (t : Date) (i j : ℕ)
    → IsPrinted t i
    → 100 ≤ j
    → j < 1000
    → j / 10 < i
    → bytes_lt (dir ++ log_name t j) (dir ++ log_name t i) ≡ true
unfolding log_name
hundred_in_front dir t i j h a b c =
    same_front dir (log_name t j) (log_name t i)
    ∙ same_front (dec t.year) _ _
    ∙ char_lt b'-' _ _
    ∙ same_front (dec2 t.month) _ _
    ∙ char_lt b'-' _ _
    ∙ same_front (dec2 t.day) _ _
    ∙ char_lt b'_' _ _
    ∙ (λ r.
        bytes_lt (dec2_by_three j (codes ".log") a b r) (dec2-two i (codes ".log") h.index_to r))
    ∙ two_front (j / 10) i _ _ c
