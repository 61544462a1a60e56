-- ===== src/Util/Logger/Names/Ordered.antt =====
-- The order of the names of log files, which is the order of FileChannel's set, against that of their dates
-- and indices.
use ffzkit.Base.{
  Bytes, bytes_lt, codes, ℕ, suc, lt→ltb, ◌⊎◌, ◌+◌, ◌*◌, ◌/◌, ◌%◌, ◌≤◌, ◌<◌, ◌≡◌, refl, ap, ◌∙◌,
  inl, inr, true, false, [], ◌∷◌, ◌++◌, ltb, ◌==◌, Bool-cases, arith,
}
use native.Mathlib.Decide.{dec_lt}
use ffzkit.Util.Logger.Names.{Date, digits, dec, dec2, log_name}

-- Two digits, three digits and four.
abbrev pub two : ℕ → Bytes → Bytes
two n x = (48 + n / 10) ∷ (48 + n % 10) ∷ x

abbrev pub four : ℕ → Bytes → Bytes
four n x =
    (48 + n / 10 / 10 / 10) ∷ (48 + n / 10 / 10 % 10) ∷ (48 + n / 10 % 10) ∷ (48 + n % 10) ∷ x

digits_one : (f n : ℕ) → n < 10 → digits (suc f) n ≡ (48 + n) ∷ []
unfolding digits
digits_one f n h = let e : ltb n 10 ≡ true = ground arith in rw e refl

digits_more : (f n : ℕ) → 10 ≤ n → digits (suc f) n ≡ digits f (n / 10) ++ (48 + n % 10) ∷ []
unfolding digits
digits_more f n h = let e : ltb n 10 ≡ false = ground arith in rw e refl

digits-two : (f n : ℕ) → 10 ≤ n → n < 100 → digits (suc (suc f)) n ≡ two n []
digits-two f n h k =
    digits_more (suc f) n h
    ∙ ap (λ x. x ++ (48 + n % 10) ∷ []) (digits_one f (n / 10) (omega arith))

pub dec2_long : (n : ℕ) → ltb n 10 ≡ false → dec2 n ≡ digits 10 n
unfolding dec2 dec
dec2_long n e = rw (dec2, e) refl

pub dec2-two : (n : ℕ) (x : Bytes) → n < 100 → dec2 n ++ x ≡ two n x
unfolding dec2 dec
dec2-two n x h = elim (Bool-cases (ltb n 10)) [
  | inl e ↦
      let lt : n < 10 = ground arith in
      let a : 0 ≡ n / 10 = omega arith in
      let b : n ≡ n % 10 = omega arith in
      rw (dec2, e)
        (ap (λ (k : ℕ). (48 + k) ∷ (48 + n) ∷ x) a ∙ ap (λ (k : ℕ). (48 + n / 10) ∷ (48 + k) ∷ x) b)
  | inr e ↦ let le : 10 ≤ n = ground arith in ap (λ y. y ++ x) (dec2_long n e ∙ digits-two 8 n le h)
]

pub digits_by_three :
    (f n : ℕ)
    → 100 ≤ n
    → n < 1000
    → digits (suc (suc (suc f))) n ≡ two (n / 10) ((48 + n % 10) ∷ [])
digits_by_three f n h k =
    digits_more (suc (suc f)) n (omega arith)
    ∙ ap (λ x. x ++ (48 + n % 10) ∷ []) (digits-two f (n / 10) (omega arith) (omega arith))

pub dec-four : (n : ℕ) (x : Bytes) → 1000 ≤ n → n < 10000 → dec n ++ x ≡ four n x
unfolding dec
dec-four n x h k =
    let e : digits 10 n ≡ four n [] =
      digits_more 9 n (omega arith)
      ∙ ap (λ y. y ++ (48 + n % 10) ∷ [])
          (digits_by_three 6 (n / 10) (omega arith) (omega arith)) in
    ap (λ y. y ++ x) e

mul_gap : (d e k : ℕ) → d < e → d * k + k ≤ e * k
mul_gap d e k h = grind arith

not_lt : (a b : ℕ) → b ≤ a → ltb a b ≡ false
not_lt a b h = ground arith

Nat_cases : (d e : ℕ) → (d < e) ⊎ ((d ≡ e) ⊎ (e < d))
Nat_cases d e = elim (dec_lt d e) [
  | yes h ↦ inl h
  | no h ↦ elim (dec_lt e d) [ yes k ↦ inr (inr k) | no k ↦ inr (inl (omega arith)) ]
]

-- One more digit in front of two texts of the same length, which are ordered as two numbers below k are.
digit_lt :
    (d e m n k : ℕ) (x y : Bytes)
    → m < k
    → n < k
    → bytes_lt x y ≡ ltb m n
    → bytes_lt ((48 + d) ∷ x) ((48 + e) ∷ y) ≡ ltb (d * k + m) (e * k + n)
unfolding bytes_lt
digit_lt d e m n k x y hm hn h = elim (Nat_cases d e) [
  | inl lt ↦
      let f : ltb (48 + d) (48 + e) ≡ true = ground arith in
      let g : ltb (d * k + m) (e * k + n) ≡ true = lt→ltb _ _ (omega (arith, mul_gap d e k lt)) in
      rw (f, g) refl
  | inr (inl eq) ↦ rw eq (
      let f : ltb (48 + e) (48 + e) ≡ false = ground arith in
      let g : (48 + e == 48 + e) ≡ true = ground arith in
      let i : ltb m n ≡ ltb (e * k + m) (e * k + n) = ground arith in rw (f, g) (h ∙ i))
  | inr (inr gt) ↦
      let f : ltb (48 + d) (48 + e) ≡ false = ground arith in
      let g : (48 + d == 48 + e) ≡ false = ground arith in
      let i : ltb (d * k + m) (e * k + n) ≡ false = not_lt _ _ (omega (arith, mul_gap e d k gt)) in
      rw (f, g, i) refl
]

pub char_lt : (c : ℕ) (x y : Bytes) → bytes_lt (c ∷ x) (c ∷ y) ≡ bytes_lt x y
unfolding bytes_lt
char_lt c x y =
    let a : ltb c c ≡ false = ground arith in
    let b : (c == c) ≡ true = ground arith in rw (a, b) refl

below : (q m k : ℕ) → q < 10 → m < k → q * k + m < 10 * k
below q m k h l = grind (arith, mul_gap q 10 k)

joined : (p q m k : ℕ) → p * (10 * k) + (q * k + m) ≡ (p * 10 + q) * k + m
joined p q m k = grind arith

-- Two more digits.
digits_lt :
    (p q p' q' m n k : ℕ) (x y : Bytes)
    → q < 10
    → q' < 10
    → m < k
    → n < k
    → bytes_lt x y ≡ ltb m n
    → bytes_lt ((48 + p) ∷ (48 + q) ∷ x) ((48 + p') ∷ (48 + q') ∷ y)
      ≡ ltb ((p * 10 + q) * k + m) ((p' * 10 + q') * k + n)
digits_lt p q p' q' m n k x y hq hq' hm hn h =
    digit_lt p p' (q * k + m) (q' * k + n) (10 * k) ((48 + q) ∷ x) ((48 + q') ∷ y)
      (below q m k hq hm) (below q' n k hq' hn) (digit_lt q q' m n k x y hm hn h)
    ∙ λ i. ltb (joined p q m k i) (joined p' q' n k i)

-- The date and the index are printed in four digits and two and two and two.
pub record IsPrinted (t : Date) (index : ℕ) : Type 0 where
  pub year_from : 1000 ≤ t.year
  pub year_to : t.year < 10000
  pub month_to : t.month < 100
  pub day_to : t.day < 100
  pub index_to : index < 100

-- The place in the order of the dates, and of the indices on each.
abbrev pub place : Date → ℕ → ℕ
place t index = ((t.year * 100 + t.month) * 100 + t.day) * 100 + index

log_name_lem :
    (t : Date) (i : ℕ)
    → IsPrinted t i
    → log_name t i
      ≡ four t.year (b'-' ∷ two t.month (b'-' ∷ two t.day (b'_' ∷ two i (codes ".log"))))
unfolding log_name
log_name_lem t i h =
    dec-four t.year _ h.year_from h.year_to
    ∙ ap (λ x. four t.year (b'-' ∷ x))
        (dec2-two t.month _ h.month_to
          ∙ ap (λ x. two t.month (b'-' ∷ x))
              (dec2-two t.day _ h.day_to
                ∙ ap (λ x. two t.day (b'_' ∷ x)) (dec2-two i _ h.index_to)))

pub same_front : (dir x y : Bytes) → bytes_lt (dir ++ x) (dir ++ y) ≡ bytes_lt x y
same_front [] x y = refl
same_front (c ∷ dir) x y = char_lt c (dir ++ x) (dir ++ y) ∙ same_front dir x y

two_lt :
    (a b m n k : ℕ) (x y : Bytes)
    → m < k
    → n < k
    → bytes_lt x y ≡ ltb m n
    → bytes_lt (two a x) (two b y) ≡ ltb (a * k + m) (b * k + n)
two_lt a b m n k x y hm hn h =
    let ea : a / 10 * 10 + a % 10 ≡ a = omega arith in
    let eb : b / 10 * 10 + b % 10 ≡ b = omega arith in
    digits_lt (a / 10) (a % 10) (b / 10) (b % 10) m n k x y (omega arith) (omega arith) hm hn h
    ∙ λ i. ltb (ea i * k + m) (eb i * k + n)

index_lt : (i j : ℕ) → bytes_lt (two i (codes ".log")) (two j (codes ".log")) ≡ ltb i j
unfolding bytes_lt
index_lt i j =
    let e : (a : ℕ) → a * 1 + 0 ≡ a = λ a. omega arith in
    two_lt i j 0 0 1 (codes ".log") (codes ".log") (omega arith) (omega arith) refl ∙ λ r.
    ltb (e i r) (e j r)

four_value :
    (a m : ℕ)
    → (a / 10 / 10 / 10 * 10 + a / 10 / 10 % 10) * 100000000
        + ((a / 10 % 10 * 10 + a % 10) * 1000000 + m)
      ≡ a * 1000000 + m
four_value a m = omega arith

four_lt :
    (a b m n : ℕ) (x y : Bytes)
    → m < 1000000
    → n < 1000000
    → bytes_lt x y ≡ ltb m n
    → bytes_lt (four a x) (four b y) ≡ ltb (a * 1000000 + m) (b * 1000000 + n)
four_lt a b m n x y hm hn h =
    digits_lt (a / 10 / 10 / 10) (a / 10 / 10 % 10) (b / 10 / 10 / 10) (b / 10 / 10 % 10)
      ((a / 10 % 10 * 10 + a % 10) * 1000000 + m) ((b / 10 % 10 * 10 + b % 10) * 1000000 + n)
      100000000 _ _ (omega arith) (omega arith) (omega arith) (omega arith)
      (digits_lt (a / 10 % 10) (a % 10) (b / 10 % 10) (b % 10) m n 1000000 x y (omega arith)
        (omega arith) hm hn h)
    ∙ λ i. ltb (four_value a m i) (four_value b n i)

tail_place : Date → ℕ → ℕ
tail_place t i = t.month * 10000 + (t.day * 100 + i)

tail_place-lt : (t : Date) (i : ℕ) → IsPrinted t i → tail_place t i < 1000000
unfolding tail_place
tail_place-lt t i h = omega (arith, h.month_to, h.day_to, h.index_to)

place_lem : (t : Date) (i : ℕ) → t.year * 1000000 + tail_place t i ≡ place t i
unfolding tail_place
place_lem t i = omega arith

-- In a directory, the names of the files of two dates with years of four digits stand in the order of the
-- dates, and those of one date in the order of their indices, if the indices are below 100.
pub log_name-place :
    (dir : Bytes) (t u : Date) (i j : ℕ)
    → IsPrinted t i
    → IsPrinted u j
    → bytes_lt (dir ++ log_name t i) (dir ++ log_name u j) ≡ ltb (place t i) (place u j)
unfolding tail_place
log_name-place dir t u i j h k =
    same_front dir (log_name t i) (log_name u j)
    ∙ (λ r. bytes_lt (log_name_lem t i h r) (log_name_lem u j k r))
    ∙ four_lt t.year u.year (tail_place t i) (tail_place u j) _ _ (tail_place-lt t i h)
        (tail_place-lt u j k)
        (char_lt b'-' _ _
          ∙ two_lt t.month u.month (t.day * 100 + i) (u.day * 100 + j) 10000 _ _
              (omega (arith, h.day_to, h.index_to)) (omega (arith, k.day_to, k.index_to))
              (char_lt b'-' _ _
                ∙ two_lt t.day u.day i j 100 _ _ h.index_to k.index_to
                    (char_lt b'_' _ _ ∙ index_lt i j)))
    ∙ λ r. ltb (place_lem t i r) (place_lem u j r)
