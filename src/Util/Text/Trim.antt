-- ===== src/Util/Text/Trim.antt =====
-- `trim` of src/Util/util.cpp, and the byte table that it looks characters up in.
use mathlib.Core.List.{reverse, reverse-append, reverse-reverse, reverse-cons, append_assoc}
use ffzkit.Base.{
  Bytes, ℕ, ◌<◌, ◌≡◌, refl, ap, sym, subst, ◌∙◌, inl, inr, Bool, true, false, ◌||◌, List, [], ◌∷◌,
  ◌++◌, Option, none, some, ltb, ◌==◌, if◌then◌else◌, Bool-cases, All, All-append, lt→ltb,
}

abbrev pub listed : ℕ → Bytes → Bool
listed c [] = false
listed c (x ∷ xs) = x == c || listed c xs

-- `map.at(c)`: the table has 0xFF entries, so `at` throws std::out_of_range for the byte 0xFF.
unfoldable pub table_at : Bytes → ℕ → Option Bool
table_at chars c = if ltb c 0xff then some (listed c chars) else none

-- One of the two loops, over the bytes in the order in which it takes them off.
pub drop_listed : Bytes → Bytes → Option Bytes
unfolding table_at
drop_listed chars [] = some []
drop_listed chars (c ∷ cs) = elim (table_at chars c) [
  | none ↦ none
  | some true ↦ drop_listed chars cs
  | some false ↦ some (c ∷ cs)
]

infixl 5 ◌>>=◌
abbrev pub ◌>>=◌ {ℓ κ} : {A : Type ℓ} {B : Type κ} → Option A → (A → Option B) → Option B
none >>= f = none
some a >>= f = f a

-- The back first; `none` is the exception.
unfoldable pub trim : Bytes → Bytes → Option Bytes
unfolding drop_listed
trim chars s = do back ← drop_listed chars (reverse s); drop_listed chars (reverse back)

-- " \r\n\t".
abbrev pub blanks : Bytes
blanks = b' ' ∷ b'\r' ∷ b'\n' ∷ b'\t' ∷ []

abbrev pub AllListed : Bytes → Bytes → Type 0
AllListed chars = All λ c. listed c chars ≡ true

-- The first byte, if there is one, is not among the characters.
abbrev pub StartsClean : Bytes → Bytes → Type 0
StartsClean chars [] = Unit
StartsClean chars (c ∷ cs) = listed c chars ≡ false

abbrev pub Ascii : Bytes → Type 0
Ascii = All λ c. c < 0xff

table_at_lem : (chars : Bytes) (c : ℕ) → c < 0xff → table_at chars c ≡ some (listed c chars)
unfolding table_at
table_at_lem chars c h = rw (lt→ltb c 0xff h)

pub drop_listed-listed :
    (chars : Bytes) (c : ℕ) (cs : Bytes)
    → c < 0xff
    → listed c chars ≡ true
    → drop_listed chars (c ∷ cs) ≡ drop_listed chars cs
unfolding drop_listed
drop_listed-listed chars c cs h e =
    let t : table_at chars c ≡ some true = table_at_lem chars c h ∙ ap some e in rw (drop_listed, t)

pub drop_listed-clean :
    (chars s : Bytes) → Ascii s → StartsClean chars s → drop_listed chars s ≡ some s
unfolding drop_listed
drop_listed-clean chars [] a k = refl
drop_listed-clean chars (c ∷ cs) a k =
    let t : table_at chars c ≡ some false = table_at_lem chars c a.0 ∙ ap some k in
    rw (drop_listed, t)

drop_listed_lem :
    (chars s : Bytes)
    → Ascii s
    → (gone kept : Bytes) × (drop_listed chars s ≡ some kept)
      × (s ≡ gone ++ kept)
      × AllListed chars gone
      × StartsClean chars kept
unfolding drop_listed
drop_listed_lem chars [] a = ([], [], refl, refl, tt, tt)
drop_listed_lem chars (c ∷ cs) a = elim (Bool-cases (listed c chars)) [
  | inl y ↦
      let (gone, kept, e, cut, l, k) = drop_listed_lem chars cs a.1 in
      (c ∷ gone, kept, drop_listed-listed chars c cs a.0 y ∙ e, ap (◌∷◌ c) cut, (y, l), k)
  | inr n ↦ ([], c ∷ cs, drop_listed-clean chars (c ∷ cs) a n, refl, tt, n)
]

pub All-reverse {ℓ κ} : {A : Type ℓ} (P : A → Type κ) (xs : List A) → All P xs → All P (reverse xs)
All-reverse P [] h = h
All-reverse P (x ∷ xs) h =
    rw (reverse-cons x xs) (All-append P (reverse xs) (x ∷ []) (All-reverse P xs h.1) (h.0, tt))

All-split {ℓ κ} :
    {A : Type ℓ} (P : A → Type κ) (xs ys : List A) → All P (xs ++ ys) → All P xs × All P ys
All-split P [] ys h = (tt, h)
All-split P (x ∷ xs) ys h = let r = All-split P xs ys h.1 in ((h.0, r.0), r.1)

StartsClean-append : (chars xs ys : Bytes) → StartsClean chars (xs ++ ys) → StartsClean chars xs
StartsClean-append chars [] ys h = tt
StartsClean-append chars (x ∷ xs) ys h = h

-- What is trimmed: nothing but listed characters goes, at both ends, and neither end of what is
-- left is a listed character.
pub record Trimmed (chars s r : Bytes) : Type 0 where
  pub before : Bytes
  pub after : Bytes
  pub cut : s ≡ before ++ (r ++ after)
  pub before_listed : AllListed chars before
  pub after_listed : AllListed chars after
  pub starts_clean : StartsClean chars r
  pub ends_clean : StartsClean chars (reverse r)

-- For a string without the byte 0xFF, `trim` returns, with nothing but listed characters taken off
-- both ends, and with no listed character left at either end.
pub trim-Trimmed :
    (chars s : Bytes) → Ascii s → (r : Bytes) × (trim chars s ≡ some r) × Trimmed chars s r
unfolding trim
trim-Trimmed chars s a =
    let (gone, kept, e, cut, l, k) = drop_listed_lem chars (reverse s) (All-reverse _ s a) in
    let cut' : s ≡ reverse kept ++ reverse gone =
      sym (reverse-reverse s) ∙ ap reverse cut ∙ reverse-append gone kept in
    let (gone', r, e', cut'', l', k') =
      drop_listed_lem chars (reverse kept)
        (All-split _ (reverse kept) (reverse gone) (subst Ascii cut' a)).0 in
    let back : kept ≡ reverse r ++ reverse gone' =
      sym (reverse-reverse kept) ∙ ap reverse cut'' ∙ reverse-append gone' r in
    (
      r,
      rw (e, e'),
      record {
        before = gone';
        after = reverse gone;
        cut = cut' ∙ ap (λ x. x ++ reverse gone) cut'' ∙ append_assoc gone' r (reverse gone);
        before_listed = l';
        after_listed = All-reverse _ gone l;
        starts_clean = k';
        ends_clean = StartsClean-append chars (reverse r) (reverse gone') (rw back at k);
      },
    )

-- A string that starts and ends with no listed character stays as it is.
pub trim-clean :
    (chars s : Bytes)
    → Ascii s
    → StartsClean chars s
    → StartsClean chars (reverse s)
    → trim chars s ≡ some s
unfolding trim
trim-clean chars s a k k' =
    rw (drop_listed-clean chars (reverse s) (All-reverse _ s a) k', reverse-reverse s)
      (drop_listed-clean chars s a k)

drop_listed-0xff :
    (chars t rest : Bytes)
    → Ascii t
    → AllListed chars t
    → drop_listed chars (t ++ 0xff ∷ rest) ≡ none
unfolding drop_listed table_at
drop_listed-0xff chars [] rest a l = refl
drop_listed-0xff chars (c ∷ t) rest a l =
    drop_listed-listed chars c _ a.0 l.0 ∙ drop_listed-0xff chars t rest a.1 l.1

-- A string with the byte 0xFF in its last place, or with nothing but listed characters behind it,
-- makes `trim` throw std::out_of_range: the table has no entry for that byte.
pub trim_throws :
    (chars s t : Bytes) → Ascii t → AllListed chars t → trim chars (s ++ 0xff ∷ t) ≡ none
unfolding trim
trim_throws chars s t a l =
    rw (reverse-append s (0xff ∷ t), reverse-cons 0xff t, append_assoc)
      (rw (drop_listed-0xff chars (reverse t) (reverse s) (All-reverse _ t a) (All-reverse _ t l)))
