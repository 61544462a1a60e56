-- ===== src/Util/Ini/Lines.antt =====
-- How parse of src/Util/mini.h reads the lines that dump writes.
use mathlib.Core.List.{reverse, reverse-append, reverse-cons, append_assoc}
use ffzkit.Util.Text.Find.{find_byte}
use ffzkit.Util.Text.Trim.{listed, trim, blanks, Ascii, StartsClean, trim-clean, drop_listed-listed}
use ffzkit.Base.{
  take-length, drop-length, Bytes, ℕ, suc, ◌-◌, ◌<◌, ◌≡◌, ◌≢◌, refl, Bool, true, false, ◌&&◌, ◌||◌,
  [], ◌∷◌, ◌++◌, some, ◌==◌, leb, All, All-append, length, length-append, arith,
}
use ffzkit.Util.Ini.{is_empty, Entries, assign, front_is, back_is, inner, read_line, parse_line}
use ffzkit.Util.Ini.Tokens.{with_cr}

-- A text that `trim` leaves as it is: no blank at either end, and no byte 0xFF.
pub record IsClean (s : Bytes) : Type 0 where
  pub ascii : Ascii s
  pub starts : StartsClean blanks s
  pub ends : StartsClean blanks (reverse s)

pub trim-IsClean : (s : Bytes) → IsClean s → trim blanks s ≡ some s
trim-IsClean s v = trim-clean blanks s v.ascii v.starts v.ends

-- Also with the `\r` that is left of the end of its line.
trim-with_cr : (s : Bytes) → IsClean s → trim blanks (with_cr s) ≡ some s
unfolding trim
trim-with_cr s v =
    rw
      (
        reverse-append s (b'\r' ∷ []),
        drop_listed-listed blanks b'\r' (reverse s) (omega arith) refl,
      )
      (trim-IsClean s v)

StartsClean-glue :
    (a b : Bytes) (c : ℕ)
    → StartsClean blanks a
    → listed c blanks ≡ false
    → StartsClean blanks (a ++ c ∷ b)
StartsClean-glue [] b c h k = k
StartsClean-glue (x ∷ a) b c h k = h

-- Two clean texts with a byte between them that is no blank.
pub IsClean-glue :
    (a b : Bytes) (c : ℕ)
    → IsClean a
    → IsClean b
    → listed c blanks ≡ false
    → c < 0xff
    → IsClean (a ++ c ∷ b)
IsClean-glue a b c v w k h = record {
  ascii = All-append _ a (c ∷ b) v.ascii (h, w.ascii);
  starts = StartsClean-glue a b c v.starts k;
  ends =
      rw (reverse-append a (c ∷ b), reverse-cons c b, append_assoc (reverse b) (c ∷ []) (reverse a))
        (StartsClean-glue (reverse b) (reverse a) c w.ends k);
}

pub nil-IsClean : IsClean []
nil-IsClean = record { ascii = tt; starts = tt; ends = tt }

-- A name, as dump writes it in front of the `=`.
pub record IsName (s : Bytes) : Type 0 where
  pub clean : IsClean s
  pub no_sign : All (λ x. x ≢ b'=') s
  pub no_comment : front_is b';' s ≡ false
  pub no_hash : front_is b'#' s ≡ false
  pub no_bracket : front_is b'[' s ≡ false

front_is-append :
    (c d : ℕ) (a b : Bytes)
    → front_is c a ≡ false
    → (d == c) ≡ false
    → front_is c (a ++ d ∷ b) ≡ false
front_is-append c d [] b h k = k
front_is-append c d (x ∷ a) b h k = h

is_empty-append : (a b : Bytes) (d : ℕ) → is_empty (a ++ d ∷ b) ≡ false
is_empty-append [] b d = refl
is_empty-append (x ∷ a) b d = refl

and_middle : (a b c : Bool) → b ≡ false → (a && b && c) ≡ false
and_middle true b c e = rw e refl
and_middle false b c e = refl

read_entry :
    (tag name value : Bytes) (m : Entries)
    → IsName name
    → IsClean tag
    → IsClean value
    → read_line tag (name ++ b'=' ∷ value) m ≡ some (tag, assign (tag ++ b'.' ∷ name) value m)
unfolding read_line
read_entry tag name value m n t v =
    let line = name ++ b'=' ∷ value in
    rw
      (
        read_line,
        is_empty-append name value b'=',
        front_is-append b';' b'=' name value n.no_comment refl,
        front_is-append b'#' b'=' name value n.no_hash refl,
        and_middle (leb 3 (length line)) (front_is b'[' line) (back_is b']' line)
            (front_is-append b'[' b'=' name value n.no_bracket refl),
        find_byte b'=' name value n.no_sign,
        take-length name (b'=' ∷ value),
        trim-IsClean (tag ++ b'.' ∷ name) (IsClean-glue tag name b'.' t n.clean refl (omega arith)),
        drop-length name value b'=',
        trim-IsClean value v,
      )
      refl

length-tag : (tag : Bytes) → tag ≢ [] → leb 3 (suc (length (tag ++ b']' ∷ []))) ≡ true
length-tag [] ne = absurd (ne refl)
length-tag (c ∷ tag) ne = let l = length-append tag (b']' ∷ []) in ground (arith, l)

back_is-section : (tag : Bytes) → back_is b']' (b'[' ∷ (tag ++ b']' ∷ [])) ≡ true
back_is-section tag = rw (reverse-cons b'[' (tag ++ b']' ∷ []), reverse-append tag (b']' ∷ [])) refl

inner-section : (tag : Bytes) → inner (b'[' ∷ (tag ++ b']' ∷ [])) ≡ tag
inner-section tag =
    let l : suc (length (tag ++ b']' ∷ [])) - 2 ≡ length tag =
      (let k = length-append tag (b']' ∷ []) in omega (arith, k)) in
    rw l (take-length tag (b']' ∷ []))

read_section :
    (old tag : Bytes) (m : Entries)
    → IsClean tag
    → tag ≢ []
    → read_line old (b'[' ∷ (tag ++ b']' ∷ [])) m ≡ some (tag, m)
unfolding read_line
read_section old tag m t ne =
    rw (read_line, length-tag tag ne, back_is-section tag, inner-section tag, trim-IsClean tag t)
      refl

-- What `parse` makes of a line of each kind that dump writes.
pub parse_entry :
    (tag name value : Bytes) (m : Entries)
    → IsName name
    → IsClean tag
    → IsClean value
    → parse_line tag (with_cr (name ++ b'=' ∷ value)) m
      ≡ some (tag, assign (tag ++ b'.' ∷ name) value m)
unfolding parse_line
parse_entry tag name value m n t v =
    rw
      (trim-with_cr (name ++ b'=' ∷ value)
        (IsClean-glue name value b'=' n.clean v refl (omega arith)))
      (read_entry tag name value m n t v)

pub parse_section :
    (old tag : Bytes) (m : Entries)
    → IsClean tag
    → tag ≢ []
    → parse_line old (with_cr (b'[' ∷ (tag ++ b']' ∷ []))) m ≡ some (tag, m)
unfolding parse_line
parse_section old tag m t ne =
    let ending = IsClean-glue tag [] b']' t nil-IsClean refl (omega arith) in
    rw
      (trim-with_cr (b'[' ∷ (tag ++ b']' ∷ []))
        (IsClean-glue [] (tag ++ b']' ∷ []) b'[' nil-IsClean ending refl (omega arith)))
      (read_section old tag m t ne)

-- A line that is empty, or a comment.
abbrev pub IsSkipped : Bytes → Type 0
IsSkipped s = IsClean s × (is_empty s || front_is b';' s || front_is b'#' s ≡ true)

pub parse_skipped :
    (tag s : Bytes) (m : Entries) → IsSkipped s → parse_line tag (with_cr s) m ≡ some (tag, m)
unfolding parse_line read_line
parse_skipped tag s m (v, e) = rw (trim-with_cr s v, read_line, e) refl
