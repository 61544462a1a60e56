-- ===== src/Util/Ini/Tokens.antt =====
-- What tokenize of src/Util/mini.h makes of lines that end in "\r\n".
use mathlib.Core.List.{reverse, reverse-reverse, reverse-cons, append_assoc, append-nil}
use ffzkit.Util.Text.Trim.{All-reverse}
use ffzkit.Base.{
  Bytes, ◌≡◌, ◌≢◌, refl, sym, ap, ◌∙◌, false, List, [], ◌∷◌, ◌++◌, map, ◌==◌, All, arith,
}
use ffzkit.Util.Ini.{is_empty, tokens_loop, pop_empty, tokenize}

abbrev pub OneLine : Bytes → Type 0
OneLine = All λ c. c ≢ b'\n'

-- Lines, each with its end.
abbrev pub render : List Bytes → Bytes
render [] = []
render (x ∷ xs) = x ++ (b'\r' ∷ b'\n' ∷ render xs)

pub render-append : (xs ys : List Bytes) → render (xs ++ ys) ≡ render xs ++ render ys
render-append [] ys = refl
render-append (x ∷ xs) ys =
    rw (render-append xs ys) (sym (append_assoc x (b'\r' ∷ b'\n' ∷ render xs) (render ys)))

abbrev pub with_cr : Bytes → Bytes
with_cr x = x ++ b'\r' ∷ []

abbrev newline : Bytes
newline = b'\n' ∷ []

-- The bytes of a line go to the last token.
tokens_loop-line :
    (x rest back : Bytes) (older : List Bytes)
    → OneLine x
    → tokens_loop newline (x ++ rest) back older ≡ tokens_loop newline rest (back ++ x) older
unfolding tokens_loop
tokens_loop-line [] rest back older h = rw (append-nil back) refl
tokens_loop-line (c ∷ x) rest back older h =
    let other : (b'\n' == c) ≡ false = (let n = h.0 in ground arith) in
    rw (tokens_loop, other)
      (tokens_loop-line x rest (back ++ c ∷ []) older h.1
        ∙ ap (λ b. tokens_loop newline rest b older) (append_assoc back (c ∷ []) x))

is_empty-with_cr : (x : Bytes) → is_empty (with_cr x) ≡ false
is_empty-with_cr [] = refl
is_empty-with_cr (c ∷ x) = refl

tokens_loop-render :
    (xs : List Bytes) (older : List Bytes)
    → All OneLine xs
    → tokens_loop newline (render xs) [] older ≡ [] ∷ (reverse (map with_cr xs) ++ older)
unfolding tokens_loop
tokens_loop-render [] older h = refl
tokens_loop-render (x ∷ xs) older h =
    let step : tokens_loop newline (b'\r' ∷ b'\n' ∷ render xs) x older
        ≡ tokens_loop newline (render xs) [] (with_cr x ∷ older) =
      rw (tokens_loop, tokens_loop, is_empty-with_cr x) refl in
    tokens_loop-line x (b'\r' ∷ b'\n' ∷ render xs) [] older h.0
    ∙ step
    ∙ tokens_loop-render xs (with_cr x ∷ older) h.1
    ∙ ap (λ l. [] ∷ l)
        (sym (
          rw (reverse-cons (with_cr x) (map with_cr xs))
            (append_assoc (reverse (map with_cr xs)) (with_cr x ∷ []) older)))

pop_empty-tokens :
    (older : List Bytes) → All (λ x. is_empty x ≡ false) older → pop_empty older ≡ older
unfolding pop_empty
pop_empty-tokens [] h = refl
pop_empty-tokens ([] ∷ older) h = cc
pop_empty-tokens ((c ∷ cs) ∷ older) h = refl

All-with_cr : (xs : List Bytes) → All (λ x. is_empty x ≡ false) (map with_cr xs)
All-with_cr [] = tt
All-with_cr (x ∷ xs) = (is_empty-with_cr x, All-with_cr xs)

-- The tokens of such a text are its lines, each with its `\r`.
pub tokenize-render :
    (xs : List Bytes) → All OneLine xs → tokenize (render xs) (b'\n' ∷ []) ≡ map with_cr xs
unfolding tokenize pop_empty
tokenize-render xs h =
    rw
      (
        tokens_loop-render xs [] h,
        append-nil (reverse (map with_cr xs)),
        pop_empty-tokens (reverse (map with_cr xs))
            (All-reverse _ (map with_cr xs) (All-with_cr xs)),
      )
      (reverse-reverse (map with_cr xs))
