-- ===== src/Util/Text/Split.antt =====
-- `split` of src/Util/util.cpp, and CMD::split of src/Util/CMD.h, which differs at the empty string.
use mathlib.Core.Option
use mathlib.Core.List.{append-nil, append_assoc}
use ffzkit.Base.{
  Bytes, ℕ, zero, suc, ◌+◌, ◌-◌, ◌≤◌, ◌<◌, ◌≡◌, ◌≢◌, refl, ap, sym, ◌∙◌, inl, inr, Bool, true,
  false, ◌&&◌, ◌||◌, List, [], ◌∷◌, ◌++◌, Option, none, some, ltb, ◌==◌, if◌then◌else◌, length,
  length-append, take, drop, arith, Option-cases,
}
use ffzkit.Util.Text.Find.{find, find_from, Occurs, find-Occurs, find_first}

-- `s.substr(pos)`, with `pos` in range, and `s.substr(pos, n)`.
abbrev pub substr_from : Bytes → ℕ → Bytes
substr_from s pos = drop pos s

abbrev pub substr : Bytes → ℕ → ℕ → Bytes
substr s pos n = take n (drop pos s)

-- Behind the loop: the test of `split` is `keep_empty`, that of CMD::split is not.
last_piece : Bool → Bytes → ℕ → List Bytes → List Bytes
last_piece keep_empty s last ret =
    if keep_empty && length s == 0 || ltb 0 (length s - last)
    then ret ++ substr_from s last ∷ []
    else ret

-- The `while` loop; `none` means that the fuel ran out.
unfoldable pub split_loop : Bool → ℕ → Bytes → Bytes → ℕ → List Bytes → Option (List Bytes)
unfolding last_piece
split_loop keep_empty zero s delim last ret = none
split_loop keep_empty (suc fuel) s delim last ret = elim (find_from s delim last) [
  | none ↦ some (last_piece keep_empty s last ret)
  | some index ↦
      split_loop keep_empty fuel s delim (index + length delim)
        (if ltb 0 (index - last) then ret ++ substr s last (index - last) ∷ [] else ret)
]

-- Each round but the last goes forward by at least one byte, so this fuel is enough.
unfoldable pub split : Bytes → Bytes → Option (List Bytes)
unfolding split_loop find_from
split s delim = split_loop true (length s + 1) s delim 0 []

unfoldable pub cmd_split : Bytes → Bytes → Option (List Bytes)
unfolding split_loop find_from
cmd_split s delim = split_loop false (length s + 1) s delim 0 []

-- The pieces of a string, read off from the left: up to the first delimiter, then behind it.
-- Empty pieces are left out.
pub data Pieces (delim : Bytes) : Bytes → List Bytes → Type 0 where
  none_left : Pieces delim [] []
  whole : {s : Bytes} → s ≢ [] → ((i : ℕ) → ¬ Occurs delim s i) → Pieces delim s (s ∷ [])
  skip :
      {s rest : Bytes} {ps : List Bytes}
      → s ≡ delim ++ rest
      → Pieces delim rest ps
      → Pieces delim s ps
  piece :
      {s p rest : Bytes} {ps : List Bytes}
      → p ≢ []
      → s ≡ p ++ (delim ++ rest)
      → ((i : ℕ) → Occurs delim s i → length p ≤ i)
      → Pieces delim rest ps
      → Pieces delim s (p ∷ ps)

pub drop-append {ℓ} : {A : Type ℓ} (xs ys : List A) → drop (length xs) (xs ++ ys) ≡ ys
drop-append [] ys = refl
drop-append (x ∷ xs) ys = drop-append xs ys

take-append {ℓ} : {A : Type ℓ} (xs ys : List A) → take (length xs) (xs ++ ys) ≡ xs
take-append [] ys = refl
take-append (x ∷ xs) ys = ap (◌∷◌ x) (take-append xs ys)

-- A piece that is kept if it is not empty.
abbrev opt_piece : Bytes → List Bytes
opt_piece [] = []
opt_piece (c ∷ cs) = (c ∷ cs) ∷ []

opt_piece_lem :
    (p : Bytes) (ret : List Bytes)
    → (if ltb 0 (length p) then ret ++ p ∷ [] else ret) ≡ ret ++ opt_piece p
opt_piece_lem [] ret = ground (arith, append-nil ret)
opt_piece_lem (c ∷ cs) ret = ground arith

length-pos {ℓ} : {A : Type ℓ} (xs : List A) → xs ≢ [] → 0 < length xs
length-pos [] ne = absurd (ne refl)
length-pos (x ∷ xs) ne = omega arith

module _ (delim : Bytes) (filled : 0 < length delim) where
  -- Where the loop stands: behind `before`, with `rest` to read.
  record At (s : Bytes) (last : ℕ) (rest : Bytes) : Type 0 where
    before : Bytes
    cut : s ≡ before ++ rest
    last_is : last ≡ length before

  module _ (s : Bytes) (last : ℕ) (rest : Bytes) (a : At s last rest) where
    drop-At : drop last s ≡ rest
    drop-At = rw (a.last_is, a.cut) (drop-append a.before rest)

    length-At : length s ≡ last + length rest
    length-At = ap length a.cut ∙ length-append a.before rest ∙ omega (arith, a.last_is)

    find_from-At : find_from s delim last ≡ Option.map (◌+◌ last) (find delim rest)
    unfolding find_from
    find_from-At = rw drop-At (ground (arith, length-At))

    next-At :
        (p rest' : Bytes)
        → rest ≡ p ++ (delim ++ rest')
        → At s (last + length p + length delim) rest'
    next-At p rest' e = record {
      before = a.before ++ (p ++ delim);
      cut = a.cut ∙ ap (◌++◌ a.before) e ∙ simp append_assoc;
      last_is =
          omega (arith, a.last_is, length-append a.before (p ++ delim), length-append p delim);
    }

    substr-At : (p rest' : Bytes) → rest ≡ p ++ (delim ++ rest') → substr s last (length p) ≡ p
    substr-At p rest' e = rw (drop-At, e) (take-append p (delim ++ rest'))

  Pieces-last : (rest : Bytes) → find delim rest ≡ none → Pieces delim rest (opt_piece rest)
  Pieces-last [] e = none_left
  Pieces-last (c ∷ cs) e = whole (λ q. cc) never
    where
      never : (i : ℕ) → ¬ Occurs delim (c ∷ cs) i
      never i (b, t, cut, l) =
          let (j, found, h) = find_first delim (c ∷ cs) b t cut in absurd (ground arith)

  Pieces-first :
      (rest p rest' : Bytes) (ps : List Bytes)
      → rest ≡ p ++ (delim ++ rest')
      → find delim rest ≡ some (length p)
      → Pieces delim rest' ps
      → Pieces delim rest (opt_piece p ++ ps)
  Pieces-first rest [] rest' ps e found r = skip e r
  Pieces-first rest (x ∷ p) rest' ps e found r = piece (λ q. cc) e first r
    where
      first : (i : ℕ) → Occurs delim rest i → length (x ∷ p) ≤ i
      first i (b, t, cut, l) = let (j, found', h) = find_first delim rest b t cut in ground arith

  -- What the loop appends to the result in one round.
  push-At :
      (s : Bytes) (last : ℕ) (rest : Bytes)
      → At s last rest
      → (p rest' : Bytes) (ret : List Bytes) → rest ≡ p ++ (delim ++ rest')
      → (if ltb 0 (last + length p - last)
          then ret ++ substr s last (last + length p - last) ∷ []
          else ret)
        ≡ ret ++ opt_piece p
  push-At s last rest a p rest' ret e =
      let n : last + length p - last ≡ length p = omega arith in
      rw (n, substr-At s last rest a p rest' e) (opt_piece_lem p ret)

  last_piece-At :
      (keep_empty : Bool) (s : Bytes) (last : ℕ) (rest : Bytes) (ret : List Bytes)
      → (keep_empty && length s == 0) ≡ false
      → At s last rest
      → last_piece keep_empty s last ret ≡ ret ++ opt_piece rest
  unfolding last_piece
  last_piece-At k s last rest ret z a =
      let n : length s - last ≡ length rest = omega (arith, length-At s last rest a) in
      rw (z, n, drop-At s last rest a) (opt_piece_lem rest ret)

  split_loop_lem :
      (keep_empty : Bool) (fuel : ℕ) (s : Bytes) (last : ℕ) (rest : Bytes) (ret : List Bytes)
      → (keep_empty && length s == 0) ≡ false
      → At s last rest
      → length rest < fuel
      → (ps : List Bytes) × (split_loop keep_empty fuel s delim last ret ≡ some (ret ++ ps))
        × Pieces delim rest ps
  unfolding split_loop
  split_loop_lem k zero s last rest ret z a h = elim h [ ]
  split_loop_lem k (suc f) s last rest ret z a h = elim (Option-cases (find delim rest)) [
    | inl e ↦ (
      opt_piece rest,
      rw (split_loop, find_from-At s last rest a, e)
          (ap some (last_piece-At k s last rest ret z a)),
      Pieces-last rest e,
    )
    | inr (i, e) ↦
        let (p, rest', cut, l) = find-Occurs delim rest e in
        let e' : find delim rest ≡ some (length p) = e ∙ ap some (sym l) in
        let (ps, run, pieces) =
          split_loop_lem k f s (last + length p + length delim) rest' (ret ++ opt_piece p) z
            (next-At s last rest a p rest' cut)
            (omega (
              arith,
              ap length cut,
              length-append p (delim ++ rest'),
              length-append delim rest',
            )) in
        (
          opt_piece p ++ ps,
          rw (split_loop, find_from-At s last rest a, e', push-At s last rest a p rest' ret cut)
              (run ∙ ap some (append_assoc ret (opt_piece p) ps)),
          Pieces-first rest p rest' ps cut e' pieces,
        )
  ]

  -- For a delimiter that is not empty, `split` ends and returns the pieces of any string but the
  -- empty one, for which it returns one empty piece.
  pub split-Pieces :
      (s : Bytes) → s ≢ [] → (ps : List Bytes) × (split s delim ≡ some ps) × Pieces delim s ps
  unfolding split
  split-Pieces s ne =
      split_loop_lem true (length s + 1) s 0 s [] (ground (arith, length-pos s ne))
        (record { before = []; cut = refl; last_is = refl }) (omega arith)

  -- CMD::split returns the pieces of every string.
  pub cmd_split-Pieces :
      (s : Bytes) → (ps : List Bytes) × (cmd_split s delim ≡ some ps) × Pieces delim s ps
  unfolding cmd_split
  cmd_split-Pieces s =
      split_loop_lem false (length s + 1) s 0 s [] refl
        (record { before = []; cut = refl; last_is = refl }) (omega arith)

find_from_empty : (s : Bytes) → find_from s [] 0 ≡ some 0
unfolding find_from
find_from_empty [] = refl
find_from_empty (c ∷ cs) = ground arith

-- For an empty delimiter the loop makes no way and never ends: no number of rounds is enough.
pub split_loop_stuck :
    (keep_empty : Bool) (fuel : ℕ) (s : Bytes) (ret : List Bytes)
    → split_loop keep_empty fuel s [] 0 ret ≡ none
unfolding split_loop
split_loop_stuck k zero s ret = refl
split_loop_stuck k (suc f) s ret = rw (split_loop, find_from_empty s) (split_loop_stuck k f s ret)
