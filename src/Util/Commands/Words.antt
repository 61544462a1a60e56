-- ===== src/Util/Commands/Words.antt =====
-- The arguments that getArgs of src/Util/CMD.h finds are the words of the line.
use ffzkit.Base.{
  Bytes, ℕ, suc, ◌-◌, ◌≤◌, ◌≡◌, ◌≢◌, refl, ap, ◌∙◌, inl, inr, Bool, true, false, List, [], ◌∷◌, map,
  ◌==◌, if◌then◌else◌, drop, All, arith, Bool-cases,
}
use ffzkit.Util.Commands.{is_blank, c_str, args_loop, get_args, arg_at}

-- The bytes up to the first blank, and what follows them.
abbrev pub word : Bytes → Bytes
word [] = []
word (c ∷ cs) = if is_blank c then [] else c ∷ word cs

-- The words: the longest runs of bytes that are not blank. `inside` leaves out the word that the
-- text starts in.
abbrev pub words_from : Bool → Bytes → List Bytes
words_from inside [] = []
words_from inside (c ∷ cs) =
    if is_blank c
    then words_from false cs
    else if inside
    then words_from true cs
    else word (c ∷ cs) ∷ words_from true cs

abbrev pub words : Bytes → List Bytes
words cs = words_from false cs

All-suc : (i : ℕ) (ps : List ℕ) → All (λ p. suc i ≤ p) ps → All (λ p. i ≤ p) ps
All-suc i [] h = tt
All-suc i (p ∷ ps) h = (omega (arith, h.0), All-suc i ps h.1)

args_loop-later : (i : ℕ) (start : Bool) (cs : Bytes) → All (λ p. i ≤ p) (args_loop i start cs).1
unfolding args_loop
args_loop-later i start [] = tt
args_loop-later i start (c ∷ cs) = elim (Bool-cases (is_blank c)) [
  | inl b ↦ rw (args_loop, b) (All-suc i _ (args_loop-later (suc i) false cs))
  | inr b ↦
      let later = All-suc i _ (args_loop-later (suc i) true cs) in
      elim (Bool-cases start) [
        | inl s ↦ rw (args_loop, b, s) later
        | inr s ↦ rw (args_loop, b, s) (omega arith, later)
      ]
]

args_loop-word :
    (i : ℕ) (start : Bool) (cs : Bytes)
    → All (λ c. c ≢ 0) cs
    → c_str (args_loop i start cs).0 ≡ word cs
unfolding args_loop c_str
args_loop-word i start [] h = refl
args_loop-word i start (c ∷ cs) h = elim (Bool-cases (is_blank c)) [
  | inl b ↦ rw (args_loop, b) refl
  | inr b ↦
      let inside : (c == 0) ≡ false = (let n = h.0 in ground arith) in
      rw (args_loop, b, c_str, inside) (ap (λ w. c ∷ w) (args_loop-word (suc i) true cs h.1))
]

args_at-suc :
    (i : ℕ) (c : ℕ) (buf : Bytes) (ps : List ℕ)
    → All (λ p. suc i ≤ p) ps
    → map (λ p. arg_at (c ∷ buf) (p - i)) ps ≡ map (λ p. arg_at buf (p - suc i)) ps
unfolding arg_at
args_at-suc i c buf [] h = refl
args_at-suc i c buf (p ∷ ps) h =
    let e : p - i ≡ suc (p - suc i) = omega (arith, h.0) in
    rw e (ap (λ r. c_str (drop (p - suc i) buf) ∷ r) (args_at-suc i c buf ps h.1))

args_loop-words :
    (i : ℕ) (start : Bool) (cs : Bytes)
    → All (λ c. c ≢ 0) cs
    → let r = args_loop i start cs in map (λ p. arg_at r.0 (p - i)) r.1 ≡ words_from start cs
unfolding args_loop arg_at
args_loop-words i start [] h = refl
args_loop-words i start (c ∷ cs) h = elim (Bool-cases (is_blank c)) [
  | inl b ↦
      let r = args_loop (suc i) false cs in
      rw (args_loop, b)
        (args_at-suc i 0 r.0 r.1 (args_loop-later (suc i) false cs)
          ∙ args_loop-words (suc i) false cs h.1)
  | inr b ↦
      let r = args_loop (suc i) true cs in
      let later =
        args_at-suc i c r.0 r.1 (args_loop-later (suc i) true cs)
        ∙ args_loop-words (suc i) true cs h.1 in
      elim (Bool-cases start) [
        | inl s ↦ rw (args_loop, b, s) later
        | inr s ↦
            let start_is : i - i ≡ 0 = omega arith in
            let inside : (c == 0) ≡ false = (let n = h.0 in ground arith) in
            let first : c_str (c ∷ r.0) ≡ c ∷ word cs =
              rw (c_str, inside) (ap (λ w. c ∷ w) (args_loop-word (suc i) true cs h.1)) in
            rw (args_loop, b, s, start_is)
              (ap (λ w. w ∷ map (λ p. arg_at (c ∷ r.0) (p - i)) r.1) first
                ∙ ap (λ l. (c ∷ word cs) ∷ l) later)
      ]
]

c_str-clean : (line : Bytes) → All (λ c. c ≢ 0) (c_str line)
unfolding c_str
c_str-clean [] = tt
c_str-clean (c ∷ cs) = elim (Bool-cases (c == 0)) [
  | inl e ↦ rw e tt
  | inr e ↦ rw e ((ground arith), c_str-clean cs)
]

map-from_start : (f : ℕ → Bytes) (ps : List ℕ) → map f ps ≡ map (λ p. f (p - 0)) ps
map-from_start f [] = refl
map-from_start f (p ∷ ps) =
    let e : p - 0 ≡ p = omega arith in rw e (ap (λ r. f p ∷ r) (map-from_start f ps))

-- The arguments that getArgs finds point to the words of the line, in order and each ended by a 0:
-- the longest runs of bytes that are not blank, in front of the first 0 of the line.
pub get_args-words :
    (line : Bytes) → let (buf, argv) = get_args line in map (arg_at buf) argv ≡ words (c_str line)
unfolding get_args
get_args-words line =
    let (buf, argv) = args_loop 0 false (c_str line) in
    map-from_start (arg_at buf) argv ∙ args_loop-words 0 false (c_str line) (c_str-clean line)
