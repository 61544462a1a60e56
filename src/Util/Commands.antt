-- ===== src/Util/Commands.antt =====
-- CMDRegister of src/Util/CMD.h: the register of commands, and how a line is cut into arguments. A
-- line is a list of bytes, without the 0 that ends it.
mod Tests
pub mod Words
pub mod Lines
use ffzkit.Base.{
  Bytes, same_bytes, ℕ, suc, Bool, true, false, not, ◌||◌, ◌&&◌, map, List, [], ◌∷◌, ◌++◌, Option,
  none, some, ◌==◌, if◌then◌else◌, drop,
}

abbrev pub is_blank : ℕ → Bool
is_blank c = c == 32 || c == 9 || c == 13 || c == 10

-- A text in memory ends before its first 0.
pub c_str : Bytes → Bytes
c_str [] = []
c_str (c ∷ cs) = let rest = c_str cs in if c == 0 then [] else c ∷ rest

-- The loop of getArgs from position `i` on: the bytes that it leaves, and the positions at which
-- the arguments start.
pub args_loop : ℕ → Bool → Bytes → Bytes × List ℕ
args_loop i start [] = ([], [])
args_loop i start (c ∷ cs) =
    let word = args_loop (suc i) true cs in
    let blank = args_loop (suc i) false cs in
    if is_blank c
    then (0 ∷ blank.0, blank.1)
    else (c ∷ word.0, if start then word.1 else i ∷ word.1)

-- getArgs, which works on the part of the line before its first 0.
pub get_args : Bytes → Bytes × List ℕ
unfolding args_loop c_str
get_args line = args_loop 0 false (c_str line)

-- The text that an argument points to.
pub arg_at : Bytes → ℕ → Bytes
unfolding c_str
arg_at buf p = c_str (drop p buf)

-- `_cmd_map`; a command is a shared pointer, which is `none` if it is null.
abbrev pub Register {ℓ} : Type ℓ → Type ℓ
Register C = List (Bytes × Option C)

-- How the call of a register ends: it did what there was to do, it threw std::invalid_argument, or
-- it called through a null pointer.
pub data Ran {κ} (S : Type κ) : Type κ where
  ran : S → Ran S
  no_command : S → Ran S
  undefined : Ran S

module _ {ℓ} {C : Type ℓ} where
  pub find_cmd : Bytes → Register C → Option (Option C)
  unfolding same_bytes
  find_cmd name [] = none
  find_cmd name ((n, c) ∷ m) =
      let rest = find_cmd name m in if same_bytes n name then some c else rest

  -- registCMD, where `emplace` keeps a command that is there; unregistCMD; and clear.
  pub regist_cmd : Bytes → Option C → Register C → Register C
  unfolding find_cmd
  regist_cmd name c m = elim (find_cmd name m) [ none ↦ (name, c) ∷ m | some c' ↦ m ]

  pub unregist_cmd : Bytes → Register C → Register C
  unregist_cmd name [] = []
  unregist_cmd name ((n, c) ∷ m) =
      let rest = unregist_cmd name m in if same_bytes n name then m else (n, c) ∷ rest

  pub clear : Register C → Register C
  clear m = []

  module _ {κ} {S : Type κ} (exec : C → List Bytes → S → S) where
    -- operator() with a name and the arguments.
    pub run_name : Register C → Bytes → List Bytes → S → Ran S
    unfolding find_cmd
    run_name m name argv s = elim (find_cmd name m) [
      | none ↦ no_command s
      | some none ↦ no_command s
      | some (some c) ↦ ran (exec c argv s)
    ]

    -- operator() with a line, from the arguments on.
    pub run_args : Register C → List Bytes → S → Ran S
    unfolding find_cmd
    run_args m [] s = ran s
    run_args m (name ∷ rest) s = elim (find_cmd name m) [
      | none ↦ no_command s
      | some none ↦ undefined
      | some (some c) ↦ ran (exec c (name ∷ rest) s)
    ]

    pub run_line : Register C → Bytes → S → Ran S
    unfolding run_args get_args arg_at
    run_line m [] s = ran s
    run_line m (c ∷ cs) s =
        let (buf, argv) = get_args (c ∷ cs) in run_args m (map (arg_at buf) argv) s
