-- ===== src/Util/Commands/Tests.antt =====
-- The line ` ab  c` with a tabulator.
use ffzkit.Base.{Bytes, ℕ, ◌≡◌, refl, List, [], ◌∷◌, none, some}
use ffzkit.Util.Commands.{
  get_args, Register, regist_cmd, clear, ran, no_command, undefined, run_name, run_args, run_line,
}

abbrev line : Bytes
line = 32 ∷ 97 ∷ 98 ∷ 9 ∷ 32 ∷ 99 ∷ []

cut : get_args line ≡ (0 ∷ 97 ∷ 98 ∷ 0 ∷ 0 ∷ 99 ∷ [], 1 ∷ 5 ∷ [])
unfolding get_args
cut = refl

-- Commands are numbers, and the state holds those that ran, with their arguments.
abbrev exec : ℕ → List Bytes → List (ℕ × List Bytes) → List (ℕ × List Bytes)
exec c argv s = (c, argv) ∷ s

abbrev register : Register ℕ
register = regist_cmd (97 ∷ 98 ∷ []) (some 4) (clear [])

ran_line :
    (run_line exec register line [] ≡ ran ((4, (97 ∷ 98 ∷ []) ∷ (99 ∷ []) ∷ []) ∷ []))
    × (run_name exec (regist_cmd [] none []) [] [] [] ≡ no_command [])
    × (run_args exec (regist_cmd [] none []) ([] ∷ []) [] ≡ undefined)
unfolding run_line run_name regist_cmd clear
ran_line = (refl, refl, refl)
