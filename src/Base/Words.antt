-- ===== src/Base/Words.antt =====
-- uint64_t arithmetic, with its wrap-around.
use Prim.Native.Nat.{ℕ, ◌+◌, ◌-◌, ◌*◌, ◌%◌, ◌^◌, ◌≤◌, ◌<◌}
use mathlib.Core.Path.{◌≡◌}
use native.Mathlib.Omega.{arith}

abbrev pub u64_mod : ℕ
u64_mod = 2 ^ 64

unfoldable pub add64 : ℕ → ℕ → ℕ
add64 a b = (a + b) % u64_mod

unfoldable pub sub64 : ℕ → ℕ → ℕ
sub64 a b = (a + u64_mod - b) % u64_mod

unfoldable pub mul64 : ℕ → ℕ → ℕ
mul64 a b = (a * b) % u64_mod

pub add64-lt : (a b : ℕ) → a + b < u64_mod → add64 a b ≡ a + b
unfolding add64
add64-lt a b h = omega arith

pub sub64-le : (a b : ℕ) → b ≤ a → a < u64_mod → sub64 a b ≡ a - b
unfolding sub64
sub64-le a b h k = omega arith

pub mul64-lt : (a b : ℕ) → a * b < u64_mod → mul64 a b ≡ a * b
unfolding mul64
mul64-lt a b h = omega arith

pub add64-add64_right : (a b c : ℕ) → a + b + c < u64_mod → add64 a (add64 b c) ≡ a + b + c
unfolding add64
add64-add64_right a b c h = omega arith

pub add64-add64_left : (a b c : ℕ) → a + b + c < u64_mod → add64 (add64 a b) c ≡ a + b + c
unfolding add64
add64-add64_left a b c h = omega arith

pub mul64-le : (a b : ℕ) → mul64 a b ≤ a * b
unfolding mul64
mul64-le a b = omega arith
