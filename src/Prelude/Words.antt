-- ===== src/Prelude/Words.antt =====
-- C integers of 64 bits, as bit patterns: `ctypes.c_int64` wraps around and is read as signed.
use subnet_llm_template.Prelude.Tests.{ltb, if◌then◌else◌}
use subnet_llm_template.Prelude.Int.{ℤ, pos, sub_ℕ}
use Prim.Native.Nat.{ℕ, ◌+◌, ◌-◌, ◌%◌, ◌<◌}
use mathlib.Core.Path.{◌≡◌}
use native.Mathlib.Omega.{arith}

abbrev pub i64_mod : ℕ
i64_mod = 18446744073709551616

abbrev pub i64_max : ℕ
i64_max = 9223372036854775807

abbrev pub add64 : ℕ → ℕ → ℕ
add64 a b = (a + b) % i64_mod

abbrev pub sub64 : ℕ → ℕ → ℕ
sub64 a b = (a + i64_mod - b % i64_mod) % i64_mod

-- The number that a pattern stands for.
abbrev pub signed : ℕ → ℤ
signed a = if ltb i64_max a then sub_ℕ a i64_mod else pos a

pub sub64-add64 : (a b : ℕ) → a < i64_mod → sub64 (add64 a b) b ≡ a
sub64-add64 a b h = omega arith
