-- ===== src/Base/Int.antt =====
-- The integers over the native numbers, and Go's conversion of an `int` to a `uint32`.
use Prim.Native.Nat.{ℕ, ◌-◌, ◌%◌}
use mathlib.Core.Bool.{Bool, true, false}
use go_safe_cmd_runner.Base.Tests.{ltb, ◌==◌}

-- `negsuc n` is -1 - n.
pub data ℤ : Type 0 where
  pos negsuc : ℕ → ℤ

abbrev pub max_uint32 : ℕ
max_uint32 = 4294967295

unfoldable pub exceeds_uint32 : ℤ → Bool
exceeds_uint32 (pos n) = ltb max_uint32 n
exceeds_uint32 (negsuc n) = true

unfoldable pub to_uint32 : ℤ → ℕ
to_uint32 (pos n) = n % 4294967296
to_uint32 (negsuc n) = 4294967295 - n % 4294967296

unfoldable pub int_eq : ℤ → ℤ → Bool
int_eq (pos m) (pos n) = m == n
int_eq (negsuc m) (negsuc n) = m == n
int_eq _ _ = false
