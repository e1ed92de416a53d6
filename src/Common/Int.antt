-- ===== src/Common/Int.antt =====
-- C's `int`, as far as the program compares it: results, error codes and descriptors.
use Prim.Native.Nat.{ℕ, zero, suc}
use mathlib.Core.Bool.{Bool, true, false}
use moonlight_tailscale_vita.Common.Tests.{◌==◌}

-- `negsuc n` is -(n + 1).
pub data ℤ : Type 0 where
  pos : ℕ → ℤ
  negsuc : ℕ → ℤ

-- `neg n` is -n.
abbrev pub neg : ℕ → ℤ
neg n = elim n [ zero ↦ pos 0 | suc k ↦ negsuc k ]

abbrev pub is_neg : ℤ → Bool
is_neg (pos n) = false
is_neg (negsuc n) = true

-- `x > 0`
abbrev pub is_pos : ℤ → Bool
is_pos (pos n) = elim n [ zero ↦ false | suc k ↦ true ]
is_pos (negsuc n) = false

-- `x == n` for a value that is not negative
abbrev pub int_is : ℤ → ℕ → Bool
int_is (pos m) n = m == n
int_is (negsuc m) n = false

-- The bits of a value that is known not to be negative.
abbrev pub to_nat : ℤ → ℕ
to_nat (pos n) = n
to_nat (negsuc n) = 0
