-- ===== src/Base/Signed.antt =====
-- Go's signed integers, as far as calendar rules use them.
use Prim.Native.Nat.{ℕ, zero, suc, ◌+◌, ◌-◌}
use mathlib.Core.Bool.{Bool, true, false}
use mathlib.Core.Option.{Option, none, some}
use stattii.Base.Tests.{if◌then◌else◌, ltb}

-- `negsuc n` is -(n + 1).
pub data ℤ : Type 0 where
  pos : ℕ → ℤ
  negsuc : ℕ → ℤ

abbrev pub is_negative : ℤ → Bool
is_negative (pos n) = false
is_negative (negsuc n) = true

-- Any number but 0.
abbrev pub is_nonzero : ℤ → Bool
is_nonzero (pos n) = ltb 0 n
is_nonzero (negsuc n) = true

-- -n
abbrev pub negated : ℕ → ℤ
negated zero = pos 0
negated (suc n) = negsuc n

-- The n-th of `size` things from 1, or from the end where n is negative: its index, if there is one.
unfoldable pub nth_index : ℕ → ℤ → Option ℕ
nth_index size (pos zero) = none
nth_index size (pos (suc n)) = if ltb n size then some n else none
nth_index size (negsuc n) = if ltb n size then some (size - (n + 1)) else none
