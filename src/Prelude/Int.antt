-- ===== src/Prelude/Int.antt =====
-- The integers that the wire formats carry (`int32` of the protos), over the native numbers.
use Prim.Native.Nat.{ℕ}

-- `negsuc n` is -(n + 1).
pub data ℤ : Type 0 where
  pos : ℕ → ℤ
  negsuc : ℕ → ℤ

-- The natural number of an integer that is not negative, 0 for the others: `Math.max(0, a)`.
abbrev pub to_nat : ℤ → ℕ
to_nat (pos n) = n
to_nat (negsuc _) = 0
