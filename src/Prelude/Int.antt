-- ===== src/Prelude/Int.antt =====
-- Go's `int` where the code tests for a negative value: an integer over the native numbers.
-- Machine wrap-around is not modelled here; Scatter/Jobs writes out that of a product of lengths.
use Prim.Native.Nat.{ℕ}

-- `negsuc n` is -(n + 1).
pub data ℤ : Type 0 where
  pos : ℕ → ℤ
  negsuc : ℕ → ℤ

abbrev pub pos_part : ℤ → ℕ
pos_part (pos n) = n
pos_part (negsuc n) = 0
