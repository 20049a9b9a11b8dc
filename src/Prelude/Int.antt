-- ===== src/Prelude/Int.antt =====
-- Go's int, as an integer: the program's ints are far from their bounds where nothing else is said.
use Prim.Native.Nat.{ℕ}

-- `negsuc n` is -(n + 1).
pub data ℤ : Type 0 where
  pos : ℕ → ℤ
  negsuc : ℕ → ℤ
