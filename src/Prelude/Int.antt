-- ===== src/Prelude/Int.antt =====
-- Go's signed integers, where the program tests their sign.
use Prim.Native.Nat.{ℕ, suc}

-- `negsuc n` is -(n + 1).
pub data ℤ : Type 0 where
  pos : ℕ → ℤ
  negsuc : ℕ → ℤ

-- The `if x <= 0 { x = fallback }` of the constructors.
abbrev pub positive_or : ℤ → ℕ → ℕ
positive_or (pos (suc n)) fallback = suc n
positive_or _ fallback = fallback
