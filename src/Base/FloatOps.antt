-- ===== src/Base/FloatOps.antt =====
-- The machine's floating point numbers, which the development does not define: a type with the
-- operations and tests that the code uses. `lit n d` is the constant n / d as the compiler rounds it.
use Prim.Native.Nat.{ℕ}
use mathlib.Core.Bool.{Bool}

pub record Floats : Type 1 where
  pub F : Type 0
  pub lit : ℕ → ℕ → F
  pub add : F → F → F
  pub sub : F → F → F
  pub mul : F → F → F
  pub div : F → F → F
  pub neg : F → F
  pub lt : F → F → Bool
  pub le : F → F → Bool
