-- ===== src/Prelude/Int.antt =====
-- Go's `int` where a value can be negative.
use Prim.Native.Nat.{ℕ, zero, suc}
use mathlib.Core.Bool.{Bool, true, false}
use building_block_runner.Prelude.Tests.{ltb, leb}

-- `negsuc n` is -(n + 1).
pub data ℤ : Type 0 where
  pos : ℕ → ℤ
  negsuc : ℕ → ℤ

infix 50 ◌<ℤ◌ ◌≤ℤ◌
abbrev pub ◌<ℤ◌ : ℤ → ℤ → Bool
pos a <ℤ pos b = ltb a b
pos a <ℤ negsuc b = false
negsuc a <ℤ pos b = true
negsuc a <ℤ negsuc b = ltb b a

abbrev pub ◌≤ℤ◌ : ℤ → ℤ → Bool
pos a ≤ℤ pos b = leb a b
pos a ≤ℤ negsuc b = false
negsuc a ≤ℤ pos b = true
negsuc a ≤ℤ negsuc b = leb b a

-- `i + 1`
abbrev pub inc : ℤ → ℤ
inc (pos n) = pos (suc n)
inc (negsuc zero) = pos 0
inc (negsuc (suc n)) = negsuc n
