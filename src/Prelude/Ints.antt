-- ===== src/Prelude/Ints.antt =====
-- Python's `int` where it may be negative, and the slices `xs[:n]`.
use Prim.Native.Nat.{ℕ, suc, ◌-◌}
use mathlib.Core.List.{List}
use linblock.Prelude.Tests.{leb, if◌then◌else◌}
use linblock.Prelude.Lists.{length, take}

-- `negsuc n` is -(n + 1).
pub data ℤ : Type 0 where
  pos : ℕ → ℤ
  negsuc : ℕ → ℤ

-- a - b, as an integer.
abbrev pub sub_ℕ : ℕ → ℕ → ℤ
sub_ℕ a b = if leb b a then pos (a - b) else negsuc (b - a - 1)

-- xs[:n]: a negative bound counts from the end.
abbrev pub slice_to {ℓ} : {A : Type ℓ} → List A → ℤ → List A
slice_to xs (pos n) = take n xs
slice_to xs (negsuc n) = take (length xs - suc n) xs
