-- ===== src/Base/Amounts.antt =====
-- The host's `number` where the program computes with fractions: percentages, divided prices. It
-- is IEEE 754 arithmetic, which no source of the repository defines, so it is a parameter.
use webrana_cloud.Base.Int.{ℤ}
use mathlib.Core.Bool.{Bool}

pub record Number : Type 1 where
  pub Num : Type 0
  pub of_ℤ : ℤ → Num
  pub ltb_num : Num → Num → Bool
  pub sub : Num → Num → Num
  pub mul : Num → Num → Num
  pub div : Num → Num → Num
  pub max_num : Num → Num → Num
  pub round : Num → ℤ
  pub floor : Num → ℤ
  pub ceil : Num → ℤ
