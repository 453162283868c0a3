-- ===== src/Tests/Amounts.antt =====
-- A host number type for the tests: hundredths, rounded down.
use webrana_cloud.Base.{ℤ, pos, negsuc, pos_part, ◌-ℤ◌, neg, ltb_ℤ, max_ℤ, Number, ℕ, ◌+◌, ◌*◌, ◌/◌}

abbrev pub scaled : (ℕ → ℕ) → ℤ → ℤ
scaled f (pos m) = pos (f m)
scaled f (negsuc m) = neg (pos (f (m + 1)))

abbrev pub hundredths : Number
hundredths = record {
  Num = ℤ;
  of_ℤ = scaled (λ m. m * 100);
  ltb_num = ltb_ℤ;
  sub = ◌-ℤ◌;
  mul = λ a b. scaled (λ m. m * pos_part b / 100) a;
  div = λ a b. scaled (λ m. m * 100 / pos_part b) a;
  max_num = max_ℤ;
  round = scaled (λ m. (m + 50) / 100);
  floor = scaled (λ m. m / 100);
  ceil = scaled (λ m. (m + 99) / 100);
}
