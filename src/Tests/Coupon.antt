-- ===== src/Tests/Coupon.antt =====
-- The coupon service at concrete coupons, with hundredths for the host's numbers.
use webrana_cloud.Base.{
  pos, ◌-ℤ◌, ok, length, Code, ◌≡◌, refl, true, false, none, some, List, [], ◌∷◌,
}
use webrana_cloud.Catalog.Coupon.{
  percent, plan_not_allowed, Coupon, Tables, invalid, validate_found, validate_coupon, check_found,
  validate_and_throw, redeem_coupon,
}
use webrana_cloud.Catalog.Coupon.Admin.{
  create_coupon, delete_coupon, add_coupon_plan, add_coupon_user, remove_coupon_plan,
}
use webrana_cloud.Catalog.Coupon.Admin.Unique.{
  codes_valid, CouponCall, create, delete, add_plan, remove_plan, add_user, redeem, coupon_calls,
  AreValid, coupon_calls-AreValid,
}
use webrana_cloud.Catalog.Coupon.Agreement.{verdict, outcome, outcome-validate_and_throw}
use webrana_cloud.Catalog.Coupon.Limits.{within, Request, redeem_all, redeem_all-within}
use webrana_cloud.Tests.Amounts.{hundredths}

abbrev hemat : Coupon hundredths
hemat = record {
  id = 7;
  code = b'H' ∷ b'I' ∷ [];
  name = 1;
  discount_type = percent;
  discount_value = pos 1000;
  min_order_amount = some (pos 100000);
  max_discount_amount = some (pos 500000);
  max_total_redemptions = some (pos 2);
  max_redemptions_per_user = some (pos 1);
  start_at = 10;
  end_at = 20;
  is_active = true;
  coupon_plans = 4 ∷ [];
  coupon_users = [];
}

abbrev tables : Tables hundredths
tables = record { coupons = hemat ∷ []; redemptions = [] }

abbrev hi : Code
hi = b'h' ∷ b'i' ∷ []

-- Ten percent of 1,234.00, below the maximum discount.
accepted :
    outcome hundredths (validate_and_throw hundredths 15 hi none (some 3) (pos 123400) tables)
    ≡ ok (pos 12300, pos 111100, 7)
unfolding validate_and_throw check_found ◌-ℤ◌
accepted = refl

refused_plan :
    validate_coupon hundredths 15 hi (some 5) (some 3) (pos 123400) tables
    ≡ invalid plan_not_allowed
unfolding validate_coupon validate_found
refused_plan = refl

abbrev requests : List (Request hundredths)
requests =
    record { now = 16; new = 2; code = hi; user = 3; order = 12; amount = pos 200000 }
    ∷ record { now = 15; new = 1; code = hi; user = 3; order = 11; amount = pos 200000 }
    ∷ []

-- The second redemption by the user is refused.
redeemed_once : length (redeem_all hundredths requests tables).redemptions ≡ 1
unfolding redeem_all redeem_coupon validate_and_throw check_found
redeemed_once = refl

outcome-validate_and_throw_example :
    outcome hundredths (validate_and_throw hundredths 15 hi (some 5) (some 3) (pos 123400) tables)
    ≡ verdict hundredths (validate_coupon hundredths 15 hi (some 5) (some 3) (pos 123400) tables)
outcome-validate_and_throw_example =
    outcome-validate_and_throw hundredths 15 hi (some 5) (some 3) (pos 123400) tables

tables-within : within hundredths 3 7 tables ≡ true
unfolding within
tables-within = refl

redeem_all-within_example : within hundredths 3 7 (redeem_all hundredths requests tables) ≡ true
redeem_all-within_example = redeem_all-within hundredths 3 7 requests tables refl tables-within

abbrev administration : List (CouponCall hundredths)
administration =
    create true (record hemat { id = 8; code = b'n' ∷ [] })
    ∷ create true (record hemat { id = 9; code = hi })
    ∷ add_plan true 8 5
    ∷ remove_plan true 7 4
    ∷ add_user false 8 3
    ∷ redeem 15 1 hi 3 11 (pos 200000)
    ∷ delete true 7
    ∷ []

-- The second creation is refused, as its code is in use.
one_left : length (coupon_calls hundredths administration tables).coupons ≡ 1
unfolding create_coupon add_coupon_plan remove_coupon_plan add_coupon_user redeem_coupon
    validate_and_throw check_found delete_coupon
one_left = refl

tables-AreValid : AreValid hundredths tables
unfolding codes_valid
tables-AreValid = refl

coupon_calls-AreValid_example : AreValid hundredths (coupon_calls hundredths administration tables)
coupon_calls-AreValid_example =
    coupon_calls-AreValid hundredths administration tables tables-AreValid
