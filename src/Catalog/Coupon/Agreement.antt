-- ===== src/Catalog/Coupon/Agreement.antt =====
-- The two validations of a coupon agree.
use webrana_cloud.Base.{
  Result, ok, err, find, Number, Code, to_upper_case, ℕ, ◌≡◌, refl, Option, none, some, arith,
}
use webrana_cloud.Catalog.Coupon.{
  CouponError, coupon_not_found, coupon_expired, coupon_not_started, coupon_inactive,
  coupon_limit_global_reached, coupon_limit_per_user_reached, coupon_plan_not_allowed,
  coupon_user_not_allowed, coupon_min_amount_not_met, FailReason, not_found, expired, before_start,
  inactive, limit_global_reached, limit_per_user_reached, plan_not_allowed, user_not_allowed,
  min_amount_not_met, Coupon, Tables, Validation, valid, invalid, Accepted, has_code,
  validate_found, validate_row, validate_coupon, check_found, check_row, validate_and_throw,
}

abbrev pub reason_of : CouponError → FailReason
reason_of coupon_not_found = not_found
reason_of coupon_expired = expired
reason_of coupon_not_started = before_start
reason_of coupon_inactive = inactive
reason_of coupon_limit_global_reached = limit_global_reached
reason_of coupon_limit_per_user_reached = limit_per_user_reached
reason_of coupon_plan_not_allowed = plan_not_allowed
reason_of coupon_user_not_allowed = user_not_allowed
reason_of coupon_min_amount_not_met = min_amount_not_met

module _ (n : Number) where
  -- What both report: the discount and the price, or the reason.
  abbrev pub verdict : Validation n → Result FailReason (n.Num × n.Num × ℕ)
  verdict (valid d f c) = ok (d, f, c.id)
  verdict (invalid r) = err r

  abbrev pub outcome : Result CouponError (Accepted n) → Result FailReason (n.Num × n.Num × ℕ)
  outcome (ok a) = ok (a.discount_amount, a.final_price, a.accepted_id)
  outcome (err e) = err (reason_of e)

  outcome-check_found :
      (now : ℕ) (p u : Option ℕ) (x : n.Num) (s : Tables n) (c : Coupon n)
      → outcome (check_found n now p u x s c) ≡ verdict (validate_found n now p u x s c)
  unfolding check_found validate_found
  outcome-check_found now p u x s c = ground arith

  outcome-check_row :
      (now : ℕ) (p u : Option ℕ) (x : n.Num) (s : Tables n) (o : Option (Coupon n))
      → outcome (check_row n now p u x s o) ≡ verdict (validate_row n now p u x s o)
  outcome-check_row now p u x s none = refl
  outcome-check_row now p u x s (some c) = outcome-check_found now p u x s c

  -- For every request and every state of the tables, `validateAndThrow` throws the exception of the
  -- reason that `validateCoupon` reports, or both give the same discount, final price and coupon.
  pub outcome-validate_and_throw :
      (now : ℕ) (code : Code) (plan_id user_id : Option ℕ) (amount : n.Num) (s : Tables n)
      → outcome (validate_and_throw n now code plan_id user_id amount s)
        ≡ verdict (validate_coupon n now code plan_id user_id amount s)
  unfolding validate_and_throw validate_coupon
  outcome-validate_and_throw now code plan_id user_id amount s =
      outcome-check_row now plan_id user_id amount s
        (find (has_code n (to_upper_case code)) s.coupons)
