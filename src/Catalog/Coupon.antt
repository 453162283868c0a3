-- ===== src/Catalog/Coupon.antt =====
-- The coupon service (apps/catalog-service/src/modules/coupon/coupon.service.ts) over two tables:
-- the coupons, each with the plans and users of its mapping tables, and the redemptions. Amounts
-- are of the host's number type; ids and names are numbers; a created row's id is an argument.
pub mod Admin
pub mod Agreement
pub mod Limits
use webrana_cloud.Base.{
  ltb, ◌==◌, if◌then◌else◌, ℤ, pos, leb_ℤ, Result, ok, err, Action, length, find, filter_where,
  some_where, Number, Code, to_upper_case, ◌=c=◌, ℕ, Bool, false, not, ◌&&◌, Option, none, some,
  List, ◌∷◌,
}

pub data DiscountType : Type 0 where
  percent fixed : DiscountType

pub data CouponError : Type 0 where
  coupon_not_found coupon_expired coupon_not_started coupon_inactive : CouponError
  coupon_limit_global_reached coupon_limit_per_user_reached coupon_plan_not_allowed : CouponError
  coupon_user_not_allowed coupon_min_amount_not_met : CouponError

-- `CouponValidationFailReason`.
pub data FailReason : Type 0 where
  not_found expired before_start inactive limit_global_reached limit_per_user_reached : FailReason
  plan_not_allowed user_not_allowed min_amount_not_met : FailReason

module _ (n : Number) where
  pub record Redemption : Type 0 where
    pub redemption_id : ℕ
    pub coupon_id : ℕ
    pub user_id : ℕ
    pub order_id : ℕ
    pub amount : n.Num

  pub record Coupon : Type 0 where
    pub id : ℕ
    pub code : Code
    pub name : ℕ
    pub discount_type : DiscountType
    pub discount_value : n.Num
    pub min_order_amount : Option n.Num
    pub max_discount_amount : Option n.Num
    pub max_total_redemptions : Option ℤ
    pub max_redemptions_per_user : Option ℤ
    pub start_at : ℕ
    pub end_at : ℕ
    pub is_active : Bool
    pub coupon_plans : List ℕ
    pub coupon_users : List ℕ

  pub record Tables : Type 0 where
    pub coupons : List Coupon
    pub redemptions : List Redemption

  -- `CouponValidationResult`.
  pub data Validation : Type 0 where
    valid : (discount_amount final_price : n.Num) → Coupon → Validation
    invalid : FailReason → Validation

  pub record Accepted : Type 0 where
    pub discount_amount : n.Num
    pub final_price : n.Num
    pub accepted_id : ℕ

  abbrev pub has_id : ℕ → Coupon → Bool
  has_id i c = c.id == i

  abbrev pub has_code : Code → Coupon → Bool
  has_code q c = c.code =c= q

  abbrev pub of_coupon : ℕ → Redemption → Bool
  of_coupon i r = r.coupon_id == i

  -- The redemptions that `include` loads, and those of one user among them.
  abbrev pub redemptions_of : ℕ → Tables → List Redemption
  redemptions_of i s = filter_where (of_coupon i) s.redemptions

  abbrev pub by_user : ℕ → Redemption → Bool
  by_user u r = r.user_id == u

  -- `max !== null && count >= max`.
  abbrev pub reached : Option ℤ → ℕ → Bool
  reached none k = false
  reached (some limit) k = leb_ℤ limit (pos k)

  abbrev pub user_reached : Option ℕ → Option ℤ → List Redemption → Bool
  user_reached none limit rs = false
  user_reached (some u) limit rs = reached limit (length (filter_where (by_user u) rs))

  -- `list.length > 0 && wanted && !list.some(…)`.
  abbrev pub refused : List ℕ → Option ℕ → Bool
  refused allowed none = false
  refused allowed (some x) = ltb 0 (length allowed) && not (some_where (λ y. y == x) allowed)

  abbrev pub below : n.Num → Option n.Num → Bool
  below amount none = false
  below amount (some least) = n.ltb_num amount least

  abbrev pub calculate_discount : n.Num → DiscountType → n.Num → n.Num
  calculate_discount amount percent value =
      n.of_ℤ (n.round (n.mul amount (n.div value (n.of_ℤ (pos 100)))))
  calculate_discount amount fixed value = value

  -- `max !== null && discount > max` replaces the discount by the maximum.
  abbrev pub capped : Option n.Num → n.Num → n.Num
  capped none d = d
  capped (some most) d = if n.ltb_num most d then most else d

  abbrev pub discount_of : n.Num → Coupon → n.Num
  discount_of amount c =
      capped c.max_discount_amount (calculate_discount amount c.discount_type c.discount_value)

  abbrev pub final_of : n.Num → n.Num → n.Num
  final_of amount discount = n.max_num (n.of_ℤ (pos 0)) (n.sub amount discount)

  unfoldable pub validate_found : ℕ → Option ℕ → Option ℕ → n.Num → Tables → Coupon → Validation
  validate_found now plan_id user_id amount s c =
      if not c.is_active
      then invalid inactive
      else if ltb now c.start_at
      then invalid before_start
      else if ltb c.end_at now
      then invalid expired
      else if reached c.max_total_redemptions (length (redemptions_of c.id s))
      then invalid limit_global_reached
      else if user_reached user_id c.max_redemptions_per_user (redemptions_of c.id s)
      then invalid limit_per_user_reached
      else if refused c.coupon_plans plan_id
      then invalid plan_not_allowed
      else if refused c.coupon_users user_id
      then invalid user_not_allowed
      else if below amount c.min_order_amount
      then invalid min_amount_not_met
      else valid (discount_of amount c) (final_of amount (discount_of amount c)) c

  abbrev pub validate_row : ℕ → Option ℕ → Option ℕ → n.Num → Tables → Option Coupon → Validation
  validate_row now plan_id user_id amount s none = invalid not_found
  validate_row now plan_id user_id amount s (some c) = validate_found now plan_id user_id amount s c

  unfoldable pub validate_coupon : ℕ → Code → Option ℕ → Option ℕ → n.Num → Tables → Validation
  validate_coupon now code plan_id user_id amount s =
      validate_row now plan_id user_id amount s (find (has_code (to_upper_case code)) s.coupons)

  unfoldable pub check_found :
      ℕ → Option ℕ → Option ℕ → n.Num → Tables → Coupon → Result CouponError Accepted
  check_found now plan_id user_id amount s c =
      if not c.is_active
      then err coupon_inactive
      else if ltb now c.start_at
      then err coupon_not_started
      else if ltb c.end_at now
      then err coupon_expired
      else if reached c.max_total_redemptions (length (redemptions_of c.id s))
      then err coupon_limit_global_reached
      else if user_reached user_id c.max_redemptions_per_user (redemptions_of c.id s)
      then err coupon_limit_per_user_reached
      else if refused c.coupon_plans plan_id
      then err coupon_plan_not_allowed
      else if refused c.coupon_users user_id
      then err coupon_user_not_allowed
      else if below amount c.min_order_amount
      then err coupon_min_amount_not_met
      else ok record {
        discount_amount = discount_of amount c;
        final_price = final_of amount (discount_of amount c);
        accepted_id = c.id;
      }

  abbrev pub check_row :
      ℕ → Option ℕ → Option ℕ → n.Num → Tables → Option Coupon → Result CouponError Accepted
  check_row now plan_id user_id amount s none = err coupon_not_found
  check_row now plan_id user_id amount s (some c) = check_found now plan_id user_id amount s c

  unfoldable pub validate_and_throw :
      ℕ → Code → Option ℕ → Option ℕ → n.Num → Tables → Result CouponError Accepted
  validate_and_throw now code plan_id user_id amount s =
      check_row now plan_id user_id amount s (find (has_code (to_upper_case code)) s.coupons)

  -- `couponRedemption.create`, for an accepted coupon.
  abbrev pub create_redemption :
      ℕ → ℕ → ℕ → Result CouponError Accepted → Action Tables CouponError (ℕ × n.Num)
  create_redemption new user order (err e) s = (err e, s)
  create_redemption new user order (ok a) s = (
    ok (new, a.discount_amount),
    record s {
      redemptions =
          record {
            redemption_id = new;
            coupon_id = a.accepted_id;
            user_id = user;
            order_id = order;
            amount = a.discount_amount;
          }
          ∷ s.redemptions;
    },
  )

  unfoldable pub redeem_coupon :
      ℕ → ℕ → Code → ℕ → ℕ → n.Num → Action Tables CouponError (ℕ × n.Num)
  unfolding validate_and_throw
  redeem_coupon now new code user order amount s =
      create_redemption new user order (validate_and_throw now code none (some user) amount s) s
