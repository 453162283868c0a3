-- ===== src/Catalog/Coupon/Admin.antt =====
-- The administration of coupons, in the same service: creation, update, deletion, and the plans and
-- users that a coupon is for. `saved` says whether the database takes the write, which it may
-- refuse, such as for a plan that does not exist.
pub mod Unique
use webrana_cloud.Base.{
  ◌==◌, if◌then◌else◌, is_some, given, ℤ, err, Action, attempt, find, update_row, some_where,
  delete_where, Number, to_upper_case, ℕ, Bool, not, ◌&&◌, Option, none, some, List, [], ◌∷◌,
}
use webrana_cloud.Catalog.Coupon.{DiscountType, Coupon, Tables, has_id, has_code, of_coupon}

pub data AdminError : Type 0 where
  coupon_missing database_error : AdminError

module _ (n : Number) where
  abbrev pub Admin : Type 0
  Admin = Action (Tables n) AdminError (Unit {0})

  abbrev pub write_coupons : Bool → List (Coupon n) → Admin
  write_coupons saved cs = attempt saved database_error (λ s. record s { coupons = cs })

  -- `input` is the row to create, its defaults filled in. A code in use raises the exception for a
  -- missing coupon.
  unfoldable pub create_coupon : Bool → Coupon n → Admin
  create_coupon saved input s =
      if is_some (find (has_code n (to_upper_case input.code)) s.coupons)
      then (err coupon_missing, s)
      else write_coupons saved (record input { code = to_upper_case input.code } ∷ s.coupons) s

  -- `input` of an update: what is left out stays, and a null clears a column that may be null.
  pub record Changes : Type 0 where
    pub new_name : Option ℕ
    pub new_discount_type : Option DiscountType
    pub new_discount_value : Option n.Num
    pub new_min_order_amount : Option (Option n.Num)
    pub new_max_discount_amount : Option (Option n.Num)
    pub new_max_total_redemptions : Option (Option ℤ)
    pub new_max_redemptions_per_user : Option (Option ℤ)
    pub new_start_at : Option ℕ
    pub new_end_at : Option ℕ
    pub new_is_active : Option Bool

  abbrev pub changed : Changes → Coupon n → Coupon n
  changed d c = record c {
    name = given d.new_name c.name;
    discount_type = given d.new_discount_type c.discount_type;
    discount_value = given d.new_discount_value c.discount_value;
    min_order_amount = given d.new_min_order_amount c.min_order_amount;
    max_discount_amount = given d.new_max_discount_amount c.max_discount_amount;
    max_total_redemptions = given d.new_max_total_redemptions c.max_total_redemptions;
    max_redemptions_per_user = given d.new_max_redemptions_per_user c.max_redemptions_per_user;
    start_at = given d.new_start_at c.start_at;
    end_at = given d.new_end_at c.end_at;
    is_active = given d.new_is_active c.is_active;
  }

  abbrev pub has_coupon : ℕ → Tables n → Bool
  has_coupon i s = is_some (find (has_id n i) s.coupons)

  unfoldable pub update_coupon : Bool → ℕ → Changes → Admin
  update_coupon saved i d s =
      if has_coupon i s
      then write_coupons saved (update_row (has_id n i) (changed d) s.coupons) s
      else (err coupon_missing, s)

  -- The redemptions are deleted with their coupon.
  abbrev pub without : ℕ → Tables n → Tables n
  without i s = record s {
    coupons = delete_where (has_id n i) s.coupons;
    redemptions = delete_where (of_coupon n i) s.redemptions;
  }

  unfoldable pub delete_coupon : Bool → ℕ → Admin
  delete_coupon saved i s =
      if has_coupon i s then attempt saved database_error (without i) s else (err coupon_missing, s)

  abbrev pub equals : ℕ → ℕ → Bool
  equals x y = y == x

  abbrev pub with_plan : ℕ → Coupon n → Coupon n
  with_plan x c = record c { coupon_plans = x ∷ c.coupon_plans }

  abbrev pub without_plan : ℕ → Coupon n → Coupon n
  without_plan x c = record c { coupon_plans = delete_where (equals x) c.coupon_plans }

  abbrev pub with_user : ℕ → Coupon n → Coupon n
  with_user x c = record c { coupon_users = x ∷ c.coupon_users }

  abbrev pub without_user : ℕ → Coupon n → Coupon n
  without_user x c = record c { coupon_users = delete_where (equals x) c.coupon_users }

  abbrev pub plans_of : Option (Coupon n) → List ℕ
  plans_of none = []
  plans_of (some c) = c.coupon_plans

  abbrev pub users_of : Option (Coupon n) → List ℕ
  users_of none = []
  users_of (some c) = c.coupon_users

  -- A mapping that exists is refused by its unique key.
  unfoldable pub add_coupon_plan : Bool → ℕ → ℕ → Admin
  add_coupon_plan saved i plan s =
      if has_coupon i s
      then write_coupons
          (saved && not (some_where (equals plan) (plans_of (find (has_id n i) s.coupons))))
          (update_row (has_id n i) (with_plan plan) s.coupons) s
      else (err coupon_missing, s)

  unfoldable pub add_coupon_user : Bool → ℕ → ℕ → Admin
  add_coupon_user saved i user s =
      if has_coupon i s
      then write_coupons
          (saved && not (some_where (equals user) (users_of (find (has_id n i) s.coupons))))
          (update_row (has_id n i) (with_user user) s.coupons) s
      else (err coupon_missing, s)

  -- The deletion of a mapping that does not exist raises.
  unfoldable pub remove_coupon_plan : Bool → ℕ → ℕ → Admin
  remove_coupon_plan saved i plan s =
      write_coupons (saved && some_where (equals plan) (plans_of (find (has_id n i) s.coupons)))
        (update_row (has_id n i) (without_plan plan) s.coupons) s

  unfoldable pub remove_coupon_user : Bool → ℕ → ℕ → Admin
  remove_coupon_user saved i user s =
      write_coupons (saved && some_where (equals user) (users_of (find (has_id n i) s.coupons)))
        (update_row (has_id n i) (without_user user) s.coupons) s
