-- ===== src/Order/Catalog.antt =====
-- What the order service uses of the catalog: the client
-- (apps/order-service/src/modules/catalog-client/catalog-client.service.ts) over the answers of the
-- catalog's HTTP interface. Prices are of the host's number type, dates milliseconds.
use webrana_cloud.Base.{if◌then◌else◌, Result, ok, err, Number, ℕ, Bool, Option, none, some, List}

-- `duration` of a plan's pricing, as the order service writes it.
pub data CatalogDuration : Type 0 where
  by_day by_month by_quarter by_half_year by_year : CatalogDuration

pub data PromoDiscount : Type 0 where
  percent_off fixed_off : PromoDiscount

-- The body of an answer, where it has one; a request that ends in any other way is an exception.
pub data Response (A : Type 0) : Type 0 where
  responded : Option A → Response A
  request_failed : Response A

pub data CatalogError : Type 0 where
  invalid_plan invalid_image invalid_coupon catalog_service_unavailable : CatalogError

pub record CatalogImage : Type 0 where
  pub id : ℕ
  pub is_active : Bool

module _ (n : Number) where
  pub record PlanPricing : Type 0 where
    pub duration : CatalogDuration
    pub price : n.Num
    pub cost : n.Num
    pub is_active : Bool

  pub record PlanPromo : Type 0 where
    pub discount_type : PromoDiscount
    pub discount_value : n.Num
    pub start_date : ℕ
    pub end_date : ℕ
    pub is_active : Bool

  pub record CatalogPlan : Type 0 where
    pub id : ℕ
    pub is_active : Bool
    pub pricings : List PlanPricing
    pub promos : List PlanPromo

  pub record CouponResult : Type 0 where
    pub is_valid : Bool
    pub discount_amount : Option n.Num
    pub final_price : Option n.Num

  abbrev pub get_plan_by_id : Response CatalogPlan → Result CatalogError CatalogPlan
  get_plan_by_id request_failed = err catalog_service_unavailable
  get_plan_by_id (responded none) = err invalid_plan
  get_plan_by_id (responded (some plan)) = if plan.is_active then ok plan else err invalid_plan

  -- An answer without a body is read, which throws.
  abbrev pub catalog_coupon : Response CouponResult → Result CatalogError CouponResult
  catalog_coupon request_failed = err catalog_service_unavailable
  catalog_coupon (responded none) = err catalog_service_unavailable
  catalog_coupon (responded (some result)) =
      if result.is_valid then ok result else err invalid_coupon

abbrev pub get_image_by_id : Response CatalogImage → Result CatalogError CatalogImage
get_image_by_id request_failed = err catalog_service_unavailable
get_image_by_id (responded none) = err invalid_image
get_image_by_id (responded (some image)) = if image.is_active then ok image else err invalid_image
