-- ===== src/Catalog.antt =====
-- The catalog service (apps/catalog-service).
pub mod Coupon
