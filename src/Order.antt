-- ===== src/Order.antt =====
-- The order service (apps/order-service).
pub mod Accounts
pub mod Billing
pub mod Catalog
pub mod Checkout
pub mod Pricing
pub mod Provisioning
pub mod Records
pub mod Service
pub mod Lifecycle
pub mod Lock
pub mod Status
