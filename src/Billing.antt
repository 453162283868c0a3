-- ===== src/Billing.antt =====
-- The billing service (apps/billing-service).
pub mod Wallet
pub mod Deposit
pub mod Promo
pub mod Internal
pub mod Invoice
