-- ===== src/Tests.antt =====
-- Tests, and each theorem with hypotheses at an input that meets them.
mod Wallet
mod Amounts
mod Coupon
mod Deposit
mod Invoices
mod Lifecycle
mod Promo
mod Status
mod Lock
mod Orders
mod Provisioning
mod Checkout
