-- ===== src/Lib.antt =====
-- Webrana Cloud rents out virtual servers. Its backend is a set of NestJS services over PostgreSQL
-- that call each other by HTTP: the billing service keeps the users' wallets and their deposits,
-- the catalog service the plans and coupons, and the order service takes orders, charges the wallet,
-- provisions droplets at DigitalOcean and follows each order to its end. This library models the
-- code that keeps money, coupons, orders and their lifecycle right, and proves what it promises.
--
-- Base holds the shared notions: integers over the native numbers (rupiah amounts), the host's
-- number type as a record of abstract operations (Base.Amounts), promotion codes, database tables
-- as lists of rows with the queries that the code uses, and code that may throw. An action returns
-- the store after an exception too, so what was written stays written unless a transaction takes it
-- back.
--
--   Billing.Wallet    apps/billing-service/src/modules/wallet/wallet.service.ts: wallets and the
--                     ledger of transactions. addBalance and deductBalance are add_balance and
--                     deduct_balance; a serializable transaction is one step that the database
--                     commits or aborts.
--   Billing.Deposit   apps/billing-service/src/modules/wallet/deposit.service.ts: deposits and their
--                     payment webhook. Deposits credit wallets through Billing.Wallet. The webhook is
--                     modelled as one call (in Deposit.Deliveries) and, in Deposit.Webhooks, as any
--                     number of workers whose steps interleave.
--   Billing.Invoice   apps/billing-service/src/modules/invoice/invoice.service.ts: invoices, their
--                     creation and expiry; Invoice.Payments has the payments and the callbacks of
--                     the gateway. The order service is told through a log of sent updates.
--   Billing.Promo     apps/billing-service/src/modules/promo/promo.service.ts: promotions, their
--                     redemptions and the welcome bonus, which Billing.Wallet credits.
--   Catalog.Coupon    apps/catalog-service/src/modules/coupon/coupon.service.ts: validation of a
--                     coupon, in its two versions, its redemption and its administration.
--   Order.Status      apps/order-service/src/modules/order/order-state-machine.ts: the statuses of
--                     an order and the transitions between them.
--   Order.Records     apps/order-service/prisma/schema.prisma: the rows of the order service.
--   Order.Lifecycle   apps/order-service/src/modules/lifecycle/lifecycle.service.ts: warnings, renewal,
--                     suspension, termination and restoration of orders, and the sweeps over them.
--                     The balance that a renewal takes is the billing service's: `charges` lists what
--                     it has deducted at this service's request.
--   Order.Lock        apps/order-service/src/common/services/distributed-lock.service.ts: the lock
--                     that keeps a cron job to one instance.
--   Billing.Internal  apps/billing-service/src/modules/wallet/internal-wallet.controller.ts: the
--                     wallets as the order service reaches them.
--   Order.Billing     apps/order-service/src/modules/billing-client/billing-client.service.ts. The
--                     record BillingService is what the order service relies on, operations with
--                     their laws; Order.Billing.Wallets fills it with Billing.Internal,
--                     and Order.Billing.Refinement states the service by its balances alone.
--   Order.Catalog     apps/order-service/src/modules/catalog-client/catalog-client.service.ts
--   Order.Pricing, Order.Checkout, Order.Service
--                     apps/order-service/src/modules/order/order.service.ts: the price of an order,
--                     createOrder and handleProvisioningFailed over both services' stores, and the
--                     other operations on an order.
--   Order.Accounts    apps/order-service/src/modules/do-account/do-account.service.ts: the accounts
--                     at DigitalOcean, their selection and administration.
--   Order.Provisioning
--                     apps/order-service/src/modules/provisioning/provisioning.service.ts: the task
--                     of an order from its start to its end, on accounts of Order.Accounts.
--
-- Ids, names and user-facing texts are numbers, since the code only compares them; times are
-- milliseconds, and a call reads the clock once, as an argument. What lies outside of the
-- repository is an argument of the model: the answers of the payment gateway, of DigitalOcean
-- and of the notifications, and whether the database takes a write. Month and year arithmetic on
-- dates is a parameter (Lifecycle.Calendar), of which one theorem assumes that it moves forward.
-- The polling loop of the provisioning runs on fuel: one round more than the attempts it may make,
-- which is enough. The other loops run over finite lists. Upper case is taken on ASCII letters.
--
-- Not modelled: the HTTP controllers, guards and data transfer objects, logging, read-only
-- response mapping and paging; the catalog's plans; the legacy payment of
-- orders; authentication, instances, notifications, the gateway and the web front ends.
pub mod Base
pub mod Billing
pub mod Catalog
pub mod Order
pub mod Tests
