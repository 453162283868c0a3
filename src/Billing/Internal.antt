-- ===== src/Billing/Internal.antt =====
-- The internal API of the wallets
-- (apps/billing-service/src/modules/wallet/internal-wallet.controller.ts), which the order service
-- calls by HTTP.
use Prim.Native.String.{String}
use text.Mathlib.Text.{◌==◌ as str_eq}
use webrana_cloud.Base.{if◌then◌else◌, ℤ, pure, ◌>>=◌, ℕ, Bool, some}
use webrana_cloud.Billing.Wallet.{
  ReferenceType, deposit, deposit_bonus, welcome_bonus, vps_order, vps_renewal,
  provision_failed_refund, admin_adjustment, WalletTransaction, BalanceParams, Wallets, get_balance,
  add_balance, deduct_balance,
}

unfoldable pub map_reference_type : String → ReferenceType
map_reference_type t =
    if str_eq t "VPS_ORDER"
    then vps_order
    else if str_eq t "VPS_RENEWAL"
    then vps_renewal
    else if str_eq t "PROVISION_FAILED_REFUND"
    then provision_failed_refund
    else if str_eq t "ADMIN_ADJUSTMENT"
    then admin_adjustment
    else if str_eq t "DEPOSIT"
    then deposit
    else if str_eq t "DEPOSIT_BONUS"
    then deposit_bonus
    else if str_eq t "WELCOME_BONUS"
    then welcome_bonus
    else admin_adjustment

-- The body of a request.
pub record BalanceDto : Type 0 where
  pub amount : ℤ
  pub reference_type : String
  pub reference_id : ℕ

abbrev pub params_of : ℕ → BalanceDto → BalanceParams
params_of user dto = record {
  user_id = user;
  amount = dto.amount;
  reference_type = map_reference_type dto.reference_type;
  reference_id = some dto.reference_id;
}

-- The transaction's id and the new balance.
abbrev pub posted : WalletTransaction → ℕ × ℤ
posted t = (t.id, t.balance_after)

unfoldable pub get_balance_of : ℕ → Wallets ℤ
get_balance_of user = get_balance user

unfoldable pub deduct_balance_of : Bool → ℕ → BalanceDto → Wallets (ℕ × ℤ)
deduct_balance_of commits user dto = do
  t ← deduct_balance commits (params_of user dto)
  pure (posted t)

unfoldable pub credit_balance_of : Bool → ℕ → BalanceDto → Wallets (ℕ × ℤ)
credit_balance_of commits user dto = do
  t ← add_balance commits (params_of user dto)
  pure (posted t)
