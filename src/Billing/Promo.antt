-- ===== src/Billing/Promo.antt =====
-- The promo service (apps/billing-service/src/modules/promo/promo.service.ts): promotions, their
-- redemptions, and the welcome bonus, which credits a wallet. The id of a created row is an
-- argument; the database refuses one that is in use.
pub mod Admin
pub mod Claims
pub mod Uses
use webrana_cloud.Base.{
  ltb, leb, ◌==◌, if◌then◌else◌, ℤ, pos, ◌+ℤ◌, ltb_ℤ, leb_ℤ, min_ℤ, Result, ok, err, Action, pure,
  raise, gets, transaction, ◌>>=◌, ◌>>◌, find, update_row, filter_where, count_where, pick, Number,
  Code, to_upper_case, ◌=c=◌, ℕ, suc, Bool, true, false, not, ◌&&◌, ◌||◌, Option, none, some, List,
  ◌∷◌,
}
use webrana_cloud.Billing.Wallet.{
  welcome_bonus, WalletStore, WalletError, BalanceParams, Wallets, add_balance,
}

pub data PromoType : Type 0 where
  deposit_bonus_promo welcome_bonus_promo referral_bonus_promo special_event : PromoType

pub data BonusType : Type 0 where
  percentage fixed_amount : BonusType

pub record Promo : Type 0 where
  pub id : ℕ
  pub code : Code
  pub type : PromoType
  pub bonus_type : BonusType
  pub bonus_value : ℤ
  pub min_deposit : Option ℤ
  pub max_bonus : Option ℤ
  pub start_at : ℕ
  pub end_at : ℕ
  pub max_total_uses : Option ℕ
  pub max_uses_per_user : ℕ
  pub current_uses : ℕ
  pub is_active : Bool

pub record PromoRedemption : Type 0 where
  pub id : ℕ
  pub promo_id : ℕ
  pub user_id : ℕ
  pub deposit_id : Option ℕ
  pub bonus_amount : ℤ
  pub deposit_amount : Option ℤ

pub record PromoStore : Type 0 where
  pub promos : List Promo
  pub redemptions : List PromoRedemption
  pub wallet : WalletStore

pub data PromoError : Type 0 where
  promo_not_found promo_inactive promo_expired promo_exhausted promo_already_used : PromoError
  promo_min_deposit : ℤ → PromoError
  welcome_bonus_not_available promo_id_not_found promo_code_already_exists : PromoError
  promo_database_error : PromoError
  wallet_error : WalletError → PromoError

abbrev pub Promos : Type 0 → Type 0
Promos A = Action PromoStore PromoError A

abbrev pub is_promo : ℕ → Promo → Bool
is_promo i p = p.id == i

abbrev pub with_code : Code → Promo → Bool
with_code q p = p.code =c= q

abbrev pub of_promo : ℕ → PromoRedemption → Bool
of_promo i r = r.promo_id == i

abbrev pub used_by : ℕ → ℕ → PromoRedemption → Bool
used_by i user r = of_promo i r && r.user_id == user

-- `limit && count >= limit`, where a limit of 0 is no limit.
abbrev pub exhausted : Option ℕ → ℕ → Bool
exhausted none k = false
exhausted (some limit) k = ltb 0 limit && leb limit k

-- `min && deposit < min`.
abbrev pub below_min : ℤ → Option ℤ → Bool
below_min paid_in none = false
below_min paid_in (some least) =
    not (leb_ℤ least (pos 0) && leb_ℤ (pos 0) least) && ltb_ℤ paid_in least

-- `if (promo.maxBonus)`.
abbrev pub capped_bonus : Option ℤ → ℤ → ℤ
capped_bonus none bonus = bonus
capped_bonus (some most) bonus =
    if leb_ℤ most (pos 0) && leb_ℤ (pos 0) most then bonus else min_ℤ bonus most

abbrev pub bonus_of : Number → ℤ → Promo → BonusType → ℤ
bonus_of n paid_in p percentage =
    capped_bonus p.max_bonus
      (n.floor (n.mul (n.of_ℤ paid_in) (n.div (n.of_ℤ p.bonus_value) (n.of_ℤ (pos 100)))))
bonus_of n paid_in p fixed_amount = p.bonus_value

-- The promo, the bonus and the total credit.
abbrev pub validate_promo_row :
    Number → ℕ → ℕ → ℤ → PromoStore → Option Promo → Result PromoError (Promo × ℤ × ℤ)
validate_promo_row n now user paid_in s none = err promo_not_found
validate_promo_row n now user paid_in s (some p) =
    if not p.is_active
    then err promo_inactive
    else if ltb now p.start_at || ltb p.end_at now
    then err promo_expired
    else if exhausted p.max_total_uses p.current_uses
    then err promo_exhausted
    else if leb p.max_uses_per_user (count_where (used_by p.id user) s.redemptions)
    then err promo_already_used
    else if below_min paid_in p.min_deposit
    then err (promo_min_deposit (elim p.min_deposit [ none ↦ pos 0 | some least ↦ least ]))
    else ok (p, bonus_of n paid_in p p.bonus_type, paid_in +ℤ bonus_of n paid_in p p.bonus_type)

unfoldable pub validate_promo :
    Number → ℕ → Code → ℕ → ℤ → PromoStore → Result PromoError (Promo × ℤ × ℤ)
validate_promo n now code user paid_in s =
    validate_promo_row n now user paid_in s (find (with_code (to_upper_case code)) s.promos)

abbrev pub used_again : Promo → Promo
used_again p = record p { current_uses = suc p.current_uses }

-- `promo.update` and `promoRedemption.create`, in one transaction; an update of no row raises.
abbrev pub count_use : ℕ → Option Promo → Promos (Unit {0})
count_use i none s = (err promo_database_error, s)
count_use i (some p) s = (ok tt, record s { promos = update_row (is_promo i) used_again s.promos })

abbrev pub add_redemption : PromoRedemption → Promos PromoRedemption
add_redemption r s = (ok r, record s { redemptions = r ∷ s.redemptions })

-- `depositAmount || null`.
abbrev pub or_null : ℤ → Option ℤ
or_null amount = if leb_ℤ amount (pos 0) && leb_ℤ (pos 0) amount then none else some amount

unfoldable pub apply_promo : Bool → ℕ → ℕ → ℕ → Option ℕ → ℤ → ℤ → Promos PromoRedemption
apply_promo commits new promo user paid_in deposit_amount bonus =
    transaction commits promo_database_error (
      gets (λ s. find (is_promo promo) s.promos)
      >>= count_use promo
      >> add_redemption record {
        id = new;
        promo_id = promo;
        user_id = user;
        deposit_id = paid_in;
        bonus_amount = bonus;
        deposit_amount = or_null deposit_amount;
      })

abbrev pub is_welcome : ℕ → Promo → Bool
is_welcome now p =
    elim p.type [ welcome_bonus_promo ↦ true | _ ↦ false ]
    && p.is_active
    && leb p.start_at now
    && leb now p.end_at

abbrev pub welcome_row : ℕ → PromoStore → Option Promo → Option Promo
welcome_row user s none = none
welcome_row user s (some p) =
    if ltb 0 (count_where (used_by p.id user) s.redemptions)
    then none
    else if exhausted p.max_total_uses p.current_uses
    then none
    else some p

-- `choice` is the database's among the promos that match.
unfoldable pub check_welcome_bonus : (choice now user : ℕ) → PromoStore → Option Promo
check_welcome_bonus choice now user s =
    welcome_row user s (pick choice (filter_where (is_welcome now) s.promos))

-- The wallet service of the same process, on its tables.
abbrev pub lift_result :
    {A : Type 0}
    → Result WalletError A × WalletStore
    → PromoStore
    → Result PromoError A × PromoStore
lift_result (ok a, w) s = (ok a, record s { wallet = w })
lift_result (err e, w) s = (err (wallet_error e), record s { wallet = w })

abbrev pub in_wallet : {A : Type 0} → Wallets A → Promos A
in_wallet m s = lift_result (m s.wallet) s

abbrev pub welcome_params : ℕ → Promo → BalanceParams
welcome_params user p = record {
  user_id = user;
  amount = p.bonus_value;
  reference_type = welcome_bonus;
  reference_id = some p.id;
}

abbrev pub claim_found : Bool → Bool → ℕ → ℕ → Option Promo → Promos ℤ
claim_found credited recorded new user none = raise welcome_bonus_not_available
claim_found credited recorded new user (some p) =
    in_wallet (add_balance credited (welcome_params user p))
    >> apply_promo recorded new p.id user none (pos 0) p.bonus_value
    >> pure p.bonus_value

-- `credited` and `recorded` say whether the database commits the two transactions.
unfoldable pub claim_welcome_bonus : Bool → Bool → (choice new now user : ℕ) → Promos ℤ
unfolding check_welcome_bonus apply_promo
claim_welcome_bonus credited recorded choice new now user s =
    claim_found credited recorded new user (check_welcome_bonus choice now user s) s

abbrev pub bonus_result : Result PromoError (Promo × ℤ × ℤ) → ℤ × Option ℕ
bonus_result (ok (p, bonus, total)) = (bonus, some p.id)
bonus_result (err _) = (pos 0, none)

-- A code that does not validate gives no bonus.
unfoldable pub calculate_deposit_bonus :
    Number → ℕ → ℕ → ℤ → Option Code → PromoStore → ℤ × Option ℕ
unfolding validate_promo
calculate_deposit_bonus n now user paid_in none s = (pos 0, none)
calculate_deposit_bonus n now user paid_in (some code) s =
    bonus_result (validate_promo n now code user paid_in s)
