-- ===== src/Tests/Promo.antt =====
-- The promo service at concrete promos.
use webrana_cloud.Base.{pos, ok, err, ℕ, ◌≡◌, refl, true, false, none, some, List, [], ◌∷◌, arith}
use webrana_cloud.Billing.Wallet.{empty_store, add_balance}
use webrana_cloud.Billing.Promo.Claims.{claim_welcome_bonus-once}
use webrana_cloud.Billing.Promo.Admin.{create_promo, delete_promo}
use webrana_cloud.Billing.Promo.{
  PromoType, deposit_bonus_promo, welcome_bonus_promo, BonusType, percentage, fixed_amount, Promo,
  PromoStore, welcome_bonus_not_available, validate_promo, apply_promo, check_welcome_bonus,
  claim_welcome_bonus, calculate_deposit_bonus,
}
use webrana_cloud.Billing.Promo.Uses.{
  uses, IsCounted, PromoCall, create, delete, apply, claim_welcome, promo_calls,
  promo_calls-IsCounted,
}
use webrana_cloud.Tests.Amounts.{hundredths}

abbrev promo : ℕ → PromoType → BonusType → ℕ → Promo
promo i type bonus_type value = record {
  id = i;
  code = b'a' ∷ b'0' ∷ [];
  type = type;
  bonus_type = bonus_type;
  bonus_value = pos value;
  min_deposit = some (pos 50);
  max_bonus = some (pos 30);
  start_at = 10;
  end_at = 90;
  max_total_uses = some 5;
  max_uses_per_user = 1;
  current_uses = 0;
  is_active = true;
}

abbrev start : PromoStore
start = record { promos = []; redemptions = []; wallet = empty_store }

abbrev calls_made : List PromoCall
calls_made =
    create (promo 1 welcome_bonus_promo fixed_amount 25)
    ∷ claim_welcome true true 0 7 20 3
    ∷ claim_welcome true true 0 8 21 3
    ∷ apply false 9 1 4 none (pos 0) (pos 5)
    ∷ delete 1
    ∷ []

-- The second claim is refused, the aborted one not counted, and the promo deactivated.
claimed_once : uses 1 (promo_calls calls_made start) ≡ 1
unfolding create_promo claim_welcome_bonus check_welcome_bonus apply_promo delete_promo add_balance
claimed_once = refl

-- Twenty percent of 100 is 20, of 200 is capped to 30.
bonus_capped :
    calculate_deposit_bonus hundredths 20 3 (pos 200) (some (b'A' ∷ b'0' ∷ [])) (record start {
      promos = record (promo 2 deposit_bonus_promo percentage 20) { code = b'A' ∷ b'0' ∷ [] } ∷ [];
    })
    ≡ (pos 30, some 2)
unfolding calculate_deposit_bonus validate_promo
bonus_capped = refl

start-IsCounted : IsCounted 1 start
unfolding IsCounted
start-IsCounted = refl

promo_calls-IsCounted_example : IsCounted 1 (promo_calls calls_made start)
promo_calls-IsCounted_example = promo_calls-IsCounted 1 calls_made start start-IsCounted

abbrev offered : PromoStore
offered = record start { promos = promo 1 welcome_bonus_promo fixed_amount 25 ∷ [] }

first_claim : (claim_welcome_bonus true true 0 7 20 3 offered).0 ≡ ok (pos 25)
unfolding claim_welcome_bonus check_welcome_bonus apply_promo add_balance
first_claim = refl

-- With two welcome promos that run, a user can claim both.
abbrev both_offered : PromoStore
both_offered = record offered {
  promos = promo 2 welcome_bonus_promo fixed_amount 30 ∷ offered.promos;
}

second_claim :
    (claim_welcome_bonus true true 0 8 20 3
      (claim_welcome_bonus true true 1 7 20 3 both_offered).1).0
    ≡ ok (pos 30)
unfolding claim_welcome_bonus check_welcome_bonus apply_promo add_balance
second_claim = refl

claim_welcome_bonus-once_example :
    claim_welcome_bonus true true 5 8 20 3 (claim_welcome_bonus true true 0 7 20 3 offered).1
    ≡ (err welcome_bonus_not_available, (claim_welcome_bonus true true 0 7 20 3 offered).1)
claim_welcome_bonus-once_example =
    claim_welcome_bonus-once 0 5 7 8 20 3 true true true true offered (omega arith) first_claim
