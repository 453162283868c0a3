-- ===== src/Order/Billing.antt =====
-- What the order service uses of the billing service
-- (apps/order-service/src/modules/billing-client/billing-client.service.ts), and its client.
pub mod Refinement
pub mod Wallets
use Prim.Native.String.{String}
use webrana_cloud.Base.{
  ◌==◌, if◌then◌else◌, ℤ, ◌+ℤ◌, ◌-ℤ◌, leb_ℤ, Result, ok, err, is_ok, Action, pure, ◌>>=◌, ℕ, ◌≡◌,
  Bool, true, false,
}

-- The answer to a request that is refused: for want of balance, or for another reason.
pub data Refusal : Type 0 where
  short_of : ℤ → Refusal
  other_refusal : Refusal

-- The service behind its laws. A request is answered and then done, or it is refused and nothing
-- has changed. The Boolean says whether the service's database commits.
pub record BillingService : Type 1 where
  pub Accounts : Type 0
  pub IsGood : Accounts → Type 0
  pub balance : ℕ → Accounts → ℤ
  pub read : ℕ → Accounts → ℤ × Accounts
  pub charge : Bool → ℕ → ℤ → String → ℕ → Accounts → Result Refusal (Unit {0}) × Accounts
  pub credit : Bool → ℕ → ℤ → String → ℕ → Accounts → Result Refusal (Unit {0}) × Accounts
  pub read_lem :
      (u : ℕ) (s : Accounts)
      → IsGood s
      → ((read u s).0 ≡ balance u s)
        × IsGood (read u s).1
        × ((v : ℕ) → balance v (read u s).1 ≡ balance v s)
  pub charge_ok :
      (c : Bool) (u : ℕ) (x : ℤ) (t : String) (i : ℕ) (s : Accounts)
      → IsGood s
      → is_ok (charge c u x t i s).0 ≡ true
      → IsGood (charge c u x t i s).1
        × ((v : ℕ)
            → balance v (charge c u x t i s).1 ≡ (if v == u then balance u s -ℤ x else balance v s))
  pub charge_refused :
      (c : Bool) (u : ℕ) (x : ℤ) (t : String) (i : ℕ) (s : Accounts)
      → IsGood s
      → is_ok (charge c u x t i s).0 ≡ false
      → (charge c u x t i s).1 ≡ s
  pub credit_ok :
      (c : Bool) (u : ℕ) (x : ℤ) (t : String) (i : ℕ) (s : Accounts)
      → IsGood s
      → is_ok (credit c u x t i s).0 ≡ true
      → IsGood (credit c u x t i s).1
        × ((v : ℕ)
            → balance v (credit c u x t i s).1 ≡ (if v == u then balance u s +ℤ x else balance v s))
  pub credit_refused :
      (c : Bool) (u : ℕ) (x : ℤ) (t : String) (i : ℕ) (s : Accounts)
      → IsGood s
      → is_ok (credit c u x t i s).0 ≡ false
      → (credit c u x t i s).1 ≡ s

-- What the network does with one request.
pub data Delivery : Type 0 where
  delivered request_lost response_lost : Delivery

pub data ClientError : Type 0 where
  insufficient_balance : ℤ → ClientError
  billing_service_unavailable : ClientError

-- `handleAxiosError` and `wrapError`.
abbrev pub of_refusal : Refusal → ClientError
of_refusal (short_of x) = insufficient_balance x
of_refusal other_refusal = billing_service_unavailable

abbrev pub answer_of : {A : Type 0} → Result Refusal A → Result ClientError A
answer_of (ok a) = ok a
answer_of (err e) = err (of_refusal e)

-- A request whose response is lost has been done.
abbrev pub request :
    {A S : Type 0} → Delivery → (S → Result Refusal A × S) → S → Result ClientError A × S
request delivered f s = (answer_of (f s).0, (f s).1)
request request_lost f s = (err billing_service_unavailable, s)
request response_lost f s = (err billing_service_unavailable, (f s).1)

module _ (b : BillingService) where
  abbrev pub read_ok : ℕ → b.Accounts → Result Refusal ℤ × b.Accounts
  read_ok u s = (ok (b.read u s).0, (b.read u s).1)

  unfoldable pub client_get_balance : Delivery → ℕ → Action b.Accounts ClientError ℤ
  client_get_balance d user = request d (read_ok user)

  unfoldable pub check_sufficient_balance : Delivery → ℕ → ℤ → Action b.Accounts ClientError Bool
  unfolding client_get_balance
  check_sufficient_balance d user amount =
      client_get_balance d user >>= λ balance. pure (leb_ℤ amount balance)

  unfoldable pub client_deduct_balance :
      Delivery → Bool → ℕ → ℤ → String → ℕ → Action b.Accounts ClientError (Unit {0})
  client_deduct_balance d commits user amount reference id =
      request d (b.charge commits user amount reference id)

  unfoldable pub client_refund_balance :
      Delivery → Bool → ℕ → ℤ → String → ℕ → Action b.Accounts ClientError (Unit {0})
  client_refund_balance d commits user amount reference id =
      request d (b.credit commits user amount reference id)
