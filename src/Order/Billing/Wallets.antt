-- ===== src/Order/Billing/Wallets.antt =====
-- The billing service of this repository, behind its internal API, keeps the laws that the order
-- service relies on.
use Prim.Native.String.{String}
use webrana_cloud.Base.{
  ◌==◌, if◌then◌else◌, Bool-cases, Option-cases, ℤ, pos, ◌+ℤ◌, ◌-ℤ◌, neg, Result, ok, err, is_ok,
  pure, continue, ℕ, ◌≡◌, refl, subst, inl, inr, Bool, true, false, arith,
}
use webrana_cloud.Billing.Wallet.{
  WalletTransaction, WalletStore, WalletError, insufficient_balance, find_wallet,
  get_or_create_wallet, get_balance, add_balance, deduct_balance,
}
use webrana_cloud.Billing.Wallet.Ledger.{IsValid}
use webrana_cloud.Billing.Wallet.Methods.{
  get_or_create_wallet-IsValid, balance_of, Posts, add_balance-Posts, deduct_balance-Posts,
}
use webrana_cloud.Billing.Internal.{
  BalanceDto, params_of, posted, get_balance_of, deduct_balance_of, credit_balance_of,
}
use webrana_cloud.Order.Billing.{Refusal, short_of, other_refusal, BillingService}

-- The status and code of the response to an exception.
abbrev pub refusal_of : WalletError → Refusal
refusal_of (insufficient_balance have need) = short_of need
refusal_of _ = other_refusal

abbrev pub done_or_refused :
    {A S : Type 0} → Result WalletError A × S → Result Refusal (Unit {0}) × S
done_or_refused (ok _, s) = (ok tt, s)
done_or_refused (err e, s) = (err (refusal_of e), s)

abbrev pub amount_or_zero : Result WalletError ℤ → ℤ
amount_or_zero (ok x) = x
amount_or_zero (err _) = pos 0

abbrev pub body : ℤ → String → ℕ → BalanceDto
body x t i = record { amount = x; reference_type = t; reference_id = i }

pub get_balance_lem :
    (u : ℕ) (s : WalletStore)
    → IsValid s
    → (amount_or_zero (get_balance_of u s).0 ≡ balance_of u s)
      × IsValid (get_balance_of u s).1
      × ((v : ℕ) → balance_of v (get_balance_of u s).1 ≡ balance_of v s)
unfolding get_balance_of get_balance get_or_create_wallet
get_balance_lem u s v = elim (Option-cases (find_wallet u s)) [
  | inl new ↦
      let made : IsValid (get_or_create_wallet u s).1 = get_or_create_wallet-IsValid u s v in
      (ground (arith, new), rw new (rw new at made), λ x. ground (arith, new))
  | inr (w, old) ↦ (ground (arith, old), rw old v, λ x. rw old refl)
]

-- What `Posts` says of every user's balance.
Posts-balances :
    (u : ℕ) (d : ℤ) (s : WalletStore) (r : Result WalletError WalletTransaction × WalletStore)
    → Posts u d s r
    → is_ok (done_or_refused r).0 ≡ true
    → IsValid (done_or_refused r).1
      × ((v : ℕ)
          → balance_of v (done_or_refused r).1
            ≡ (if v == u then balance_of u s +ℤ d else balance_of v s))
Posts-balances u d s (ok t, s') h good = (
  h.0,
  λ v. elim (Bool-cases (v == u)) [
    | inl it ↦
        let same : u ≡ v = ground (arith, it) in
        rw it (subst (λ x. balance_of x s' ≡ balance_of u s +ℤ d) same h.3)
    | inr other ↦
        let kept : find_wallet v s' ≡ find_wallet v s = rw other at (h.4 v) in
        rw other (ground (arith, kept))
  ],
)
Posts-balances u d s (err e, s') h good = absurd (ground (arith, good))

Posts-refused :
    (u : ℕ) (d : ℤ) (s : WalletStore) (r : Result WalletError WalletTransaction × WalletStore)
    → Posts u d s r
    → is_ok (done_or_refused r).0 ≡ false
    → (done_or_refused r).1 ≡ s
Posts-refused u d s (ok t, s') h bad = absurd (ground (arith, bad))
Posts-refused u d s (err e, s') h bad = h

done-posted :
    (r : Result WalletError WalletTransaction × WalletStore)
    → done_or_refused (continue r (λ t. pure (posted t))) ≡ done_or_refused r
done-posted (ok t, s) = refl
done-posted (err e, s) = refl

+ℤ_neg : (a x : ℤ) → a +ℤ neg x ≡ a -ℤ x
unfolding ◌+ℤ◌ ◌-ℤ◌
+ℤ_neg a x = ground arith

abbrev pub read : ℕ → WalletStore → ℤ × WalletStore
read u s = (amount_or_zero (get_balance_of u s).0, (get_balance_of u s).1)

-- A request to the internal API, and whether it is answered well.
unfoldable pub charge :
    Bool → ℕ → ℤ → String → ℕ → WalletStore → Result Refusal (Unit {0}) × WalletStore
unfolding deduct_balance_of
charge c u x t i s = done_or_refused (deduct_balance_of c u (body x t i) s)

unfoldable pub credit_to :
    Bool → ℕ → ℤ → String → ℕ → WalletStore → Result Refusal (Unit {0}) × WalletStore
unfolding credit_balance_of
credit_to c u x t i s = done_or_refused (credit_balance_of c u (body x t i) s)

pub charge_lem :
    (c : Bool) (u : ℕ) (x : ℤ) (t : String) (i : ℕ) (s : WalletStore)
    → charge c u x t i s ≡ done_or_refused (deduct_balance c (params_of u (body x t i)) s)
unfolding charge deduct_balance_of
charge_lem c u x t i s = done-posted (deduct_balance c (params_of u (body x t i)) s)

pub credit_lem :
    (c : Bool) (u : ℕ) (x : ℤ) (t : String) (i : ℕ) (s : WalletStore)
    → credit_to c u x t i s ≡ done_or_refused (add_balance c (params_of u (body x t i)) s)
unfolding credit_to credit_balance_of
credit_lem c u x t i s = done-posted (add_balance c (params_of u (body x t i)) s)

pub charge_ok_lem :
    (c : Bool) (u : ℕ) (x : ℤ) (t : String) (i : ℕ) (s : WalletStore)
    → IsValid s
    → is_ok (charge c u x t i s).0 ≡ true
    → IsValid (charge c u x t i s).1
      × ((v : ℕ)
          → balance_of v (charge c u x t i s).1
            ≡ (if v == u then balance_of u s -ℤ x else balance_of v s))
charge_ok_lem c u x t i s v good =
    let p = params_of u (body x t i) in
    rw (charge_lem c u x t i s) (
      rw (← +ℤ_neg (balance_of u s) x) (
        Posts-balances u (neg x) s (deduct_balance c p s) (deduct_balance-Posts c p s v)
          (rw (charge_lem c u x t i s) at good)))

pub charge_refused_lem :
    (c : Bool) (u : ℕ) (x : ℤ) (t : String) (i : ℕ) (s : WalletStore)
    → IsValid s
    → is_ok (charge c u x t i s).0 ≡ false
    → (charge c u x t i s).1 ≡ s
charge_refused_lem c u x t i s v bad =
    let p = params_of u (body x t i) in
    rw (charge_lem c u x t i s) (
      Posts-refused u (neg x) s (deduct_balance c p s) (deduct_balance-Posts c p s v)
        (rw (charge_lem c u x t i s) at bad))

pub credit_ok_lem :
    (c : Bool) (u : ℕ) (x : ℤ) (t : String) (i : ℕ) (s : WalletStore)
    → IsValid s
    → is_ok (credit_to c u x t i s).0 ≡ true
    → IsValid (credit_to c u x t i s).1
      × ((v : ℕ)
          → balance_of v (credit_to c u x t i s).1
            ≡ (if v == u then balance_of u s +ℤ x else balance_of v s))
credit_ok_lem c u x t i s v good =
    let p = params_of u (body x t i) in
    rw (credit_lem c u x t i s) (
      Posts-balances u x s (add_balance c p s) (add_balance-Posts c p s v)
        (rw (credit_lem c u x t i s) at good))

pub credit_refused_lem :
    (c : Bool) (u : ℕ) (x : ℤ) (t : String) (i : ℕ) (s : WalletStore)
    → IsValid s
    → is_ok (credit_to c u x t i s).0 ≡ false
    → (credit_to c u x t i s).1 ≡ s
credit_refused_lem c u x t i s v bad =
    let p = params_of u (body x t i) in
    rw (credit_lem c u x t i s) (
      Posts-refused u x s (add_balance c p s) (add_balance-Posts c p s v)
        (rw (credit_lem c u x t i s) at bad))

abbrev pub wallets : BillingService
wallets = record {
  Accounts = WalletStore;
  IsGood = IsValid;
  balance = balance_of;
  read = read;
  charge = charge;
  credit = credit_to;
  read_lem = get_balance_lem;
  charge_ok = charge_ok_lem;
  charge_refused = charge_refused_lem;
  credit_ok = credit_ok_lem;
  credit_refused = credit_refused_lem;
}
