-- ===== src/Order/Billing/Refinement.antt =====
-- The wallets behind the internal API, seen as a function from users to balances: what the service
-- grants and what it does is decided by the balances alone.
use Prim.Native.String.{String}
use mathlib.Core.Path.{fun_ext}
use webrana_cloud.Base.{
  ◌==◌, if◌then◌else◌, Bool-cases, Option-cases, ℤ, pos, ◌+ℤ◌, ◌-ℤ◌, ltb_ℤ, leb_ℤ, Result, is_ok, ℕ,
  ◌≡◌, refl, sym, ap, ap₂, ◌∙◌, subst, inl, inr, Bool, true, false, ◌&&◌, List, [], ◌∷◌, arith,
}
use webrana_cloud.Billing.Wallet.{
  WalletStore, BalanceParams, find_wallet, add_balance, deduct_balance,
}
use webrana_cloud.Billing.Wallet.Methods.{balance_of}
use webrana_cloud.Order.Billing.{Refusal}
use webrana_cloud.Order.Billing.Wallets.{
  done_or_refused, charge, credit_to, charge_lem, credit_lem, charge_ok_lem, charge_refused_lem,
  credit_ok_lem, credit_refused_lem,
}
use webrana_cloud.Billing.Wallet.Ledger.{IsValid}
use webrana_cloud.Billing.Internal.{params_of}

-- A request, and whether the database commits it.
pub data MoneyRequest : Type 0 where
  take_money give_money : Bool → ℕ → ℤ → String → ℕ → MoneyRequest

abbrev pub Balances : Type 0
Balances = ℕ → ℤ

-- The abstract service.
abbrev pub grants : MoneyRequest → Balances → Bool
grants (take_money c u x t i) m = c && ltb_ℤ (pos 0) x && leb_ℤ x (m u)
grants (give_money c u x t i) m = c && ltb_ℤ (pos 0) x

abbrev pub moved : MoneyRequest → Balances → Balances
moved (take_money c u x t i) m v = if v == u then m u -ℤ x else m v
moved (give_money c u x t i) m v = if v == u then m u +ℤ x else m v

abbrev pub next_balances : MoneyRequest → Balances → Balances
next_balances r m v = if grants r m then moved r m v else m v

abbrev pub promised : List MoneyRequest → Balances → List Bool × Balances
promised [] m = ([], m)
promised (r ∷ rs) m =
    let (answers, end) = promised rs (next_balances r m) in (grants r m ∷ answers, end)

-- The wallets.
abbrev pub serve : MoneyRequest → WalletStore → Result Refusal (Unit {0}) × WalletStore
serve (take_money c u x t i) s = charge c u x t i s
serve (give_money c u x t i) s = credit_to c u x t i s

abbrev pub served : List MoneyRequest → WalletStore → List Bool × WalletStore
served [] s = ([], s)
served (r ∷ rs) s =
    let (answers, end) = served rs (serve r s).1 in (is_ok (serve r s).0 ∷ answers, end)

and_false : (c : Bool) → (c && false) ≡ false
and_false true = refl
and_false false = refl

and_false_and : (c b : Bool) → (c && false && b) ≡ false
and_false_and true b = refl
and_false_and false b = refl

deduct-decides :
    (c : Bool) (p : BalanceParams) (s : WalletStore)
    → is_ok (done_or_refused (deduct_balance c p s)).0
      ≡ (c && ltb_ℤ (pos 0) p.amount && leb_ℤ p.amount (balance_of p.user_id s))
unfolding deduct_balance
deduct-decides c p s = elim (Bool-cases (leb_ℤ p.amount (pos 0))) [
  | inl low ↦
      let not_positive : ltb_ℤ (pos 0) p.amount ≡ false = ground (arith, low) in
      rw (low, not_positive) (sym (and_false_and c (leb_ℤ p.amount (balance_of p.user_id s))))
  | inr high ↦
      let positive : ltb_ℤ (pos 0) p.amount ≡ true = ground (arith, high) in
      elim (Option-cases (find_wallet p.user_id s)) [
        | inl missing ↦
            let nothing : balance_of p.user_id s ≡ pos 0 = rw (balance_of, missing) refl in
            let uncovered : leb_ℤ p.amount (balance_of p.user_id s) ≡ false =
              ap (λ x. leb_ℤ p.amount x) nothing ∙ high in
            rw (high, positive, missing) (rw uncovered (sym (and_false (c && true))))
        | inr (w, found) ↦ elim (Bool-cases (ltb_ℤ w.balance p.amount)) [
          | inl short ↦
              let has : balance_of p.user_id s ≡ w.balance = rw (balance_of, found) refl in
              let uncovered : leb_ℤ p.amount (balance_of p.user_id s) ≡ false =
                ap (λ x. leb_ℤ p.amount x) has ∙ ground (arith, short) in
              rw (high, positive, found) (rw (short, uncovered) (sym (and_false (c && true))))
          | inr enough ↦
              let has : balance_of p.user_id s ≡ w.balance = rw (balance_of, found) refl in
              let covered : leb_ℤ p.amount (balance_of p.user_id s) ≡ true =
                ap (λ x. leb_ℤ p.amount x) has ∙ ground (arith, enough) in
              rw (high, positive, found)
                (rw (enough, covered)
                  (elim (Bool-cases c) [ inl done ↦ rw done refl | inr undone ↦ rw undone refl ]))
        ]
      ]
]

add-decides :
    (c : Bool) (p : BalanceParams) (s : WalletStore)
    → is_ok (done_or_refused (add_balance c p s)).0 ≡ (c && ltb_ℤ (pos 0) p.amount)
unfolding add_balance
add-decides c p s = elim (Bool-cases (leb_ℤ p.amount (pos 0))) [
  | inl low ↦
      let not_positive : ltb_ℤ (pos 0) p.amount ≡ false = ground (arith, low) in
      rw (low, not_positive) (sym (and_false c))
  | inr high ↦
      let positive : ltb_ℤ (pos 0) p.amount ≡ true = ground (arith, high) in
      rw (high, positive)
        (elim (Option-cases (find_wallet p.user_id s)) [
          | inl new ↦ elim (Bool-cases c) [
            | inl done ↦ rw (new, done) refl
            | inr undone ↦ rw (new, undone) refl
          ]
          | inr (w, found) ↦ elim (Bool-cases c) [
            | inl done ↦ rw (found, done) refl
            | inr undone ↦ rw (found, undone) refl
          ]
        ])
]

serve-grants :
    (r : MoneyRequest) (s : WalletStore) → is_ok (serve r s).0 ≡ grants r (λ u. balance_of u s)
serve-grants (take_money c u x t i) s =
    ap (λ r. is_ok r.0) (charge_lem c u x t i s)
    ∙ deduct-decides c (params_of u (record { amount = x; reference_type = t; reference_id = i })) s
serve-grants (give_money c u x t i) s =
    ap (λ r. is_ok r.0) (credit_lem c u x t i s)
    ∙ add-decides c (params_of u (record { amount = x; reference_type = t; reference_id = i })) s

serve-done :
    (r : MoneyRequest) (s : WalletStore)
    → IsValid s
    → is_ok (serve r s).0 ≡ true
    → IsValid (serve r s).1
      × ((v : ℕ) → balance_of v (serve r s).1 ≡ moved r (λ u. balance_of u s) v)
serve-done (take_money c u x t i) s good h = charge_ok_lem c u x t i s good h
serve-done (give_money c u x t i) s good h = credit_ok_lem c u x t i s good h

serve-undone :
    (r : MoneyRequest) (s : WalletStore)
    → IsValid s
    → is_ok (serve r s).0 ≡ false
    → (serve r s).1 ≡ s
serve-undone (take_money c u x t i) s good h = charge_refused_lem c u x t i s good h
serve-undone (give_money c u x t i) s good h = credit_refused_lem c u x t i s good h

-- One request.
serve-moves :
    (r : MoneyRequest) (s : WalletStore)
    → IsValid s
    → IsValid (serve r s).1
      × ((v : ℕ) → balance_of v (serve r s).1 ≡ next_balances r (λ u. balance_of u s) v)
serve-moves r s good = elim (Bool-cases (is_ok (serve r s).0)) [
  | inl done ↦
      let granted = sym (serve-grants r s) ∙ done in
      let (good', moves) = serve-done r s good done in (good', λ v. rw granted (moves v))
  | inr undone ↦
      let refused_it = sym (serve-grants r s) ∙ undone in
      let same = serve-undone r s good undone in
      (subst IsValid (sym same) good, λ v. rw refused_it (rw same refl))
]

-- The wallets keep what the abstract service promises: after any requests from valid tables, each
-- request has been granted or refused, and each user has the balance, as the balances alone decide.
pub served-promised :
    (rs : List MoneyRequest) (s : WalletStore) (v : ℕ)
    → IsValid s
    → ((served rs s).0 ≡ (promised rs (λ u. balance_of u s)).0)
      × (balance_of v (served rs s).1 ≡ (promised rs (λ u. balance_of u s)).1 v)
served-promised [] s v good = (refl, refl)
served-promised (r ∷ rs) s v good =
    let (good', moves) = serve-moves r s good in
    let same : (λ u. balance_of u (serve r s).1) ≡ next_balances r (λ u. balance_of u s) =
      fun_ext moves in
    let (answers, balances) = served-promised rs (serve r s).1 v good' in
    (
      ap₂ ◌∷◌ (serve-grants r s) (answers ∙ ap (λ m. (promised rs m).0) same),
      balances ∙ ap (λ m. (promised rs m).1 v) same,
    )
