-- ===== src/Billing/Deposit/Retry.antt =====
-- One delivery of the webhook, and what a second one does.
use webrana_cloud.Base.{
  ◌==◌, is_some, Bool-cases, Option-cases, ==_refl, pos, ◌+ℤ◌, ◌<ℤ◌, ok, err, is_ok, find,
  find-update_row_keeps, find-update_where_hit, count_where-pos, ℕ, ◌≡◌, refl, ap, ◌∙◌, ◌⊎◌, inl,
  inr, Bool, true, false, some, arith,
}
use webrana_cloud.Billing.Wallet.{add_balance}
use webrana_cloud.Billing.Wallet.Ledger.{IsValid}
use webrana_cloud.Billing.Wallet.Methods.{balance_of, add_balance-Posts, Posts-balance}
use webrana_cloud.Billing.Wallet.Refund.{add_balance_ok}
use webrana_cloud.Billing.Deposit.Deliveries.{
  DeliveryWrites, is_unclaimed, mark_paid, claim, deposit_params, with_bonus, mark_failed,
  settle_deposit, process_found, process_paid_deposit,
}
use webrana_cloud.Billing.Deposit.{
  Deposit, DepositStore, database_error, has_deposit_id, has_reference,
}
use webrana_cloud.Billing.Deposit.Credits.{settle_deposit-wallet, settle_deposit-rows}

abbrev pub is_done : Deposit → Bool
is_done d = is_some d.processed_at

-- A row that was processed is looked up as processed after the credit and its handler.
settle_deposit-done :
    (r : ℕ) (a : DeliveryWrites) (x : Deposit) (s : DepositStore) {d : Deposit}
    → find (has_reference r) s.deposits ≡ some d
    → is_done d ≡ true
    → (b : Deposit) × (find (has_reference r) (settle_deposit a x s).1.deposits ≡ some b)
      × (is_done b ≡ true)
settle_deposit-done r a x s e done =
    let p = has_reference r in
    let q = has_deposit_id x.id in
    settle_deposit-rows (λ ds. (b : Deposit) × (find p ds ≡ some b) × (is_done b ≡ true)) a x s
      (λ ds (b, found, still).
        find-update_row_keeps p is_done q (with_bonus (pos 0)) ds (λ _. refl) (λ _ h. h) found
          still)
      (λ ds (b, found, still).
        find-update_row_keeps p is_done q mark_failed ds (λ _. refl) (λ _ h. h) found still)
      (_, e, done)

claimed_row :
    (r now : ℕ) (s : DepositStore) {d : Deposit}
    → find (has_reference r) s.deposits ≡ some d
    → is_done d ≡ false
    → find (has_reference r) (claim now d.id s).1.deposits ≡ some (mark_paid now d)
unfolding claim
claimed_row r now s {d} e fresh =
    find-update_where_hit (has_reference r) (is_unclaimed d.id) (mark_paid now) s.deposits
      (λ _. refl) e (rw (==_refl, fresh) refl)

process_found-done :
    (r now : ℕ) (a : DeliveryWrites) (s : DepositStore) {d : Deposit}
    → a.claim_saved ≡ true
    → find (has_reference r) s.deposits ≡ some d
    → is_done d ≡ false
    → (b : Deposit) × (find (has_reference r) (process_found now a d s).1.deposits ≡ some b)
      × (is_done b ≡ true)
unfolding process_found
process_found-done r now a s {d} saved e fresh =
    let row = claimed_row r now s e fresh in
    elim (Bool-cases ((claim now d.id s).0 == 0)) [
      | inl none_left ↦ rw (saved, none_left) (mark_paid now d, row, refl)
      | inr mine ↦ rw (saved, mine) (settle_deposit-done r a d (claim now d.id s).1 row refl)
    ]

process_found-unsaved :
    (now : ℕ) (a : DeliveryWrites) (d : Deposit) (s : DepositStore)
    → a.claim_saved ≡ false
    → process_found now a d s ≡ (err database_error, s)
unfolding process_found
process_found-unsaved now a d s unsaved = rw unsaved refl

-- Of two deliveries for a reference that is known, either the first raises at its claim and changes
-- nothing, or the second reports success and changes nothing, whichever way the first one ended.
pub process_paid_deposit-again :
    (r now now' : ℕ) (a a' : DeliveryWrites) (s : DepositStore)
    → is_some (find (has_reference r) s.deposits) ≡ true
    → let s' = (process_paid_deposit now a r s).1 in
      (process_paid_deposit now a r s ≡ (err database_error, s))
      ⊎ (process_paid_deposit now' a' r s' ≡ (ok true, s'))
unfolding process_paid_deposit
process_paid_deposit-again r now now' a a' s known =
    elim (Option-cases (find (has_reference r) s.deposits)) [
      | inl missing ↦ cc (rw missing at known)
      | inr (d, e) ↦ elim (Bool-cases (is_done d)) [
        | inl done ↦ inr (rw (e, done) (rw (e, done) refl))
        | inr fresh ↦ elim (Bool-cases a.claim_saved) [
          | inl saved ↦
              let (b, found, done) = process_found-done r now a s saved e fresh in
              inr (rw (e, fresh) (rw (found, done) refl))
          | inr unsaved ↦ inl (rw (e, fresh) (process_found-unsaved now a d s unsaved))
        ]
      ]
    ]

settle_deposit_ok :
    (a : DeliveryWrites) (d : Deposit) (s : DepositStore)
    → a.bonus_saved ≡ true
    → is_ok (add_balance a.credit_commits (deposit_params d) s.wallet).0 ≡ true
    → (settle_deposit a d s).0 ≡ ok true
unfolding settle_deposit
settle_deposit_ok a d s saved good = ground arith

-- A successful claim, and the wallet that the credit then sees.
claim_mine :
    (r now : ℕ) (s : DepositStore) {d : Deposit}
    → find (has_reference r) s.deposits ≡ some d
    → is_done d ≡ false
    → ((claim now d.id s).0 == 0 ≡ false) × ((claim now d.id s).1.wallet ≡ s.wallet)
unfolding claim
claim_mine r now s {d} e fresh =
    let counted =
      count_where-pos (has_reference r) (is_unclaimed d.id) s.deposits e
        (rw (==_refl, fresh) refl) in
    (ground (arith, counted), refl)

-- The first delivery for a positive amount, where the database takes the claim, the bonus and the
-- credit, credits the owner with exactly that amount.
pub process_paid_deposit-credits :
    (r now : ℕ) (a : DeliveryWrites) (s : DepositStore) {d : Deposit}
    → IsValid s.wallet
    → find (has_reference r) s.deposits ≡ some d
    → is_done d ≡ false
    → pos 0 <ℤ d.amount
    → a.claim_saved ≡ true
    → a.bonus_saved ≡ true
    → a.credit_commits ≡ true
    → let (result, s') = process_paid_deposit now a r s in
      (result ≡ ok true)
      × IsValid s'.wallet
      × (balance_of d.user_id s'.wallet ≡ balance_of d.user_id s.wallet +ℤ d.amount)
unfolding process_paid_deposit process_found
process_paid_deposit-credits r now a s {d} v e fresh positive claims bonus commits =
    let (mine, same) = claim_mine r now s e fresh in
    let s' = (claim now d.id s).1 in
    let made = add_balance a.credit_commits (deposit_params d) s'.wallet in
    let good : is_ok made.0 ≡ true =
      rw commits (add_balance_ok (deposit_params d) s'.wallet positive) in
    let (valid, moved) =
      Posts-balance d.user_id d.amount s'.wallet made good
        (add_balance-Posts a.credit_commits (deposit_params d) s'.wallet (rw same v)) in
    let paid_in : (settle_deposit a d s').1.wallet ≡ made.1 =
      (settle_deposit-wallet a d s').0 ∙ rw bonus refl in
    rw (e, fresh, claims, mine)
      (
        settle_deposit_ok a d s' bonus good,
        rw paid_in valid,
        rw paid_in (moved ∙ ap (λ w. balance_of d.user_id w +ℤ d.amount) same),
      )
