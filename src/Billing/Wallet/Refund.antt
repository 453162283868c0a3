-- ===== src/Billing/Wallet/Refund.antt =====
-- When a deduction goes through, and that a refund takes it back.
use webrana_cloud.Billing.Wallet.Methods.{
  balance_of, find-write_self, Posts, post-Posts, refund_balance-Posts, Posts-balance,
}
use webrana_cloud.Base.{
  Bool-cases, Option-cases, ℤ, pos, ◌+ℤ◌, ◌-ℤ◌, neg, abs, ◌≤ℤ◌, ◌<ℤ◌, ltb_ℤ, leb_ℤ, int_laws, ok,
  err, is_ok, find, find_sound, ℕ, ◌≡◌, refl, sym, ap, subst, inl, inr, Bool, true, false, some,
  List, [], ◌∷◌, arith,
}
use webrana_cloud.Billing.Wallet.{
  credit, debit, UserWallet, WalletTransaction, WalletStore, insufficient_balance, BalanceParams,
  of_user, has_id, find_wallet, with_balance, new_transaction, post, add_balance, deduct_balance,
  get_wallet_by_id, refund_params, refund_balance,
}
use webrana_cloud.Billing.Wallet.Ledger.{Explains, IsValid, found-below}

-- `deductBalance` on a wallet that was found, with the tests written as orders: it posts the debit
-- exactly when the amount is positive and covered.
pub deduct_balance-covered :
    (p : BalanceParams) (s : WalletStore) {w : UserWallet}
    → find_wallet p.user_id s ≡ some w
    → pos 0 <ℤ p.amount
    → p.amount ≤ℤ w.balance
    → deduct_balance true p s ≡ post w debit (neg p.amount) (w.balance -ℤ p.amount) p s
unfolding deduct_balance
deduct_balance-covered p s {w} e positive covered =
    let a : leb_ℤ p.amount (pos 0) ≡ false = ground arith in
    let b : ltb_ℤ w.balance p.amount ≡ false = ground arith in rw (a, e, b) refl

-- More than the balance is refused with both numbers, and nothing changes.
pub deduct_balance-short :
    (commits : Bool) (p : BalanceParams) (s : WalletStore) {w : UserWallet}
    → find_wallet p.user_id s ≡ some w
    → pos 0 <ℤ p.amount
    → w.balance <ℤ p.amount
    → deduct_balance commits p s ≡ (err (insufficient_balance w.balance p.amount), s)
unfolding deduct_balance
deduct_balance-short commits p s {w} e positive short =
    let a : leb_ℤ p.amount (pos 0) ≡ false = ground arith in
    let b : ltb_ℤ w.balance p.amount ≡ true = ground arith in rw (a, e, b) refl

-- In valid tables the wallet that a user's look-up finds is found by its id too.
pub find-has_id :
    (u n : ℕ) (ts : List WalletTransaction) (ws : List UserWallet) {w : UserWallet}
    → Explains ts n ws
    → find (of_user u) ws ≡ some w
    → find (has_id w.id) ws ≡ some w
find-has_id u n ts [] h e = cc
find-has_id u n ts (x ∷ ws) {w} h e = elim (Bool-cases (of_user u x)) [
  | inl hit ↦ let same : x ≡ w = cc (rw hit at e) in ground (arith, same)
  | inr miss ↦
      let e' : find (of_user u) ws ≡ some w = rw miss at e in
      ground (arith, found-below u ts x.id ws h.4 e', find-has_id u x.id ts ws h.4 e')
]

-- `addBalance` to a wallet that was found.
add_balance-found :
    (p : BalanceParams) (s : WalletStore) {w : UserWallet}
    → find_wallet p.user_id s ≡ some w
    → pos 0 <ℤ p.amount
    → add_balance true p s ≡ post w credit p.amount (w.balance +ℤ p.amount) p s
unfolding add_balance
add_balance-found p s {w} e positive =
    let a : leb_ℤ p.amount (pos 0) ≡ false = ground arith in rw (a, e) refl

-- A positive amount is always credited, if the database commits.
pub add_balance_ok :
    (p : BalanceParams) (s : WalletStore)
    → pos 0 <ℤ p.amount
    → is_ok (add_balance true p s).0 ≡ true
unfolding add_balance
add_balance_ok p s positive =
    let a : leb_ℤ p.amount (pos 0) ≡ false = ground arith in
    elim (Option-cases (find_wallet p.user_id s)) [
      | inl new ↦ rw (a, new) refl
      | inr (w, old) ↦ rw (a, old) refl
    ]

restored : (a d : ℤ) {b c : ℤ} → pos 0 <ℤ d → b ≡ a +ℤ neg d → c ≡ b +ℤ abs (neg d) → c ≡ a
restored a d positive e f = grind (int_laws, e, f)

module _ (p : BalanceParams) (s : WalletStore) {w : UserWallet} (v : IsValid s)
    (e : find_wallet p.user_id s ≡ some w) (positive : pos 0 <ℤ p.amount)
    (covered : p.amount ≤ℤ w.balance) where
  -- The transaction that the deduction records, and the tables after it.
  abbrev recorded : WalletTransaction
  recorded = new_transaction s.next_id w.id debit (neg p.amount) w.balance (w.balance -ℤ p.amount) p

  abbrev deducted : WalletStore
  deducted = (post w debit (neg p.amount) (w.balance -ℤ p.amount) p s).1

  owner : w.user_id ≡ p.user_id
  owner = ground (arith, find_sound (of_user p.user_id) s.wallets e)

  deducted-Posts : Posts p.user_id (neg p.amount) s (ok recorded, deducted)
  deducted-Posts =
      post-Posts p.user_id debit (neg p.amount) (w.balance -ℤ p.amount) p s v e (grind int_laws)
        (grind int_laws)

  found_after : find_wallet p.user_id deducted ≡ some (with_balance (w.balance -ℤ p.amount) w)
  found_after =
      find-write_self p.user_id s.next_id (w.balance -ℤ p.amount) s.transactions s.wallets
        v.explained e

  found_by_id : get_wallet_by_id w.id deducted ≡ some (with_balance (w.balance -ℤ p.amount) w)
  found_by_id =
      find-has_id p.user_id deducted.next_id deducted.transactions deducted.wallets
        deducted-Posts.0.explained found_after

  refund_ok : is_ok (refund_balance true recorded deducted).0 ≡ true
  unfolding refund_balance
  refund_ok = rw found_by_id (
      ap (λ r. is_ok r.0)
        (add_balance-found (refund_params (with_balance (w.balance -ℤ p.amount) w) recorded)
          deducted {w = with_balance (w.balance -ℤ p.amount) w}
          (subst (λ u. find_wallet u deducted ≡ some (with_balance (w.balance -ℤ p.amount) w))
            (sym owner) found_after)
          (ground arith)))

  refund_restores :
      IsValid (refund_balance true recorded deducted).1
      × (balance_of p.user_id (refund_balance true recorded deducted).1 ≡ balance_of p.user_id s)
  refund_restores =
      let (valid, moved) =
        Posts-balance w.user_id (abs (neg p.amount)) deducted
          (refund_balance true recorded deducted) refund_ok
          (refund_balance-Posts true recorded deducted deducted-Posts.0 found_by_id) in
      let moved' : balance_of p.user_id (refund_balance true recorded deducted).1
          ≡ balance_of p.user_id deducted +ℤ abs (neg p.amount) =
        subst
          (λ u.
            balance_of u (refund_balance true recorded deducted).1
            ≡ balance_of u deducted +ℤ abs (neg p.amount))
          owner moved in
      (valid, restored (balance_of p.user_id s) p.amount positive deducted-Posts.3 moved')

  -- Where the database commits both, a deduction of a covered positive amount goes through, and
  -- refunding it goes through too, restores the user's balance and keeps the tables valid.
  pub refund-deduct :
      (t : WalletTransaction) × ((deduct_balance true p s).0 ≡ ok t)
      × (is_ok (refund_balance true t (deduct_balance true p s).1).0 ≡ true)
      × IsValid (refund_balance true t (deduct_balance true p s).1).1
      × (balance_of p.user_id (refund_balance true t (deduct_balance true p s).1).1
          ≡ balance_of p.user_id s)
  refund-deduct =
      rw (deduct_balance-covered p s e positive covered)
        (recorded, refl, refund_ok, refund_restores.0, refund_restores.1)
