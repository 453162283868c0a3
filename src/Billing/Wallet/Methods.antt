-- ===== src/Billing/Wallet/Methods.antt =====
-- The wallet methods keep the tables valid, on every branch.
use webrana_cloud.Base.{
  ◌==◌, if◌then◌else◌, Bool-cases, Option-cases, ℤ, pos, ◌+ℤ◌, ◌-ℤ◌, neg, abs, ◌≤ℤ◌, ltb_ℤ, leb_ℤ,
  int_laws, Result, ok, err, is_ok, settle, raise_if-post, or_raise-post, find, update_row, ℕ, suc,
  ◌<◌, ◌≡◌, refl, sym, ap, ◌≢◌, inl, inr, Bool, true, false, none, some, List, [], ◌∷◌, arith,
}
use webrana_cloud.Billing.Wallet.{
  TransactionType, credit, debit, UserWallet, WalletTransaction, WalletStore, WalletError, aborted,
  BalanceParams, of_user, has_id, find_wallet, new_wallet, create_wallet, get_or_create_wallet,
  with_balance, new_transaction, post, add_balance_tx, add_balance, deduct_balance_tx,
  deduct_balance, get_wallet_by_id, refund_params, refund_balance,
}
use webrana_cloud.Billing.Wallet.Ledger.{
  ledger, Explains, IsValid, found-below, found-explained, Explains-mono, Audited-mono,
  ledger-fresh, Explains-write,
}

-- Creating a wallet for a user without one.
create_wallet-IsValid :
    (u : ℕ) (s : WalletStore) → IsValid s → find_wallet u s ≡ none → IsValid (create_wallet u s).1
create_wallet-IsValid u s v e = record {
  explained = (
    omega arith,
    e,
    sym (ledger-fresh s.next_id s.transactions v.audited),
    omega arith,
    v.explained,
  );
  audited = Audited-mono s.next_id (suc s.next_id) s.transactions (omega arith) v.audited;
}

-- Posting to the wallet that was found, to a balance that is not negative.
pub post-IsValid :
    (u : ℕ) (kind : TransactionType) (amount b : ℤ) (p : BalanceParams) (s : WalletStore)
    {w : UserWallet}
    → IsValid s
    → find_wallet u s ≡ some w
    → b ≡ w.balance +ℤ amount
    → pos 0 ≤ℤ b
    → IsValid (post w kind amount b p s).1
post-IsValid u kind amount b p s {w} v e total nonneg =
    let t = new_transaction s.next_id w.id kind amount w.balance b p in
    let s' = (post w kind amount b p s).1 in
    let below : w.id < s.next_id = found-below u s.transactions s.next_id s.wallets v.explained e in
    let sums : (w.balance ≡ ledger w.id s.transactions) × (pos 0 ≤ℤ w.balance) =
      found-explained u s.transactions s.next_id s.wallets v.explained e in
    record {
      explained =
          Explains-mono s'.transactions s.next_id (suc s.next_id) s'.wallets (omega arith) (
            Explains-write u t s.transactions s.next_id s.wallets b v.explained e refl total
              nonneg);
      audited = (
        omega (arith, below),
        sums.0,
        total,
        nonneg,
        Audited-mono s.next_id (suc s.next_id) s.transactions (omega arith) v.audited,
      );
    }

pub get_or_create_wallet-IsValid :
    (u : ℕ) (s : WalletStore) → IsValid s → IsValid (get_or_create_wallet u s).1
unfolding get_or_create_wallet
get_or_create_wallet-IsValid u s v = elim (Option-cases (find_wallet u s)) [
  | inl new ↦ rw new (create_wallet-IsValid u s v new)
  | inr (w, old) ↦ rw old v
]

-- A user's balance; without a wallet it is 0.
abbrev pub balance_of : ℕ → WalletStore → ℤ
balance_of u s = elim (find_wallet u s) [ none ↦ pos 0 | some w ↦ w.balance ]

-- Writing by the id of a wallet changes no other user's row, and that user's row as asked.
pub find-write_self :
    (u n : ℕ) (b : ℤ) (ts : List WalletTransaction) (ws : List UserWallet) {w : UserWallet}
    → Explains ts n ws
    → find (of_user u) ws ≡ some w
    → find (of_user u) (update_row (has_id w.id) (with_balance b) ws) ≡ some (with_balance b w)
find-write_self u n b ts [] h e = cc
find-write_self u n b ts (x ∷ ws) {w} h e = elim (Bool-cases (of_user u x)) [
  | inl hit ↦ let same : x ≡ w = cc (rw hit at e) in ground (arith, same)
  | inr miss ↦
      let e' : find (of_user u) ws ≡ some w = rw miss at e in
      ground (arith, found-below u ts x.id ws h.4 e', find-write_self u x.id b ts ws h.4 e')
]

find-write_ne :
    (u v n : ℕ) (b : ℤ) (ts : List WalletTransaction) (ws : List UserWallet) {w : UserWallet}
    → Explains ts n ws
    → find (of_user u) ws ≡ some w
    → v ≢ u
    → find (of_user v) (update_row (has_id w.id) (with_balance b) ws) ≡ find (of_user v) ws
find-write_ne u v n b ts [] h e ne = cc
find-write_ne u v n b ts (x ∷ ws) {w} h e ne = elim (Bool-cases (of_user u x)) [
  | inl hit ↦ let same : x ≡ w = cc (rw hit at e) in ground (arith, same)
  | inr miss ↦
      let e' : find (of_user u) ws ≡ some w = rw miss at e in
      ground (arith, found-below u ts x.id ws h.4 e', find-write_ne u v x.id b ts ws h.4 e' ne)
]

same_user : (x u : ℕ) → (x == u) ≡ true → x ≡ u
same_user x u h = ground arith

ne_of_test : (x u : ℕ) → (x == u) ≡ false → x ≢ u
ne_of_test x u h = ground arith

-- What a call that began at `s` has done, by how it ended: an exception leaves the tables as they
-- were; otherwise they are valid, the transaction records the amount, and the balance of user `u`
-- alone has moved, by that amount.
abbrev pub Posts : ℕ → ℤ → WalletStore → Result WalletError WalletTransaction × WalletStore → Type 0
Posts u d s (err _, s') = s' ≡ s
Posts u d s (ok t, s') =
    IsValid s'
    × (t.amount ≡ d)
    × (t.balance_after ≡ balance_of u s')
    × (balance_of u s' ≡ balance_of u s +ℤ d)
    × ((v : ℕ) → find_wallet v s' ≡ (if v == u then find_wallet u s' else find_wallet v s))

pub post-Posts :
    (u : ℕ) (kind : TransactionType) (amount b : ℤ) (p : BalanceParams) (s : WalletStore)
    {w : UserWallet}
    → IsValid s
    → find_wallet u s ≡ some w
    → b ≡ w.balance +ℤ amount
    → pos 0 ≤ℤ b
    → Posts u amount s (post w kind amount b p s)
post-Posts u kind amount b p s {w} v e total nonneg =
    let s' = (post w kind amount b p s).1 in
    let self = find-write_self u s.next_id b s.transactions s.wallets v.explained e in
    (
      post-IsValid u kind amount b p s v e total nonneg,
      refl,
      ground (arith, self),
      ground (arith, self, e, total),
      λ x. elim (Bool-cases (x == u)) [
        | inl it ↦ rw it (ap (λ y. find_wallet y s') (same_user x u it))
        | inr other ↦ rw other (
            find-write_ne u x s.next_id b s.transactions s.wallets v.explained e
              (ne_of_test x u other))
      ],
    )

-- A transaction that is rolled back leaves the tables as they were.
settle-Posts :
    (u : ℕ) (d : ℤ) (s : WalletStore) (commits : Bool)
    (r : Result WalletError WalletTransaction × WalletStore)
    → Posts u d s r
    → Posts u d s (settle commits aborted s r)
settle-Posts u d s true (ok t, s') h = h
settle-Posts u d s false (ok t, s') h = refl
settle-Posts u d s commits (err e, s') h = refl

-- A call on the tables in which a missing wallet has been created.
Posts-create :
    (u : ℕ) (d : ℤ) (s : WalletStore) (r : Result WalletError WalletTransaction × WalletStore)
    → find_wallet u s ≡ none
    → is_ok r.0 ≡ true
    → Posts u d (create_wallet u s).1 r
    → Posts u d s r
Posts-create u d s (ok t, s') new good h =
    (h.0, h.1, h.2, ground (arith, new, h.3), λ x. ground (arith, h.4 x, new))
Posts-create u d s (err e, s') new good h = cc

add_balance_tx-Posts :
    (p : BalanceParams) (s : WalletStore)
    → IsValid s
    → leb_ℤ p.amount (pos 0) ≡ false
    → Posts p.user_id p.amount s (add_balance_tx p s)
unfolding add_balance_tx
add_balance_tx-Posts p s v positive = elim (Option-cases (find_wallet p.user_id s)) [
  | inl new ↦ rw new (
      let w = new_wallet s.next_id p.user_id in
      let s' = (create_wallet p.user_id s).1 in
      let b = pos 0 +ℤ p.amount in
      Posts-create p.user_id p.amount s (post w credit p.amount b p s') new refl (
        post-Posts p.user_id credit p.amount b p s' {w = w}
          (create_wallet-IsValid p.user_id s v new) (ground arith) refl (grind int_laws)))
  | inr (w, old) ↦ rw old (
      let sums : (w.balance ≡ ledger w.id s.transactions) × (pos 0 ≤ℤ w.balance) =
        found-explained p.user_id s.transactions s.next_id s.wallets v.explained old in
      post-Posts p.user_id credit p.amount (w.balance +ℤ p.amount) p s v old refl
        (grind (int_laws, sums.1)))
]

-- `addBalance` from tables that are valid.
pub add_balance-Posts :
    (commits : Bool) (p : BalanceParams) (s : WalletStore)
    → IsValid s
    → Posts p.user_id p.amount s (add_balance commits p s)
unfolding add_balance
add_balance-Posts commits p s v =
    raise_if-post (Posts p.user_id p.amount s) _ _ _ s (λ _. refl)
      (λ positive.
        settle-Posts p.user_id p.amount s commits (add_balance_tx p s)
          (add_balance_tx-Posts p s v positive))

deduct_balance_tx-Posts :
    (p : BalanceParams) (s : WalletStore)
    → IsValid s
    → leb_ℤ p.amount (pos 0) ≡ false
    → Posts p.user_id (neg p.amount) s (deduct_balance_tx p s)
unfolding deduct_balance_tx
deduct_balance_tx-Posts p s v positive =
    or_raise-post (Posts p.user_id (neg p.amount) s) (find_wallet p.user_id s) _ _ s (λ _. refl)
      (λ w e.
        raise_if-post (Posts p.user_id (neg p.amount) s) (ltb_ℤ w.balance p.amount) _ _ s
          (λ _. refl)
          (λ covered.
            post-Posts p.user_id debit (neg p.amount) (w.balance -ℤ p.amount) p s v e
              (grind int_laws) (grind int_laws)))

-- `deductBalance` from tables that are valid.
pub deduct_balance-Posts :
    (commits : Bool) (p : BalanceParams) (s : WalletStore)
    → IsValid s
    → Posts p.user_id (neg p.amount) s (deduct_balance commits p s)
unfolding deduct_balance
deduct_balance-Posts commits p s v =
    raise_if-post (Posts p.user_id (neg p.amount) s) _ _ _ s (λ _. refl)
      (λ positive.
        settle-Posts p.user_id (neg p.amount) s commits (deduct_balance_tx p s)
          (deduct_balance_tx-Posts p s v positive))

-- A refund credits the wallet of the original transaction with its amount, whatever its sign.
pub refund_balance-Posts :
    (commits : Bool) (original : WalletTransaction) (s : WalletStore) {w : UserWallet}
    → IsValid s
    → get_wallet_by_id original.wallet_id s ≡ some w
    → Posts w.user_id (abs original.amount) s (refund_balance commits original s)
unfolding refund_balance
refund_balance-Posts commits original s {w} v e =
    rw e (add_balance-Posts commits (refund_params w original) s v)

pub Posts-balance :
    (u : ℕ) (d : ℤ) (s : WalletStore) (r : Result WalletError WalletTransaction × WalletStore)
    → is_ok r.0 ≡ true
    → Posts u d s r
    → IsValid r.1 × (balance_of u r.1 ≡ balance_of u s +ℤ d)
Posts-balance u d s (ok t, s') good h = (h.0, h.3)
Posts-balance u d s (err e, s') good h = cc

pub Posts-IsValid :
    (u : ℕ) (d : ℤ) (s : WalletStore) (r : Result WalletError WalletTransaction × WalletStore)
    → IsValid s
    → Posts u d s r
    → IsValid r.1
Posts-IsValid u d s (ok t, s') v h = h.0
Posts-IsValid u d s (err e, s') v h = rw h v
