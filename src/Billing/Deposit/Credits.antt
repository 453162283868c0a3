-- ===== src/Billing/Deposit/Credits.antt =====
-- How often a deposit is credited, however the deliveries of its webhook interleave.
use webrana_cloud.Base.{
  ◌==◌, if◌then◌else◌, is_some, Bool-cases, Option-cases, pos, leb_ℤ, is_ok, Result-cases,
  update_row, update_where, count_where, count_where-update_row, ℕ, ◌+◌, ◌≤◌, ◌<◌, ◌≡◌, refl, ◌∙◌,
  inl, inr, Bool, true, false, ◌&&◌, Option, none, some, List, [], ◌∷◌, arith,
}
use webrana_cloud.Billing.Wallet.{
  ReferenceType, WalletTransaction, WalletStore, find_wallet, add_balance,
}
use webrana_cloud.Billing.Deposit.Deliveries.{
  DeliveryWrites, is_unclaimed, mark_paid, deposit_params, with_bonus, mark_failed, settle_deposit,
}
use webrana_cloud.Billing.Deposit.{Deposit, DepositStore, has_deposit_id}

abbrev pub is_deposit_type : ReferenceType → Bool
is_deposit_type ReferenceType.deposit = true
is_deposit_type _ = false

abbrev pub refers_to : ℕ → Option ℕ → Bool
refers_to k none = false
refers_to k (some j) = j == k

-- A wallet transaction that credits the deposit `k`.
abbrev pub is_credit_of : ℕ → WalletTransaction → Bool
is_credit_of k t = is_deposit_type t.reference_type && refers_to k t.reference_id

abbrev pub credited : ℕ → WalletStore → ℕ
credited k w = count_where (is_credit_of k) w.transactions

abbrev pub is_processed : ℕ → Deposit → Bool
is_processed k d = has_deposit_id k d && is_some d.processed_at

abbrev pub processed : ℕ → DepositStore → ℕ
processed k s = count_where (is_processed k) s.deposits

-- One credit is recorded if the call goes through, and none otherwise.
pub credited-add_balance :
    (k : ℕ) (commits : Bool) (d : Deposit) (w : WalletStore)
    → credited k (add_balance commits (deposit_params d) w).1
      ≡ (if is_ok (add_balance commits (deposit_params d) w).0 && d.id == k then 1 else 0)
        + credited k w
unfolding add_balance
credited-add_balance k commits d w = elim (Bool-cases (leb_ℤ d.amount (pos 0))) [
  | inl bad ↦ rw bad (omega arith)
  | inr good ↦ elim (Option-cases (find_wallet d.user_id w)) [
    | inl new ↦ rw (good, new) (ground arith)
    | inr (x, old) ↦ rw (good, old) (ground arith)
  ]
]

-- The claim marks exactly the rows that it counts.
pub processed-claim :
    (k now j : ℕ) (ds : List Deposit)
    → count_where (is_processed k) (update_where (is_unclaimed j) (mark_paid now) ds)
      ≡ count_where (is_processed k) ds + (if j == k then count_where (is_unclaimed j) ds else 0)
processed-claim k now j [] = ground arith
processed-claim k now j (d ∷ ds) = ground (arith, processed-claim k now j ds)

-- The wallet after the credit and its handler.
pub settle_deposit-wallet :
    (a : DeliveryWrites) (d : Deposit) (s : DepositStore)
    → ((settle_deposit a d s).1.wallet ≡ (
        if a.bonus_saved
        then (add_balance a.credit_commits (deposit_params d) s.wallet).1
        else s.wallet))
      × (is_ok (settle_deposit a d s).0
          ≡ (a.bonus_saved && is_ok (add_balance a.credit_commits (deposit_params d) s.wallet).0))
unfolding settle_deposit
settle_deposit-wallet a d s = ground arith

-- What both writes to the row keep holds of the rows after the credit and its handler.
pub settle_deposit-rows :
    (P : List Deposit → Type 0) (a : DeliveryWrites) (d : Deposit) (s : DepositStore)
    → ((ds : List Deposit) → P ds → P (update_row (has_deposit_id d.id) (with_bonus (pos 0)) ds))
    → ((ds : List Deposit) → P ds → P (update_row (has_deposit_id d.id) mark_failed ds))
    → P s.deposits
    → P (settle_deposit a d s).1.deposits
unfolding settle_deposit
settle_deposit-rows P a d s bonus fails h =
    let q = has_deposit_id d.id in
    elim (Bool-cases a.bonus_saved) [
      | inl saved ↦
          rw saved
            (elim (Result-cases (add_balance a.credit_commits (deposit_params d) s.wallet).0) [
              | inl (t, went) ↦ rw went (bonus s.deposits h)
              | inr (e, refused) ↦ rw refused (elim (Bool-cases a.failure_saved) [
                | inl noted ↦ rw noted (fails _ (bonus s.deposits h))
                | inr lost ↦ rw lost (bonus s.deposits h)
              ])
            ])
      | inr unsaved ↦ rw unsaved (elim (Bool-cases a.failure_saved) [
        | inl noted ↦ rw noted (fails s.deposits h)
        | inr lost ↦ rw lost h
      ])
    ]

-- Neither the credit nor its handler changes which rows are processed.
pub processed-settle_deposit :
    (k : ℕ) (a : DeliveryWrites) (d : Deposit) (s : DepositStore)
    → processed k (settle_deposit a d s).1 ≡ processed k s
processed-settle_deposit k a d s =
    let p = is_processed k in
    let q = has_deposit_id d.id in
    settle_deposit-rows (λ ds. count_where p ds ≡ processed k s) a d s
      (λ ds h. count_where-update_row p q (with_bonus (pos 0)) ds (λ x. refl) ∙ h)
      (λ ds h. count_where-update_row p q mark_failed ds (λ x. refl) ∙ h) refl

-- The deposits' ids fall along the table, below the next one.
abbrev pub Ordered : ℕ → List Deposit → Type 0
Ordered n [] = Unit
Ordered n (d ∷ ds) = (d.id < n) × Ordered d.id ds

processed-above :
    (k n : ℕ) (ds : List Deposit) → Ordered n ds → n ≤ k → count_where (is_processed k) ds ≡ 0
processed-above k n [] h le = refl
processed-above k n (d ∷ ds) h le =
    ground (arith, processed-above k d.id ds h.1 (omega (arith, h.0)))

pub processed-le-one :
    (k n : ℕ) (ds : List Deposit) → Ordered n ds → count_where (is_processed k) ds ≤ 1
processed-le-one k n [] h = omega arith
processed-le-one k n (d ∷ ds) h =
    ground (arith, processed-le-one k d.id ds h.1, processed-above k d.id ds h.1)

pub Ordered-update_where :
    (q : Deposit → Bool) (f : Deposit → Deposit) (n : ℕ) (ds : List Deposit)
    → ((x : Deposit) → (f x).id ≡ x.id)
    → Ordered n ds
    → Ordered n (update_where q f ds)
Ordered-update_where q f n [] key h = tt
Ordered-update_where q f n (d ∷ ds) key h =
    ground (arith, key d, Ordered-update_where q f d.id ds key h.1)

pub Ordered-update_row :
    (q : Deposit → Bool) (f : Deposit → Deposit) (n : ℕ) (ds : List Deposit)
    → ((x : Deposit) → (f x).id ≡ x.id)
    → Ordered n ds
    → Ordered n (update_row q f ds)
Ordered-update_row q f n [] key h = tt
Ordered-update_row q f n (d ∷ ds) key h =
    ground (arith, key d, Ordered-update_row q f d.id ds key h.1)

settle_deposit-next_deposit :
    (a : DeliveryWrites) (d : Deposit) (s : DepositStore)
    → (settle_deposit a d s).1.next_deposit ≡ s.next_deposit
unfolding settle_deposit
settle_deposit-next_deposit a d s = ground arith

pub Ordered-settle_deposit :
    (a : DeliveryWrites) (d : Deposit) (s : DepositStore)
    → Ordered s.next_deposit s.deposits
    → Ordered (settle_deposit a d s).1.next_deposit (settle_deposit a d s).1.deposits
Ordered-settle_deposit a d s h =
    let q = has_deposit_id d.id in
    rw (settle_deposit-next_deposit a d s) (
      settle_deposit-rows (Ordered s.next_deposit) a d s
        (λ ds o. Ordered-update_row q (with_bonus (pos 0)) s.next_deposit ds (λ x. refl) o)
        (λ ds o. Ordered-update_row q mark_failed s.next_deposit ds (λ x. refl) o) h)

-- A settled deposit is credited at most once more.
pub credited-settle_deposit :
    (k : ℕ) (a : DeliveryWrites) (d : Deposit) (s : DepositStore)
    → credited k (settle_deposit a d s).1.wallet
      ≤ (if d.id == k then 1 else 0) + credited k s.wallet
credited-settle_deposit k a d s =
    rw (settle_deposit-wallet a d s).0
      (ground (arith, credited-add_balance k a.credit_commits d s.wallet))
