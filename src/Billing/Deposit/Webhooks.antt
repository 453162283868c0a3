-- ===== src/Billing/Deposit/Webhooks.antt =====
-- Deliveries of the payment webhook, handled at the same time by any number of workers, between
-- which the other calls of the service run.
use webrana_cloud.Base.{
  ◌==◌, if◌then◌else◌, is_some, Bool-cases, Option-cases, Result, ok, err, find, update_row,
  count_where, count_where-append, count_where-update_row, count_where-update_where, ℕ, suc, ◌+◌,
  ◌≤◌, ◌≡◌, refl, inl, inr, false, not, Option, none, some, List, [], ◌∷◌, ◌++◌, arith,
}
use webrana_cloud.Billing.Wallet.History.{WalletCall, call}
use webrana_cloud.Billing.Deposit.Others.{for_deposit, credited-call}
use webrana_cloud.Billing.Wallet.{empty_store}
use webrana_cloud.Billing.Deposit.Deliveries.{
  DeliveryWrites, is_unclaimed, mark_paid, claim, settle_deposit,
}
use webrana_cloud.Billing.Deposit.{
  is_pending, Deposit, DepositStore, DepositError, DepositConfig, CreateDepositDto,
  TripayTransaction, CreateWrites, has_deposit_id, has_reference, write_deposits, new_deposit,
  create_deposit, is_due, mark_expired, mark_expired_deposits, cancel_deposit,
}
use webrana_cloud.Billing.Deposit.Rollback.{Creates, create_deposit-Creates}
use webrana_cloud.Billing.Deposit.Credits.{
  credited, is_processed, processed, processed-claim, processed-settle_deposit, Ordered,
  processed-le-one, Ordered-update_where, Ordered-update_row, Ordered-settle_deposit,
  credited-settle_deposit,
}

-- The tables, the rows that workers have looked up and found unprocessed, and the rows whose
-- claim succeeded and whose credit is still to come.
pub record System : Type 0 where
  pub store : DepositStore
  pub found : List Deposit
  pub claimed : List Deposit

-- The worker goes on only if its update has matched a row.
abbrev pub after_claim : ℕ → Deposit → List Deposit → List Deposit
after_claim n d claimed = if n == 0 then claimed else d ∷ claimed

abbrev pub claim_step : ℕ → Deposit → List Deposit → System → System
claim_step now d found y =
    let (n, s) = claim now d.id y.store in
    record { store = s; found = found; claimed = after_claim n d y.claimed }

-- One atomic step of a worker or of another call.
pub data Step : System → System → Type 0 where
  look_up :
      (y : System) (r : ℕ) (d : Deposit)
      → find (has_reference r) y.store.deposits ≡ some d
      → is_some d.processed_at ≡ false
      → Step y (record y { found = d ∷ y.found })
  take :
      (y : System) (now : ℕ) (before : List Deposit) (d : Deposit) (after : List Deposit)
      → y.found ≡ before ++ (d ∷ after)
      → Step y (claim_step now d (before ++ after) y)
  finish :
      (y : System) (a : DeliveryWrites) (before : List Deposit) (d : Deposit) (after : List Deposit)
      → y.claimed ≡ before ++ (d ∷ after)
      → Step y (record y { store = (settle_deposit a d y.store).1; claimed = before ++ after })
  create :
      (y : System) (config : DepositConfig) (now : ℕ) (channels : Option (List ℕ))
      (created : Option TripayTransaction) (a : CreateWrites) (user : ℕ) (dto : CreateDepositDto)
      → Step y
          (record y { store = (create_deposit config now channels created a user dto y.store).1 })
  expire :
      (y : System) (now : ℕ) → Step y (record y { store = (mark_expired_deposits now y.store).1 })
  cancel :
      (y : System) (k user : ℕ) → Step y (record y { store = (cancel_deposit k user y.store).1 })
  -- Any other call of the wallet service, for something else than a deposit.
  spend :
      (y : System) (c : WalletCall)
      → for_deposit c ≡ false
      → Step y (record y { store = record (y.store) { wallet = call c y.store.wallet } })

pub data Reach (y : System) : System → Type 0 where
  start : Reach y y
  next : {u v : System} → Reach y u → Step u v → Reach y v

-- A credit that was made, or is still to come, has a processed row.
pub record Inv (y : System) : Type 0 where
  pub ordered : Ordered y.store.next_deposit y.store.deposits
  pub bounded :
      (k : ℕ)
      → credited k y.store.wallet + count_where (has_deposit_id k) y.claimed ≤ processed k y.store

take-Inv :
    (y : System) (now : ℕ) (d : Deposit) (found : List Deposit)
    → Inv y
    → Inv (claim_step now d found y)
unfolding claim
take-Inv y now d found i = record {
  ordered =
      Ordered-update_where (is_unclaimed d.id) (mark_paid now) y.store.next_deposit y.store.deposits
        (λ x. refl) i.ordered;
  bounded = λ k. ground (arith, i.bounded k, processed-claim k now d.id y.store.deposits);
}

finish-Inv :
    (y : System) (a : DeliveryWrites) (before : List Deposit) (d : Deposit) (after : List Deposit)
    → y.claimed ≡ before ++ (d ∷ after)
    → Inv y
    → Inv (record y { store = (settle_deposit a d y.store).1; claimed = before ++ after })
finish-Inv y a before d after e i = record {
  ordered = Ordered-settle_deposit a d y.store i.ordered;
  bounded = λ k. ground (
    arith,
    i.bounded k,
    credited-settle_deposit k a d y.store,
    processed-settle_deposit k a d y.store,
    e,
    count_where-append (has_deposit_id k) before (d ∷ after),
    count_where-append (has_deposit_id k) before after,
  );
}

-- A row that is not processed may be added.
grow-Inv :
    (y : System) (d : Deposit) (s : DepositStore)
    → s.deposits ≡ d ∷ y.store.deposits
    → s.wallet ≡ y.store.wallet
    → s.next_deposit ≡ suc y.store.next_deposit
    → d.id ≡ y.store.next_deposit
    → d.processed_at ≡ none
    → Inv y
    → Inv (record y { store = s })
grow-Inv y d s rows wallet ids id fresh i = record {
  ordered = rw (rows, ids) (ground (arith, i.ordered));
  bounded = λ k. rw (wallet, rows) (ground (arith, i.bounded k));
}

expire-Inv :
    (y : System) (now : ℕ)
    → Inv y
    → Inv (record y { store = (mark_expired_deposits now y.store).1 })
unfolding mark_expired_deposits
expire-Inv y now i = record {
  ordered =
      Ordered-update_where (is_due now) mark_expired y.store.next_deposit y.store.deposits
        (λ x. refl) i.ordered;
  bounded = λ k.
      rw
        (count_where-update_where (is_processed k) (is_due now) mark_expired y.store.deposits
          (λ x. refl))
        (i.bounded k);
}

cancelled-Inv :
    (y : System) (j : ℕ)
    → Inv y
    → Inv (record y { store = write_deposits (update_row (has_deposit_id j) mark_expired) y.store })
cancelled-Inv y j i = record {
  ordered =
      Ordered-update_row (has_deposit_id j) mark_expired y.store.next_deposit y.store.deposits
        (λ x. refl) i.ordered;
  bounded = λ k.
      rw
        (count_where-update_row (is_processed k) (has_deposit_id j) mark_expired y.store.deposits
          (λ x. refl))
        (i.bounded k);
}

cancel-Inv :
    (y : System) (j user : ℕ) → Inv y → Inv (record y { store = (cancel_deposit j user y.store).1 })
unfolding cancel_deposit
cancel-Inv y j user i = elim (Option-cases (find (has_deposit_id j) y.store.deposits)) [
  | inl missing ↦ rw missing i
  | inr (d, e) ↦ elim (Bool-cases (not (d.user_id == user))) [
    | inl foreign ↦ rw (e, foreign) i
    | inr mine ↦ elim (Bool-cases (not (is_pending d.status))) [
      | inl late ↦ rw (e, mine, late) i
      | inr early ↦ rw (e, mine, early) (cancelled-Inv y j i)
    ]
  ]
]

Ordered-mono : (n m : ℕ) (ds : List Deposit) → n ≤ m → Ordered n ds → Ordered m ds
Ordered-mono n m [] le h = tt
Ordered-mono n m (d ∷ ds) le h = ground arith

-- Every end of `createDeposit`.
created-Inv :
    (y : System) (config : DepositConfig) (now : ℕ) (channels : Option (List ℕ))
    (created : Option TripayTransaction) (a : CreateWrites) (user : ℕ) (dto : CreateDepositDto)
    (r : Result DepositError Deposit × DepositStore)
    → Creates config now channels created a user dto y.store r
    → Inv y
    → Inv (record y { store = r.1 })
created-Inv y config now channels created a user dto (ok d, s) c i =
    grow-Inv y d s c.0 c.6 c.7 c.1 c.2 i
created-Inv y config now channels created a user dto (err e, s) (wallet, ids, inl same) i = record {
  ordered =
      rw same (Ordered-mono y.store.next_deposit s.next_deposit y.store.deposits ids i.ordered);
  bounded = λ k. rw (wallet, same) (i.bounded k);
}
created-Inv y config now channels created a user dto (err e, s) (wallet, ids, inr left) i =
    grow-Inv y (new_deposit config now y.store.next_deposit user dto) s left.2 wallet left.1 refl
      refl i

pub Step-Inv : {y y' : System} → Step y y' → Inv y → Inv y'
Step-Inv (look_up y r d e fresh) i = record { ordered = i.ordered; bounded = i.bounded }
Step-Inv (take y now before d after e) i = take-Inv y now d (before ++ after) i
Step-Inv (finish y a before d after e) i = finish-Inv y a before d after e i
Step-Inv (create y config now channels created a user dto) i =
    created-Inv y config now channels created a user dto _
      (create_deposit-Creates config now channels created a user dto y.store) i
Step-Inv (expire y now) i = expire-Inv y now i
Step-Inv (cancel y j user) i = cancel-Inv y j user i
Step-Inv (spend y c other) i = record {
  ordered = i.ordered;
  bounded = λ k. rw (credited-call k c y.store.wallet other) (i.bounded k);
}

pub Reach-Inv : {y y' : System} → Reach y y' → Inv y → Inv y'
Reach-Inv start i = i
Reach-Inv (next r st) i = Step-Inv st (Reach-Inv r i)

abbrev pub empty_system : System
empty_system = record {
  store = record { deposits = []; next_deposit = 0; wallet = empty_store };
  found = [];
  claimed = [];
}

-- Whatever deliveries of the webhook overlap, with the other calls of the service, and calls of the
-- wallet service that do not name a deposit as their reference, between their steps, no deposit is
-- ever credited twice; and one that is credited, or is about to be, is marked as processed.
pub credited_once :
    (k : ℕ) {y : System}
    → Reach empty_system y
    → (credited k y.store.wallet + count_where (has_deposit_id k) y.claimed ≤ 1)
      × (credited k y.store.wallet + count_where (has_deposit_id k) y.claimed ≤ processed k y.store)
credited_once k {y} r =
    let i = Reach-Inv r (record { ordered = tt; bounded = λ j. omega arith }) in
    let one = processed-le-one k y.store.next_deposit y.store.deposits i.ordered in
    (omega (arith, i.bounded k, one), i.bounded k)
