-- ===== src/Billing/Deposit/Rollback.antt =====
-- What each end of `createDeposit` leaves in the tables.
use webrana_cloud.Base.{
  ◌==◌, is_some, Bool-cases, Option-cases, ==_refl, ◌≤ℤ◌, ltb_ℤ, Result, ok, err, some_where, ℕ,
  suc, ◌≤◌, ◌≡◌, refl, ◌⊎◌, inl, inr, true, false, Option, none, List, ◌∷◌, arith,
}
use webrana_cloud.Billing.Deposit.{
  Deposit, DepositStore, DepositError, DepositConfig, CreateDepositDto, TripayTransaction,
  CreateWrites, new_deposit, create_deposit,
}

module _ (config : DepositConfig) (now : ℕ) (channels : Option (List ℕ))
    (created : Option TripayTransaction) (a : CreateWrites) (user : ℕ)
    (dto : CreateDepositDto) where
  -- On success one row is added, pending and unprocessed; on an exception the rows are as before,
  -- but for the one left behind where the gateway did not give its channels, or where the database
  -- did not take the rollback.
  abbrev pub Creates : DepositStore → Result DepositError Deposit × DepositStore → Type 0
  Creates s (ok d, s') =
      (s'.deposits ≡ d ∷ s.deposits)
      × (d.id ≡ s.next_deposit)
      × (d.processed_at ≡ none)
      × (d.amount ≡ dto.amount)
      × (config.min_deposit_amount ≤ℤ d.amount)
      × (is_some d.tripay_reference ≡ true)
      × (s'.wallet ≡ s.wallet)
      × (s'.next_deposit ≡ suc s.next_deposit)
  Creates s (err e, s') =
      (s'.wallet ≡ s.wallet)
      × (s.next_deposit ≤ s'.next_deposit)
      × ((s'.deposits ≡ s.deposits)
          ⊎ ((channels ≡ none) ⊎ (a.row_deleted ≡ false))
            × (s'.next_deposit ≡ suc s.next_deposit)
            × (s'.deposits ≡ new_deposit config now s.next_deposit user dto ∷ s.deposits))

  -- `createDeposit`: on success one row of the asked amount, at least the minimum, is added,
  -- unprocessed and with the gateway's reference; on an exception the rows are as before, but for
  -- the new row left behind where the gateway did not give its channels or the database did not
  -- take the rollback. The wallets never change.
  pub create_deposit-Creates :
      (s : DepositStore) → Creates s (create_deposit config now channels created a user dto s)
  unfolding create_deposit
  create_deposit-Creates s = elim (Bool-cases (ltb_ℤ dto.amount config.min_deposit_amount)) [
    | inl low ↦ rw low (refl, omega arith, inl refl)
    | inr enough ↦ elim (Bool-cases a.row_saved) [
      | inr unsaved ↦ rw (enough, unsaved) (refl, omega arith, inl refl)
      | inl saved ↦ elim (Option-cases channels) [
        | inl silent ↦ rw (enough, saved, silent) (refl, omega arith, inr (inl refl, refl, refl))
        | inr (codes, heard) ↦ elim (Bool-cases (some_where (λ c. c == dto.payment_method) codes)) [
          | inl known ↦ elim (Option-cases created) [
            | inl down ↦ elim (Bool-cases a.row_deleted) [
              | inl gone ↦
                  rw (enough, saved, heard, known, down, gone, ==_refl)
                    (refl, omega arith, inl refl)
              | inr left ↦
                  rw (enough, saved, heard, known, down, left)
                    (refl, omega arith, inr (inr refl, refl, refl))
            ]
            | inr (t, made) ↦ elim (Bool-cases a.payment_saved) [
              | inl attached ↦
                  rw (enough, saved, heard, known, made, attached, ==_refl)
                    (refl, refl, refl, refl, ground arith, refl, refl, refl)
              | inr lost ↦ elim (Bool-cases a.row_deleted) [
                | inl gone ↦
                    rw (enough, saved, heard, known, made, lost, gone, ==_refl)
                      (refl, omega arith, inl refl)
                | inr left ↦
                    rw (enough, saved, heard, known, made, lost, left)
                      (refl, omega arith, inr (inr refl, refl, refl))
              ]
            ]
          ]
          | inr unknown ↦ elim (Bool-cases a.row_deleted) [
            | inl gone ↦
                rw (enough, saved, heard, unknown, gone, ==_refl) (refl, omega arith, inl refl)
            | inr left ↦
                rw (enough, saved, heard, unknown, left)
                  (refl, omega arith, inr (inr refl, refl, refl))
          ]
        ]
      ]
    ]
  ]
