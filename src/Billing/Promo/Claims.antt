-- ===== src/Billing/Promo/Claims.antt =====
-- A claimed welcome bonus is not given again.
use webrana_cloud.Base.{
  ltb, ◌==◌, Bool-cases, Option-cases, ==_refl, ℤ, pos, Result, ok, err, pure, continue, ◌>>◌, find,
  update_row, count_where, count_where-update_row, find-update_row_keeps, pick-filter_where, ℕ, ◌≤◌,
  ◌≡◌, refl, sym, ap, ◌∙◌, subst, inl, inr, Bool, true, Option, none, some, List, arith,
}
use webrana_cloud.Billing.Wallet.{WalletStore, WalletError, add_balance}
use webrana_cloud.Billing.Promo.{
  Promo, PromoRedemption, PromoStore, welcome_bonus_not_available, is_promo, used_by, used_again,
  apply_promo, is_welcome, welcome_row, check_welcome_bonus, lift_result, in_wallet, welcome_params,
  claim_welcome_bonus,
}

-- At most one welcome promo runs.
abbrev pub HasOneWelcome : ℕ → PromoStore → Type 0
HasOneWelcome now s = count_where (is_welcome now) s.promos ≤ 1

-- A user with a redemption of the promo that the look-up gives is refused.
check_welcome_bonus-refuses :
    (choice now user k : ℕ) (s : PromoStore)
    → {p : Promo} → HasOneWelcome now s
    → find (is_welcome now) s.promos ≡ some p
    → (p.id == k) ≡ true
    → ltb 0 (count_where (used_by k user) s.redemptions) ≡ true
    → check_welcome_bonus choice now user s ≡ none
unfolding check_welcome_bonus
check_welcome_bonus-refuses choice now user k s {p} one found same used =
    let at_k : k ≡ p.id = ground (arith, same) in
    let known = subst (λ j. ltb 0 (count_where (used_by j user) s.redemptions) ≡ true) at_k used in
    rw (pick-filter_where choice (is_welcome now) s.promos one) (rw found (rw known refl))

-- The welcome promo keeps its place when a use is counted.
find-used_again :
    (now k : ℕ) (ps : List Promo) {p : Promo}
    → find (is_welcome now) ps ≡ some p
    → (b : Promo) × (find (is_welcome now) (update_row (is_promo k) used_again ps) ≡ some b)
      × ((b.id == p.id) ≡ true)
find-used_again now k ps {p} found =
    find-update_row_keeps (is_welcome now) (λ x. x.id == p.id) (is_promo k) used_again ps
      (λ x. refl) (λ x h. h) found (==_refl p.id)

welcome_row-some :
    (user : ℕ) (s : PromoStore) (o : Option Promo) {p : Promo}
    → welcome_row user s o ≡ some p
    → o ≡ some p
welcome_row-some user s none h = cc
welcome_row-some user s (some x) {p} h = ground (arith, h)

-- Where the claim succeeds, the tables after it hold a redemption by this user.
apply_promo-ok :
    (new k user : ℕ) (commits : Bool) (paid_in : Option ℕ) (amount bonus : ℤ) (s : PromoStore)
    {r : PromoRedemption}
    → (apply_promo commits new k user paid_in amount bonus s).0 ≡ ok r
    → ((apply_promo commits new k user paid_in amount bonus s).1.promos
        ≡ update_row (is_promo k) used_again s.promos)
      × (ltb 0 (
            count_where
              (used_by k user)
              (apply_promo commits new k user paid_in amount bonus s).1.redemptions)
          ≡ true)
unfolding apply_promo
apply_promo-ok new k user commits paid_in amount bonus s h =
    elim (Option-cases (find (is_promo k) s.promos)) [
      | inl missing ↦ (cc (rw missing at h), cc (rw missing at h))
      | inr (p, found) ↦ elim (Bool-cases commits) [
        | inl done ↦ rw found (rw done (refl, rw (==_refl k) (rw (==_refl user) (ground arith))))
        | inr aborts ↦
            let fails = rw found at h in (cc (rw aborts at fails), cc (rw aborts at fails))
      ]
    ]

-- The tables in which a promo was used by a user, from the promos before.
abbrev pub UsedOnce : ℕ → ℕ → List Promo → PromoStore → Type 0
UsedOnce k user ps s =
    (s.promos ≡ update_row (is_promo k) used_again ps)
    × (ltb 0 (count_where (used_by k user) s.redemptions) ≡ true)

then_pure-ok :
    {S E A B : Type 0} (x : Result E A × S) (b : B) {c : B}
    → (continue x (λ _. pure b)).0 ≡ ok c
    → (a : A) × (x.0 ≡ ok a) × ((continue x (λ _. pure b)).1 ≡ x.1)
then_pure-ok (ok a, s) b h = (a, refl, refl)
then_pure-ok (err e, s) b h = absurd (ground (arith, h))

claim_found-UsedOnce :
    (new k user : ℕ) (commits : Bool) (amount bonus : ℤ) {A : Type 0}
    (r : Result WalletError A × WalletStore) (s : PromoStore) {x : PromoRedemption}
    → (continue (lift_result r s) (λ _. apply_promo commits new k user none amount bonus)).0 ≡ ok x
    → UsedOnce k user s.promos
        (continue (lift_result r s) (λ _. apply_promo commits new k user none amount bonus)).1
claim_found-UsedOnce new k user commits amount bonus (ok a, w) s h =
    apply_promo-ok new k user commits none amount bonus (record s { wallet = w }) h
claim_found-UsedOnce new k user commits amount bonus (err e, w) s h = (cc, cc)

claim_welcome_bonus-refused :
    (choice new now user : ℕ) (credited recorded : Bool) (s : PromoStore)
    → check_welcome_bonus choice now user s ≡ none
    → claim_welcome_bonus credited recorded choice new now user s
      ≡ (err welcome_bonus_not_available, s)
unfolding claim_welcome_bonus
claim_welcome_bonus-refused choice new now user credited recorded s e = rw e refl

check_welcome_bonus-some :
    (choice now user : ℕ) (s : PromoStore) {p : Promo}
    → HasOneWelcome now s
    → check_welcome_bonus choice now user s ≡ some p
    → find (is_welcome now) s.promos ≡ some p
unfolding check_welcome_bonus
check_welcome_bonus-some choice now user s one e =
    welcome_row-some user s (find (is_welcome now) s.promos)
      (ap (welcome_row user s) (sym (pick-filter_where choice (is_welcome now) s.promos one)) ∙ e)

claim_welcome_bonus-UsedOnce :
    (choice new now user : ℕ) (credited recorded : Bool) (s : PromoStore) {bonus : ℤ}
    → HasOneWelcome now s
    → (claim_welcome_bonus credited recorded choice new now user s).0 ≡ ok bonus
    → (p : Promo) × (find (is_welcome now) s.promos ≡ some p)
      × UsedOnce p.id user s.promos (claim_welcome_bonus credited recorded choice new now user s).1
unfolding claim_welcome_bonus
claim_welcome_bonus-UsedOnce choice new now user credited recorded s one h =
    elim (Option-cases (check_welcome_bonus choice now user s)) [
      | inl refused ↦ absurd (ground (arith, rw refused at h))
      | inr (p, e) ↦ rw e (
          let (r, done, same) =
            then_pure-ok
              ((in_wallet (add_balance credited (welcome_params user p))
                  >> apply_promo recorded new p.id user none (pos 0) p.bonus_value)
                s)
              p.bonus_value (rw e at h) in
          (
            p,
            check_welcome_bonus-some choice now user s one e,
            subst (UsedOnce p.id user s.promos) (sym same) (
                claim_found-UsedOnce new p.id user recorded (pos 0) p.bonus_value
                  (add_balance credited (welcome_params user p) s.wallet) s done),
          ))
    ]

-- Where at most one welcome promo runs, once a user's claim of the welcome bonus has gone through, a
-- second claim by the user at the same time is refused and changes nothing, whatever the database
-- would answer.
pub claim_welcome_bonus-once :
    (choice choice' new again now user : ℕ) (credited recorded credits records : Bool)
    (s : PromoStore) {bonus : ℤ}
    → HasOneWelcome now s
    → (claim_welcome_bonus credited recorded choice new now user s).0 ≡ ok bonus
    → let t = (claim_welcome_bonus credited recorded choice new now user s).1 in
      claim_welcome_bonus credits records choice' again now user t
      ≡ (err welcome_bonus_not_available, t)
claim_welcome_bonus-once choice choice' new again now user credited recorded credits records s one
      h =
    let (p, found, once) =
      claim_welcome_bonus-UsedOnce choice new now user credited recorded s one h in
    let (b, found_b, same) = find-used_again now p.id s.promos found in
    let t = (claim_welcome_bonus credited recorded choice new now user s).1 in
    let still : HasOneWelcome now t = rw once.0 (
      rw (count_where-update_row (is_welcome now) (is_promo p.id) used_again s.promos (λ x. refl))
        one) in
    claim_welcome_bonus-refused choice' again now user credits records t (
      check_welcome_bonus-refuses choice' now user p.id t {p = b} still (rw once.0 found_b) same
        once.1)
