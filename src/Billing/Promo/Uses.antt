-- ===== src/Billing/Promo/Uses.antt =====
-- The counter of a promo's uses agrees with its redemptions.
use webrana_cloud.Billing.Wallet.{WalletStore, WalletError, add_balance}
use webrana_cloud.Base.{
  ltb, ◌==◌, if◌then◌else◌, Bool-cases, Option-cases, ℤ, pos, Result, ok, err, Action, pure,
  continue, ◌>>◌, find, update_row, count_where, some_where, delete_where, to_upper_case, ℕ, suc,
  ◌≡◌, refl, ◌∙◌, subst, inl, inr, Bool, true, false, Option, none, some, List, [], ◌∷◌, arith,
}
use webrana_cloud.Billing.Promo.Admin.{
  create_promo, UpdatePromo, updated, update_promo, deactivated, delete_promo,
}
use webrana_cloud.Billing.Promo.{
  Promo, PromoStore, PromoError, is_promo, with_code, of_promo, used_again, apply_promo,
  check_welcome_bonus, lift_result, in_wallet, welcome_params, claim_welcome_bonus,
}

abbrev pub uses_row : Option Promo → ℕ
uses_row none = 0
uses_row (some p) = p.current_uses

-- The counter of promo `i`, 0 where there is no such promo.
abbrev pub uses : ℕ → PromoStore → ℕ
uses i s = uses_row (find (is_promo i) s.promos)

unfoldable pub IsCounted : ℕ → PromoStore → Type 0
IsCounted i s = uses i s ≡ count_where (of_promo i) s.redemptions

-- A call of a public method that writes, with the database's answers to its transactions.
pub data PromoCall : Type 0 where
  create : Promo → PromoCall
  update : ℕ → UpdatePromo → PromoCall
  delete : ℕ → PromoCall
  apply : Bool → (new promo user : ℕ) → Option ℕ → (amount bonus : ℤ) → PromoCall
  claim_welcome : (credited recorded : Bool) → (choice new now user : ℕ) → PromoCall

abbrev pub promo_call : PromoCall → PromoStore → PromoStore
promo_call (create p) s = (create_promo p s).1
promo_call (update i dto) s = (update_promo i dto s).1
promo_call (delete i) s = (delete_promo i s).1
promo_call (apply commits new promo user paid_in amount bonus) s =
    (apply_promo commits new promo user paid_in amount bonus s).1
promo_call (claim_welcome credited recorded choice new now user) s =
    (claim_welcome_bonus credited recorded choice new now user s).1

abbrev pub promo_calls : List PromoCall → PromoStore → PromoStore
promo_calls [] s = s
promo_calls (c ∷ cs) s = promo_calls cs (promo_call c s)

-- Writing the other columns of a row keeps its counter.
uses-update_row :
    (i k : ℕ) (f : Promo → Promo) (ps : List Promo)
    → ((p : Promo) → (f p).id ≡ p.id)
    → ((p : Promo) → (f p).current_uses ≡ p.current_uses)
    → uses_row (find (is_promo i) (update_row (is_promo k) f ps)) ≡ uses_row (find (is_promo i) ps)
uses-update_row i k f [] key same = refl
uses-update_row i k f (p ∷ ps) key same = elim (Bool-cases (is_promo k p)) [
  | inl hit ↦ rw hit (
      rw (key p) (elim (Bool-cases (is_promo i p)) [
        | inl here ↦ rw here (same p)
        | inr there ↦ rw there refl
      ]))
  | inr miss ↦ rw miss (elim (Bool-cases (is_promo i p)) [
    | inl here ↦ rw here refl
    | inr there ↦ rw there (uses-update_row i k f ps key same)
  ])
]

-- Counting a use raises the counter of its promo alone, where there is one.
uses-used_again :
    (i k : ℕ) (ps : List Promo)
    → some_where (is_promo k) ps ≡ true
    → uses_row (find (is_promo i) (update_row (is_promo k) used_again ps))
      ≡ (if k == i then suc (uses_row (find (is_promo i) ps)) else uses_row (find (is_promo i) ps))
uses-used_again i k [] h = cc
uses-used_again i k (p ∷ ps) h = ground (arith, uses-used_again i k ps)

uses-delete_where :
    (i k : ℕ) (ps : List Promo)
    → uses_row (find (is_promo i) (delete_where (is_promo k) ps))
      ≡ (if k == i then 0 else uses_row (find (is_promo i) ps))
uses-delete_where i k [] = ground arith
uses-delete_where i k (p ∷ ps) = ground (arith, uses-delete_where i k ps)

uses-absent :
    (i : ℕ) (ps : List Promo)
    → some_where (is_promo i) ps ≡ false
    → uses_row (find (is_promo i) ps) ≡ 0
uses-absent i [] h = refl
uses-absent i (p ∷ ps) h = ground (arith, h, uses-absent i ps)

found-somewhere :
    (i : ℕ) (ps : List Promo) {p : Promo}
    → find (is_promo i) ps ≡ some p
    → some_where (is_promo i) ps ≡ true
found-somewhere i [] h = cc
found-somewhere i (x ∷ ps) h = elim (Bool-cases (is_promo i x)) [
  | inl hit ↦ rw hit refl
  | inr miss ↦ rw miss (found-somewhere i ps (rw miss at h))
]

create_promo-IsCounted :
    (i : ℕ) (p : Promo) (s : PromoStore) → IsCounted i s → IsCounted i (create_promo p s).1
unfolding create_promo IsCounted
create_promo-IsCounted i p s v =
    elim (Bool-cases (some_where (with_code (to_upper_case p.code)) s.promos)) [
      | inl taken ↦ rw taken v
      | inr free ↦ rw free (elim (Bool-cases (some_where (is_promo p.id) s.promos)) [
        | inl used ↦ rw used v
        | inr fresh ↦ rw fresh (elim (Bool-cases (p.id == i)) [
          | inl here ↦
              let at_i : p.id ≡ i = ground (arith, here) in
              let absent : some_where (is_promo i) s.promos ≡ false =
                subst (λ k. some_where (is_promo k) s.promos ≡ false) at_i fresh in
              rw here (cc (v, uses-absent i s.promos absent))
          | inr other ↦ rw other v
        ])
      ])
    ]

update_promo-IsCounted :
    (i k : ℕ) (dto : UpdatePromo) (s : PromoStore)
    → IsCounted i s
    → IsCounted i (update_promo k dto s).1
unfolding update_promo IsCounted
update_promo-IsCounted i k dto s v = elim (Bool-cases (some_where (is_promo k) s.promos)) [
  | inl found ↦ rw found (uses-update_row i k (updated dto) s.promos (λ p. refl) (λ p. refl) ∙ v)
  | inr missing ↦ rw missing v
]

delete_promo-IsCounted :
    (i k : ℕ) (s : PromoStore) → IsCounted i s → IsCounted i (delete_promo k s).1
unfolding delete_promo IsCounted
delete_promo-IsCounted i k s v = elim (Bool-cases (some_where (is_promo k) s.promos)) [
  | inl found ↦ rw found (elim (Bool-cases (ltb 0 (count_where (of_promo k) s.redemptions))) [
    | inl redeemed ↦
        rw redeemed (uses-update_row i k deactivated s.promos (λ p. refl) (λ p. refl) ∙ v)
    | inr never ↦ rw never (
        rw (uses-delete_where i k s.promos) (elim (Bool-cases (k == i)) [
          | inl here ↦
              let at_i : k ≡ i = ground (arith, here) in
              rw here (
                subst (λ j. 0 ≡ count_where (of_promo j) s.redemptions) at_i
                  (ground (arith, never)))
          | inr other ↦ rw other v
        ]))
  ])
  | inr missing ↦ rw missing v
]

apply_promo-IsCounted :
    (i new k user : ℕ) (commits : Bool) (paid_in : Option ℕ) (amount bonus : ℤ) (s : PromoStore)
    → IsCounted i s
    → IsCounted i (apply_promo commits new k user paid_in amount bonus s).1
unfolding apply_promo IsCounted
apply_promo-IsCounted i new k user commits paid_in amount bonus s v =
    elim (Option-cases (find (is_promo k) s.promos)) [
      | inl missing ↦ rw missing v
      | inr (p, found) ↦ rw found (elim (Bool-cases commits) [
        | inl done ↦ rw done (
            rw (uses-used_again i k s.promos (found-somewhere k s.promos found))
              (ground (arith, v)))
        | inr aborts ↦ rw aborts v
      ])
    ]

in_wallet-IsCounted :
    (i : ℕ) {A B : Type 0} (r : Result WalletError A × WalletStore) (s : PromoStore)
    (f : A → Action PromoStore PromoError B)
    → ((a : A) (t : PromoStore) → IsCounted i t → IsCounted i (f a t).1)
    → IsCounted i s
    → IsCounted i (continue (lift_result r s) f).1
unfolding IsCounted
in_wallet-IsCounted i (ok a, w) s f keeps v = keeps a (record s { wallet = w }) v
in_wallet-IsCounted i (err e, w) s f keeps v = v

pure-IsCounted :
    (i : ℕ) {A B : Type 0} (r : Result PromoError A × PromoStore) (b : B)
    → IsCounted i r.1
    → IsCounted i (continue r (λ _. pure b)).1
pure-IsCounted i (ok a, s) b v = v
pure-IsCounted i (err e, s) b v = v

claim_welcome_bonus-IsCounted :
    (i choice new now user : ℕ) (credited recorded : Bool) (s : PromoStore)
    → IsCounted i s
    → IsCounted i (claim_welcome_bonus credited recorded choice new now user s).1
unfolding claim_welcome_bonus
claim_welcome_bonus-IsCounted i choice new now user credited recorded s v =
    elim (Option-cases (check_welcome_bonus choice now user s)) [
      | inl refused ↦ rw refused v
      | inr (p, found) ↦ rw found (
          pure-IsCounted i
            ((in_wallet (add_balance credited (welcome_params user p))
                >> apply_promo recorded new p.id user none (pos 0) p.bonus_value)
              s)
            p.bonus_value
            (in_wallet-IsCounted i (add_balance credited (welcome_params user p) s.wallet) s
              (λ _. apply_promo recorded new p.id user none (pos 0) p.bonus_value)
              (λ _ t. apply_promo-IsCounted i new p.id user recorded none (pos 0) p.bonus_value t)
              v))
    ]

promo_call-IsCounted :
    (i : ℕ) (c : PromoCall) (s : PromoStore) → IsCounted i s → IsCounted i (promo_call c s)
promo_call-IsCounted i (create p) s v = create_promo-IsCounted i p s v
promo_call-IsCounted i (update k dto) s v = update_promo-IsCounted i k dto s v
promo_call-IsCounted i (delete k) s v = delete_promo-IsCounted i k s v
promo_call-IsCounted i (apply commits new k user paid_in amount bonus) s v =
    apply_promo-IsCounted i new k user commits paid_in amount bonus s v
promo_call-IsCounted i (claim_welcome credited recorded choice new now user) s v =
    claim_welcome_bonus-IsCounted i choice new now user credited recorded s v

-- After any calls of the promo service, one after another, on tables where it holds, the uses that
-- a promo counts are the rows of its redemptions, and a promo that does not exist has none; this
-- includes calls that fail and transactions that the database aborts.
pub promo_calls-IsCounted :
    (i : ℕ) (cs : List PromoCall) (s : PromoStore) → IsCounted i s → IsCounted i (promo_calls cs s)
promo_calls-IsCounted i [] s v = v
promo_calls-IsCounted i (c ∷ cs) s v =
    promo_calls-IsCounted i cs (promo_call c s) (promo_call-IsCounted i c s v)
