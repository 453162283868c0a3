-- ===== src/Billing/Invoice/Distinct.antt =====
-- Invoices whose ids are distinct: what is found by any key is found by its id.
use webrana_cloud.Base.{
  Bool-cases, find, update_row, some_where, ℕ, ◌≡◌, refl, subst, inl, inr, Bool, true, false, not,
  ◌&&◌, some, List, [], ◌∷◌, arith,
}
use webrana_cloud.Billing.Invoice.{Invoice, has_invoice_id}

-- Each id stands in one row.
unfoldable pub distinct : List Invoice → Bool
distinct [] = true
distinct (v ∷ vs) = let rest = distinct vs in not (some_where (has_invoice_id v.id) vs) && rest

pub some_where-find :
    (p q : Invoice → Bool) (vs : List Invoice) {v : Invoice}
    → find p vs ≡ some v
    → some_where q vs ≡ false
    → q v ≡ false
some_where-find p q [] h none_there = cc
some_where-find p q (x ∷ vs) {v} h none_there = elim (Bool-cases (p x)) [
  | inl hit ↦
      let same : x ≡ v = cc (rw hit at h) in
      subst (λ y. q y ≡ false) same (ground (arith, none_there))
  | inr miss ↦ some_where-find p q vs (rw miss at h) (ground (arith, none_there))
]

pub find-distinct :
    (p : Invoice → Bool) (vs : List Invoice) {v : Invoice}
    → distinct vs ≡ true
    → find p vs ≡ some v
    → find (has_invoice_id v.id) vs ≡ some v
unfolding distinct
find-distinct p [] good h = cc
find-distinct p (x ∷ vs) {v} good h = elim (Bool-cases (p x)) [
  | inl hit ↦ let same : x ≡ v = cc (rw hit at h) in rw same (ground arith)
  | inr miss ↦
      let later = rw miss at h in
      let apart = some_where-find p (has_invoice_id x.id) vs later (ground (arith, good)) in
      ground (arith, apart, find-distinct p vs (ground (arith, good)) later)
]

some_where-update_row :
    (i j : ℕ) (f : Invoice → Invoice) (vs : List Invoice)
    → ((v : Invoice) → (f v).id ≡ v.id)
    → some_where (has_invoice_id i) (update_row (has_invoice_id j) f vs)
      ≡ some_where (has_invoice_id i) vs
some_where-update_row i j f [] key = refl
some_where-update_row i j f (v ∷ vs) key = elim (Bool-cases (has_invoice_id j v)) [
  | inl hit ↦ rw hit (rw (key v) refl)
  | inr miss ↦ rw miss (rw (some_where-update_row i j f vs key) refl)
]

pub distinct-update_row :
    (j : ℕ) (f : Invoice → Invoice) (vs : List Invoice)
    → ((v : Invoice) → (f v).id ≡ v.id)
    → distinct vs ≡ true
    → distinct (update_row (has_invoice_id j) f vs) ≡ true
unfolding distinct
distinct-update_row j f [] key good = refl
distinct-update_row j f (v ∷ vs) key good = elim (Bool-cases (has_invoice_id j v)) [
  | inl hit ↦ rw hit (rw (key v) good)
  | inr miss ↦ rw miss (
      rw (some_where-update_row v.id j f vs key)
        (ground (arith, good, distinct-update_row j f vs key (ground (arith, good)))))
]
