-- ===== src/Billing/Invoice/Keeping.antt =====
-- Writes that keep a settled invoice: those to other invoices, and the methods that make only such.
use webrana_cloud.Base.{
  ◌==◌, is_some, Bool-cases, Option-cases, or_raise, ◌>>=◌, raise_if-post, bind-post, find,
  count_where, some_where, find_sound, find-update_row_other, ℕ, ◌≡◌, refl, sym, ap, ◌∙◌, inl, inr,
  Bool, true, false, Option, none, some, arith,
}
use webrana_cloud.Billing.Invoice.{
  InvoiceStatus, pending, paid, expired, cancelled, CallbackStatus, was_paid, was_expired,
  was_failed, was_refunded, TripayCallback, Invoice, Payment, InvoiceStore, InvoiceError,
  already_exists, Invoices, CreateInvoice, has_invoice_id, has_order, has_number, is_open,
  is_settled, save_invoice, new_invoice, is_taken, insert_invoice, create_invoice, as_expired,
  expire_invoice,
}
use webrana_cloud.Billing.Invoice.Payments.{
  as_paid, as_lapsed, record_payment, notify_order, apply_callback, process_callback,
}
use webrana_cloud.Billing.Invoice.Distinct.{
  distinct, some_where-find, find-distinct, distinct-update_row,
}

abbrev pub pays : ℕ → Payment → Bool
pays k p = p.invoice_id == k

-- Ids are distinct, the invoice `k` is `a`, and `n` payments of it are recorded.
abbrev pub Stands : ℕ → Invoice → ℕ → InvoiceStore → Type 0
Stands k a n s =
    (distinct s.invoices ≡ true)
    × (find (has_invoice_id k) s.invoices ≡ some a)
    × (count_where (pays k) s.payments ≡ n)

settled_closed : (st : InvoiceStatus) → is_settled st ≡ true → is_open st ≡ false
settled_closed pending h = cc
settled_closed paid h = refl
settled_closed expired h = refl
settled_closed cancelled h = refl

module _ (k : ℕ) (a : Invoice) (n : ℕ) where
  abbrev pub Keeps : {A : Type 0} → Invoices A → Type 0
  Keeps m = (s : InvoiceStore) → Stands k a n s → Stands k a n (m s).1

  pub bind-Keeps :
      {A B : Type 0} (m : Invoices A) (f : A → Invoices B)
      → Keeps m
      → ((x : A) → Keeps (f x))
      → Keeps (m >>= f)
  bind-Keeps m f first second s h =
      bind-post (λ r. Stands k a n r.1) m f s (λ x e. second x (m s).1 (first s h))
        (λ x e. first s h)

  pub or_raise-Keeps : {A : Type 0} (o : Option A) (e : InvoiceError) → Keeps (or_raise o e)
  or_raise-Keeps none e s h = h
  or_raise-Keeps (some x) e s h = h

  -- A write to another invoice.
  pub save_invoice-Keeps :
      (saved : Bool) (j : ℕ) (f : Invoice → Invoice)
      → ((v : Invoice) → (f v).id ≡ v.id)
      → (j == k) ≡ false
      → Keeps (save_invoice saved j f)
  save_invoice-Keeps false j f key apart s h = h
  save_invoice-Keeps true j f key apart s (good, found, counted) = (
    distinct-update_row j f s.invoices key good,
    find-update_row_other (has_invoice_id k) (has_invoice_id j) f s.invoices (λ v. rw (key v) refl)
          (λ v e. ground (arith, apart, e))
        ∙ found,
    counted,
  )

  record_payment-Keeps :
      (saved : Bool) (j : ℕ) (p : TripayCallback)
      → (j == k) ≡ false
      → Keeps (record_payment saved j p)
  record_payment-Keeps false j p apart s h = h
  record_payment-Keeps true j p apart s (good, found, counted) = (good, found, rw apart counted)

  -- An invoice that is found and not settled is another one.
  pub found-apart :
      (p : Invoice → Bool) (s : InvoiceStore) {v : Invoice}
      → Stands k a n s
      → is_settled a.status ≡ true
      → find p s.invoices ≡ some v
      → is_settled v.status ≡ false
      → (v.id == k) ≡ false
  found-apart p s {v} (good, stands, counted) settled found unsettled =
      elim (Bool-cases (v.id == k)) [
        | inl same ↦
            let key : v.id ≡ k = ground (arith, same) in
            let it : some v ≡ some a =
              sym (find-distinct p s.invoices good found)
              ∙ ap (λ i. find (has_invoice_id i) s.invoices) key
              ∙ stands in
            cc
        | inr apart ↦ apart
      ]

  insert_invoice-Keeps : (saved : Bool) (v : Invoice) → Keeps (insert_invoice saved v)
  unfolding distinct
  insert_invoice-Keeps false v s h = h
  insert_invoice-Keeps true v s (good, found, counted) = elim (Bool-cases (is_taken v s.invoices)) [
    | inl taken ↦ rw taken (good, found, counted)
    | inr free ↦
        let fresh : some_where (has_invoice_id v.id) s.invoices ≡ false = ground (arith, free) in
        let other : (a.id == v.id) ≡ false =
          some_where-find (has_invoice_id k) (has_invoice_id v.id) s.invoices found fresh in
        let key : (a.id == k) ≡ true = find_sound (has_invoice_id k) s.invoices found in
        let apart : (v.id == k) ≡ false = ground (arith, other, key) in
        rw free (rw fresh good, rw apart found, counted)
  ]

  pub create_invoice-Keeps :
      (hours now : ℕ) (saved : Bool) (id number : ℕ) (dto : CreateInvoice)
      → Keeps (create_invoice hours now saved id number dto)
  unfolding create_invoice
  create_invoice-Keeps hours now saved id number dto s h =
      raise_if-post (λ r. Stands k a n r.1) (is_some (find (has_order dto.order_id) s.invoices))
        already_exists (insert_invoice saved (new_invoice hours now id number dto)) s (λ e. h)
        (λ e. insert_invoice-Keeps saved (new_invoice hours now id number dto) s h)

  -- From here the invoice `k` is settled.
  module _ (settled : is_settled a.status ≡ true) where
    pub expire_invoice-Keeps : (saved : Bool) (j : ℕ) → Keeps (expire_invoice saved j)
    unfolding expire_invoice
    expire_invoice-Keeps saved j s h = elim (Option-cases (find (has_invoice_id j) s.invoices)) [
      | inl missing ↦ rw missing h
      | inr (v, found) ↦ rw found (elim (Bool-cases (is_settled v.status)) [
        | inl closed ↦ rw (settled_closed v.status closed) h
        | inr unsettled ↦
            let key = find_sound (has_invoice_id j) s.invoices found in
            let away = found-apart (has_invoice_id j) s h settled found unsettled in
            let apart : (j == k) ≡ false = ground (arith, key, away) in
            elim (Bool-cases (is_open v.status)) [
              | inl is_it ↦ rw is_it (save_invoice-Keeps saved j as_expired (λ v. refl) apart s h)
              | inr closed ↦ rw closed h
            ]
      ])
    ]

    apply_callback-Keeps :
        (now : ℕ) (saved : Bool) (v : Invoice) (p : TripayCallback) (st : CallbackStatus)
        → (v.id == k) ≡ false
        → Keeps (apply_callback now saved v p st)
    apply_callback-Keeps now saved v p was_paid apart s h =
        bind-Keeps (save_invoice saved v.id (as_paid now p))
          (λ _. notify_order v.order_id p.reference)
          (save_invoice-Keeps saved v.id (as_paid now p) (λ v. refl) apart) (λ _ s h. h) s h
    apply_callback-Keeps now saved v p was_expired apart s h =
        save_invoice-Keeps saved v.id (as_lapsed p) (λ v. refl) apart s h
    apply_callback-Keeps now saved v p was_failed apart s h = h
    apply_callback-Keeps now saved v p was_refunded apart s h = h

    pub process_callback-Keeps :
        (now : ℕ) (recorded saved : Bool) (p : TripayCallback)
        → Keeps (process_callback now recorded saved p)
    unfolding process_callback
    process_callback-Keeps now recorded saved p s h =
        elim (Option-cases (find (has_number p.merchant_ref) s.invoices)) [
          | inl missing ↦ rw missing h
          | inr (v, found) ↦ rw found (elim (Bool-cases (is_settled v.status)) [
            | inl closed ↦ rw closed h
            | inr unsettled ↦
                let apart = found-apart (has_number p.merchant_ref) s h settled found unsettled in
                rw unsettled (
                  bind-Keeps (record_payment recorded v.id p)
                    (λ _. apply_callback now saved v p p.status)
                    (record_payment-Keeps recorded v.id p apart)
                    (λ _. apply_callback-Keeps now saved v p p.status apart) s h)
          ])
        ]
