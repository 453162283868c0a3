-- ===== src/Billing/Invoice/Final.antt =====
-- Settled invoices are final.
use Prim.Native.String.{String}
use text.Mathlib.Text.{◌==◌ as str_eq}
use webrana_cloud.Base.{
  ltb, ◌==◌, Bool-cases, Option-cases, ◌+ℤ◌, pure, raise, or_raise, ◌>>=◌, ◌>>◌, find, count_where,
  ℕ, ◌≡◌, refl, inl, inr, Bool, true, false, Option, none, some, List, [], ◌∷◌,
}
use webrana_cloud.Billing.Invoice.{
  InvoiceStatus, pending, paid, expired, cancelled, TripayCallback, Invoice, InvoiceStore,
  invoice_expired, channel_not_found, gateway_failed, Invoices, CreateInvoice, has_invoice_id,
  is_settled, save_invoice, create_invoice, is_denied, get_invoice_by_id, expire_invoice,
}
use webrana_cloud.Billing.Invoice.Payments.{
  TripayChannel, InvoiceTransaction, calculate_fee, check_payable, check_in_time, with_payment,
  attach_transaction, begin_payment, pay_invoice, initiate_payment, process_callback,
}
use webrana_cloud.Billing.Invoice.Distinct.{distinct}
use webrana_cloud.Billing.Invoice.Keeping.{
  pays, Stands, Keeps, bind-Keeps, or_raise-Keeps, save_invoice-Keeps, found-apart,
  create_invoice-Keeps, expire_invoice-Keeps, process_callback-Keeps,
}

-- A call of a method that writes.
pub data InvoiceCall : Type 0 where
  create : (hours now : ℕ) → Bool → (id number : ℕ) → CreateInvoice → InvoiceCall
  initiate :
      ℕ
      → Bool
      → Option (List TripayChannel)
      → Option InvoiceTransaction
      → ℕ
      → String
      → Option ℕ
      → InvoiceCall
  call_back : ℕ → (recorded saved : Bool) → TripayCallback → InvoiceCall
  expire : Bool → ℕ → InvoiceCall

abbrev pub invoice_call : InvoiceCall → InvoiceStore → InvoiceStore
invoice_call (create hours now saved id number dto) s =
    (create_invoice hours now saved id number dto s).1
invoice_call (initiate now saved channels created k code user) s =
    (initiate_payment now saved channels created k code user s).1
invoice_call (call_back now recorded saved p) s = (process_callback now recorded saved p s).1
invoice_call (expire saved k) s = (expire_invoice saved k s).1

abbrev pub invoice_calls : List InvoiceCall → InvoiceStore → InvoiceStore
invoice_calls [] s = s
invoice_calls (c ∷ cs) s = invoice_calls cs (invoice_call c s)

settled_refused :
    {A : Type 0} (P : InvoiceStore → Type 0) (st : InvoiceStatus) (f : Unit {0} → Invoices A)
    (s : InvoiceStore)
    → is_settled st ≡ true
    → P s
    → P ((check_payable st >>= f) s).1
settled_refused P pending f s closed h = cc
settled_refused P paid f s closed h = h
settled_refused P expired f s closed h = h
settled_refused P cancelled f s closed h = h

module _ (k : ℕ) (a : Invoice) (n : ℕ) where
  check_payable-Keeps : (st : InvoiceStatus) → Keeps k a n (check_payable st)
  check_payable-Keeps pending s h = h
  check_payable-Keeps paid s h = h
  check_payable-Keeps expired s h = h
  check_payable-Keeps cancelled s h = h

  module _ (settled : is_settled a.status ≡ true) where
    begin_payment-Keeps :
        (saved : Bool) (channels : Option (List TripayChannel))
        (created : Option InvoiceTransaction) (code : String) (v : Invoice)
        → (v.id == k) ≡ false
        → Keeps k a n (begin_payment saved channels created code v)
    begin_payment-Keeps saved none created code v apart s h = h
    begin_payment-Keeps saved (some listed) created code v apart s h =
        bind-Keeps k a n (or_raise (find (λ c. str_eq c.code code) listed) channel_not_found)
          (λ c. or_raise created gateway_failed >>= λ t. attach_transaction saved code c t v)
          (or_raise-Keeps k a n (find (λ c. str_eq c.code code) listed) channel_not_found)
          (λ c.
            bind-Keeps k a n (or_raise created gateway_failed)
              (λ t. attach_transaction saved code c t v)
              (or_raise-Keeps k a n created gateway_failed)
              (λ t.
                bind-Keeps k a n (save_invoice saved v.id (with_payment code c t))
                  (λ _. pure (with_payment code c t v, v.amount +ℤ calculate_fee c v.amount))
                  (save_invoice-Keeps k a n saved v.id (with_payment code c t) (λ v. refl) apart)
                  (λ _ s h. h)))
          s h

    check_in_time-Keeps :
        (now : ℕ) (saved : Bool) (v : Invoice) → Keeps k a n (check_in_time now saved v)
    check_in_time-Keeps now saved v s h = elim (Bool-cases (ltb v.expired_at now)) [
      | inl late ↦ rw late (
          bind-Keeps k a n (expire_invoice saved v.id) (λ _. raise invoice_expired)
            (expire_invoice-Keeps k a n settled saved v.id) (λ _ s h. h) s h)
      | inr timely ↦ rw timely h
    ]

    pay_invoice-Keeps :
        (now : ℕ) (saved : Bool) (channels : Option (List TripayChannel))
        (created : Option InvoiceTransaction) (code : String) (v : Invoice)
        → (v.id == k) ≡ false
        → Keeps k a n (pay_invoice now saved channels created code v)
    pay_invoice-Keeps now saved channels created code v apart =
        bind-Keeps k a n (check_payable v.status)
          (λ _. check_in_time now saved v >> begin_payment saved channels created code v)
          (check_payable-Keeps v.status)
          (λ _.
            bind-Keeps k a n (check_in_time now saved v)
              (λ _. begin_payment saved channels created code v) (check_in_time-Keeps now saved v)
              (λ _. begin_payment-Keeps saved channels created code v apart))

    initiate_payment-Keeps :
        (now : ℕ) (saved : Bool) (channels : Option (List TripayChannel))
        (created : Option InvoiceTransaction) (j : ℕ) (code : String) (user : Option ℕ)
        → Keeps k a n (initiate_payment now saved channels created j code user)
    unfolding initiate_payment get_invoice_by_id
    initiate_payment-Keeps now saved channels created j code user s h =
        elim (Option-cases (find (has_invoice_id j) s.invoices)) [
          | inl missing ↦ rw missing h
          | inr (v, found) ↦ rw found (elim (Bool-cases (is_denied user v)) [
            | inl denied ↦ rw denied h
            | inr allowed ↦ rw allowed (elim (Bool-cases (is_settled v.status)) [
              | inl closed ↦
                  settled_refused (λ t. Stands k a n t) v.status
                    (λ _. check_in_time now saved v >> begin_payment saved channels created code v)
                    s closed h
              | inr unsettled ↦
                  pay_invoice-Keeps now saved channels created code v
                    (found-apart k a n (has_invoice_id j) s h settled found unsettled) s h
            ])
          ])
        ]

    invoice_call-Stands :
        (c : InvoiceCall) (s : InvoiceStore) → Stands k a n s → Stands k a n (invoice_call c s)
    invoice_call-Stands (create hours now saved id number dto) =
        create_invoice-Keeps k a n hours now saved id number dto
    invoice_call-Stands (initiate now saved channels created j code user) =
        initiate_payment-Keeps now saved channels created j code user
    invoice_call-Stands (call_back now recorded saved p) =
        process_callback-Keeps k a n settled now recorded saved p
    invoice_call-Stands (expire saved j) = expire_invoice-Keeps k a n settled saved j

    invoice_calls-Stands :
        (cs : List InvoiceCall) (s : InvoiceStore)
        → Stands k a n s
        → Stands k a n (invoice_calls cs s)
    invoice_calls-Stands [] s h = h
    invoice_calls-Stands (c ∷ cs) s h =
        invoice_calls-Stands cs (invoice_call c s) (invoice_call-Stands c s h)

-- Where ids are distinct, an invoice that is paid or expired keeps its row and its recorded payments
-- under any creations, initiated payments, callbacks and expiries, whatever the gateway answers and
-- whichever writes fail.
pub invoice_calls-final :
    (cs : List InvoiceCall) (k : ℕ) (s : InvoiceStore) (a : Invoice)
    → distinct s.invoices ≡ true
    → find (has_invoice_id k) s.invoices ≡ some a
    → is_settled a.status ≡ true
    → (find (has_invoice_id k) (invoice_calls cs s).invoices ≡ some a)
      × (count_where (pays k) (invoice_calls cs s).payments ≡ count_where (pays k) s.payments)
invoice_calls-final cs k s a good found settled =
    let (good_then, stands, counted) =
      invoice_calls-Stands k a (count_where (pays k) s.payments) settled cs s (good, found, refl) in
    (stands, counted)
