-- ===== src/Tests/Invoices.antt =====
-- Two invoices, the first of which is paid by a callback that is delivered twice.
use webrana_cloud.Base.{pos, ◌+ℤ◌, find, count_where, ℕ, ◌≡◌, refl, true, some, List, [], ◌∷◌}
use webrana_cloud.Billing.Invoice.{
  CallbackStatus, was_paid, was_expired, TripayCallback, Invoice, InvoiceStore, CreateInvoice,
  has_invoice_id, new_invoice, create_invoice, get_invoice_by_id, expire_invoice,
}
use webrana_cloud.Billing.Invoice.Payments.{
  TripayChannel, InvoiceTransaction, calculate_fee, with_payment, initiate_payment, as_paid,
  process_callback,
}
use webrana_cloud.Billing.Invoice.Distinct.{distinct}
use webrana_cloud.Billing.Invoice.Keeping.{pays}
use webrana_cloud.Billing.Invoice.Final.{
  InvoiceCall, create, initiate, call_back, expire, invoice_calls, invoice_calls-final,
}

abbrev bill : ℕ → CreateInvoice
bill order = record { order_id = order; user_id = 7; amount = pos 150000 }

abbrev bank : TripayChannel
bank = record {
  code = "BRIVA";
  type = "virtual_account";
  flat = pos 4000;
  percent_of = λ _. pos 0;
  minimum_fee = pos 0;
  maximum_fee = pos 0;
}

abbrev opened : InvoiceTransaction
opened = record { reference = 900; pay_code = 901; checkout_url = "https"; payment_name = "BRI" }

abbrev payment : CallbackStatus → TripayCallback
payment st = record {
  reference = 900;
  merchant_ref = 31;
  payment_method_code = "BRIVA";
  total_amount = pos 154000;
  amount_received = pos 150000;
  status = st;
  paid_at = some 5;
}

abbrev nothing : InvoiceStore
nothing = record { invoices = []; payments = []; sent = [] }

abbrev issued : List InvoiceCall
issued =
    create 24 1000 true 1 31 (bill 11)
    ∷ create 24 1000 true 2 32 (bill 12)
    ∷ create 24 1000 true 3 33 (bill 12)
    ∷ initiate 2000 true (some (bank ∷ [])) (some opened) 1 "BRIVA" (some 7)
    ∷ call_back 3000 true true (payment was_paid)
    ∷ []

abbrev later : List InvoiceCall
later =
    call_back 4000 true true (payment was_paid)
    ∷ call_back 4000 true true (payment was_expired)
    ∷ expire true 1
    ∷ expire true 2
    ∷ initiate 5000 true (some (bank ∷ [])) (some opened) 1 "BRIVA" (some 7)
    ∷ []

abbrev settled_one : Invoice
settled_one =
    as_paid 3000 (payment was_paid)
      (with_payment "BRIVA" bank opened (new_invoice 24 1000 1 31 (bill 11)))

after_payment :
    (invoice_calls issued nothing).invoices ≡ new_invoice 24 1000 2 32 (bill 12) ∷ settled_one ∷ []
unfolding create_invoice initiate_payment get_invoice_by_id process_callback
after_payment = refl

-- The order service hears of the payment once.
told_once : (invoice_calls later (invoice_calls issued nothing)).sent ≡ (11, 900) ∷ []
unfolding create_invoice initiate_payment get_invoice_by_id process_callback expire_invoice
told_once = refl

fee : calculate_fee bank (pos 150000) ≡ pos 4000
unfolding ◌+ℤ◌
fee = refl

invoice_calls-final_example :
    (find (has_invoice_id 1) (invoice_calls later (invoice_calls issued nothing)).invoices
      ≡ some settled_one)
    × (count_where (pays 1) (invoice_calls later (invoice_calls issued nothing)).payments
        ≡ count_where (pays 1) (invoice_calls issued nothing).payments)
unfolding create_invoice initiate_payment get_invoice_by_id process_callback distinct
invoice_calls-final_example =
    invoice_calls-final later 1 (invoice_calls issued nothing) settled_one refl refl refl
