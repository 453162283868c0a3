-- ===== src/Billing/Invoice/Payments.antt =====
-- The payment of an invoice: `initiatePayment` and `processCallback` of the invoice service, and the
-- fee of a channel (apps/billing-service/src/modules/tripay/tripay.service.ts). What the gateway
-- answers is an argument; `none` is an exception of its client.
use webrana_cloud.Base.{
  ltb, ◌==◌, if◌then◌else◌, ℤ, pos, ◌+ℤ◌, ltb_ℤ, pure, raise, or_raise, ◌>>=◌, ◌>>◌, modify,
  attempt, find, ℕ, ◌*◌, Bool, ◌&&◌, ◌||◌, Option, none, some, List, ◌∷◌,
}
use webrana_cloud.Billing.Invoice.{
  InvoiceStatus, pending, paid, expired, cancelled, PaymentMethod, virtual_account, ewallet,
  qris_code, convenience_store, PaymentChannel, bca_va, bni_va, bri_va, mandiri_va, permata_va,
  bsi_va, cimb_va, muamalat_va, ovo, dana, shopeepay, linkaja, qris, qrisc, alfamart, indomaret,
  alfamidi, CallbackStatus, was_paid, was_expired, was_failed, was_refunded, TripayCallback,
  Invoice, already_paid, invoice_expired, invalid_status, channel_not_found, gateway_failed,
  database_failed, Invoices, has_number, is_settled, save_invoice, get_invoice_by_id,
  expire_invoice,
}
use Prim.Native.String.{String}
use text.Mathlib.Text.{◌==◌ as str_eq}

-- A channel as the gateway lists it. `percent_of` is the rounded percentage of an amount.
pub record TripayChannel : Type 0 where
  pub code : String
  pub type : String
  pub flat : ℤ
  pub percent_of : ℤ → ℤ
  pub minimum_fee : ℤ
  pub maximum_fee : ℤ

-- What `tripayService.createTransaction` returns of use.
pub record InvoiceTransaction : Type 0 where
  pub reference : ℕ
  pub pay_code : ℕ
  pub checkout_url : String
  pub payment_name : String

unfoldable pub map_payment_channel : String → Option PaymentChannel
map_payment_channel c =
    if str_eq c "BRIVA"
    then some bri_va
    else if str_eq c "BCAVA"
    then some bca_va
    else if str_eq c "BNIVA"
    then some bni_va
    else if str_eq c "MANDIRIVA"
    then some mandiri_va
    else if str_eq c "PERMATAVA"
    then some permata_va
    else if str_eq c "BSIVA"
    then some bsi_va
    else if str_eq c "CIMBVA"
    then some cimb_va
    else if str_eq c "MUAMALATVA"
    then some muamalat_va
    else if str_eq c "OVO"
    then some ovo
    else if str_eq c "QRIS"
    then some qris
    else if str_eq c "QRISC"
    then some qrisc
    else if str_eq c "DANA"
    then some dana
    else if str_eq c "SHOPEEPAY"
    then some shopeepay
    else if str_eq c "LINKAJA"
    then some linkaja
    else if str_eq c "ALFAMART"
    then some alfamart
    else if str_eq c "INDOMARET"
    then some indomaret
    else if str_eq c "ALFAMIDI"
    then some alfamidi
    else none

unfoldable pub get_payment_method : TripayChannel → PaymentMethod
get_payment_method c =
    if str_eq c.type "virtual_account"
    then virtual_account
    else if str_eq c.type "ewallet"
    then ewallet
    else if str_eq c.type "qris"
    then qris_code
    else if str_eq c.type "convenience_store"
    then convenience_store
    else virtual_account

-- A limit of 0 is no limit.
abbrev pub is_set : ℤ → Bool
is_set x = ltb_ℤ x (pos 0) || ltb_ℤ (pos 0) x

abbrev pub raised_to : ℤ → ℤ → ℤ
raised_to m x = if is_set m && ltb_ℤ x m then m else x

abbrev pub lowered_to : ℤ → ℤ → ℤ
lowered_to m x = if is_set m && ltb_ℤ m x then m else x

abbrev pub calculate_fee : TripayChannel → ℤ → ℤ
calculate_fee c amount =
    lowered_to c.maximum_fee (raised_to c.minimum_fee (c.flat +ℤ c.percent_of amount))

-- The guards of `initiatePayment` on the status.
abbrev pub check_payable : InvoiceStatus → Invoices (Unit {0})
check_payable pending = pure tt
check_payable paid = raise already_paid
check_payable expired = raise invoice_expired
check_payable cancelled = raise invalid_status

-- The guard on the time, which expires the invoice before it raises.
abbrev pub check_in_time : ℕ → Bool → Invoice → Invoices (Unit {0})
check_in_time now saved v =
    if ltb v.expired_at now then (do expire_invoice saved v.id; raise invoice_expired) else pure tt

abbrev pub with_payment : String → TripayChannel → InvoiceTransaction → Invoice → Invoice
with_payment code c t v = record v {
  payment_method = some (get_payment_method c);
  payment_channel = map_payment_channel code;
  payment_code = some t.pay_code;
  payment_url = some t.checkout_url;
  payment_name = some t.payment_name;
  payment_fee = some (calculate_fee c v.amount);
  tripay_reference = some t.reference;
}

-- The invoice with its payment, and the total amount.
abbrev pub attach_transaction :
    Bool → String → TripayChannel → InvoiceTransaction → Invoice → Invoices (Invoice × ℤ)
attach_transaction saved code c t v = do
  save_invoice saved v.id (with_payment code c t)
  pure (with_payment code c t v, v.amount +ℤ calculate_fee c v.amount)

-- The gateway is asked for its channels and for a transaction.
abbrev pub begin_payment :
    Bool
    → Option (List TripayChannel)
    → Option InvoiceTransaction
    → String
    → Invoice
    → Invoices (Invoice × ℤ)
begin_payment saved channels created code v = do
  listed ← or_raise channels gateway_failed
  c ← or_raise (find (λ c. str_eq c.code code) listed) channel_not_found
  t ← or_raise created gateway_failed
  attach_transaction saved code c t v

abbrev pub pay_invoice :
    ℕ
    → Bool
    → Option (List TripayChannel)
    → Option InvoiceTransaction
    → String
    → Invoice
    → Invoices (Invoice × ℤ)
pay_invoice now saved channels created code v = do
  check_payable v.status
  check_in_time now saved v
  begin_payment saved channels created code v

unfoldable pub initiate_payment :
    ℕ
    → Bool
    → Option (List TripayChannel)
    → Option InvoiceTransaction
    → ℕ
    → String
    → Option ℕ
    → Invoices (Invoice × ℤ)
initiate_payment now saved channels created k code user = do
  v ← get_invoice_by_id k user
  pay_invoice now saved channels created code v

-- `payload.paid_at ? new Date(payload.paid_at * 1000) : new Date()`.
abbrev pub payment_time : ℕ → Option ℕ → ℕ
payment_time now none = now
payment_time now (some t) = if t == 0 then now else t * 1000

abbrev pub as_paid : ℕ → TripayCallback → Invoice → Invoice
as_paid now p v = record v {
  status = paid;
  paid_at = some (payment_time now p.paid_at);
  paid_amount = some p.amount_received;
  paid_channel = some p.payment_method_code;
  callback_payload = some p;
}

abbrev pub as_lapsed : TripayCallback → Invoice → Invoice
as_lapsed p v = record v { status = expired; callback_payload = some p }

-- `payment.create`.
abbrev pub record_payment : Bool → ℕ → TripayCallback → Invoices (Unit {0})
record_payment saved k p =
    attempt saved database_failed
      (λ s. record s { payments = record { invoice_id = k; payload = p } ∷ s.payments })

-- `orderClientService.updatePaymentStatus`, whose exception is caught.
abbrev pub notify_order : ℕ → ℕ → Invoices (Unit {0})
notify_order order reference = modify (λ s. record s { sent = (order, reference) ∷ s.sent })

-- By the status that the gateway reports.
abbrev pub apply_callback :
    ℕ → Bool → Invoice → TripayCallback → CallbackStatus → Invoices (Unit {0})
apply_callback now saved v p was_paid = do
  save_invoice saved v.id (as_paid now p)
  notify_order v.order_id p.reference
apply_callback now saved v p was_expired = save_invoice saved v.id (as_lapsed p)
apply_callback now saved v p was_failed = pure tt
apply_callback now saved v p was_refunded = pure tt

-- By what the look-up has returned.
abbrev pub process_invoice : ℕ → Bool → Bool → TripayCallback → Option Invoice → Invoices (Unit {0})
process_invoice now recorded saved p none = pure tt
process_invoice now recorded saved p (some v) =
    if is_settled v.status
    then pure tt
    else (do record_payment recorded v.id p; apply_callback now saved v p p.status)

-- `recorded` and `saved` say whether the payment's row and the invoice's are written.
unfoldable pub process_callback : ℕ → Bool → Bool → TripayCallback → Invoices (Unit {0})
process_callback now recorded saved p s =
    process_invoice now recorded saved p (find (has_number p.merchant_ref) s.invoices) s
