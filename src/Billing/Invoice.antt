-- ===== src/Billing/Invoice.antt =====
-- The invoice service (apps/billing-service/src/modules/invoice/invoice.service.ts): invoices,
-- their creation and their expiry. Whether the database takes a write is an argument; each method
-- runs alone.
pub mod Payments
pub mod Distinct
pub mod Keeping
pub mod Final
use webrana_cloud.Base.{
  ◌==◌, if◌then◌else◌, is_some, ℤ, ok, err, Action, pure, gets, or_raise, ◌>>=◌, ◌>>◌, raise_if,
  attempt, find, update_row, some_where, ℕ, ◌+◌, ◌*◌, Bool, true, false, not, ◌&&◌, ◌||◌, Option,
  none, some, List, ◌∷◌,
}
use Prim.Native.String.{String}

pub data InvoiceStatus : Type 0 where
  pending paid expired cancelled : InvoiceStatus

pub data PaymentMethod : Type 0 where
  virtual_account ewallet qris_code convenience_store : PaymentMethod

pub data PaymentChannel : Type 0 where
  bca_va bni_va bri_va mandiri_va permata_va bsi_va cimb_va muamalat_va : PaymentChannel
  ovo gopay dana shopeepay linkaja : PaymentChannel
  qris qrisc : PaymentChannel
  alfamart indomaret alfamidi : PaymentChannel

pub data CallbackStatus : Type 0 where
  was_paid was_expired was_failed was_refunded : CallbackStatus

-- The fields of `TripayCallbackPayload` that are used.
pub record TripayCallback : Type 0 where
  pub reference : ℕ
  pub merchant_ref : ℕ
  pub payment_method_code : String
  pub total_amount : ℤ
  pub amount_received : ℤ
  pub status : CallbackStatus
  pub paid_at : Option ℕ

pub record Invoice : Type 0 where
  pub id : ℕ
  pub order_id : ℕ
  pub user_id : ℕ
  pub invoice_number : ℕ
  pub amount : ℤ
  pub status : InvoiceStatus
  pub payment_method : Option PaymentMethod
  pub payment_channel : Option PaymentChannel
  pub payment_code : Option ℕ
  pub payment_url : Option String
  pub payment_name : Option String
  pub payment_fee : Option ℤ
  pub tripay_reference : Option ℕ
  pub paid_at : Option ℕ
  pub paid_amount : Option ℤ
  pub paid_channel : Option String
  pub callback_payload : Option TripayCallback
  pub expired_at : ℕ

-- A row of the table `payments`: the invoice that it belongs to, and the payload, which its other
-- columns copy.
pub record Payment : Type 0 where
  pub invoice_id : ℕ
  pub payload : TripayCallback

-- The tables, and the updates sent to the order service, newest first: an order and a reference.
pub record InvoiceStore : Type 0 where
  pub invoices : List Invoice
  pub payments : List Payment
  pub sent : List (ℕ × ℕ)

pub data InvoiceError : Type 0 where
  already_exists not_found access_denied already_paid invoice_expired invalid_status : InvoiceError
  channel_not_found gateway_failed database_failed : InvoiceError

abbrev pub Invoices : Type 0 → Type 0
Invoices A = Action InvoiceStore InvoiceError A

pub record CreateInvoice : Type 0 where
  pub order_id : ℕ
  pub user_id : ℕ
  pub amount : ℤ

abbrev pub has_invoice_id : ℕ → Invoice → Bool
has_invoice_id k v = v.id == k

abbrev pub has_order : ℕ → Invoice → Bool
has_order o v = v.order_id == o

abbrev pub has_number : ℕ → Invoice → Bool
has_number n v = v.invoice_number == n

abbrev pub is_open : InvoiceStatus → Bool
is_open pending = true
is_open _ = false

-- The statuses that `processCallback` skips.
abbrev pub is_settled : InvoiceStatus → Bool
is_settled paid = true
is_settled expired = true
is_settled _ = false

-- `invoice.update`.
abbrev pub save_invoice : Bool → ℕ → (Invoice → Invoice) → Invoices (Unit {0})
save_invoice saved k f =
    attempt saved database_failed
      (λ s. record s { invoices = update_row (has_invoice_id k) f s.invoices })

abbrev pub new_invoice : ℕ → ℕ → ℕ → ℕ → CreateInvoice → Invoice
new_invoice hours now id number dto = record {
  id = id;
  order_id = dto.order_id;
  user_id = dto.user_id;
  invoice_number = number;
  amount = dto.amount;
  status = pending;
  payment_method = none;
  payment_channel = none;
  payment_code = none;
  payment_url = none;
  payment_name = none;
  payment_fee = none;
  tripay_reference = none;
  paid_at = none;
  paid_amount = none;
  paid_channel = none;
  callback_payload = none;
  expired_at = now + hours * 3600000;
}

-- A unique column of the new row is taken, so the database refuses it.
abbrev pub is_taken : Invoice → List Invoice → Bool
is_taken v vs =
    some_where (has_invoice_id v.id) vs
    || some_where (has_order v.order_id) vs
    || some_where (has_number v.invoice_number) vs

abbrev pub insert_invoice : Bool → Invoice → Invoices Invoice
insert_invoice saved v s =
    if saved && not (is_taken v s.invoices)
    then (ok v, record s { invoices = v ∷ s.invoices })
    else (err database_failed, s)

-- `hours` is `invoiceExpiryHours`; the id and the number are drawn at random.
unfoldable pub create_invoice : ℕ → ℕ → Bool → ℕ → ℕ → CreateInvoice → Invoices Invoice
create_invoice hours now saved id number dto = do
  raise_if (is_some (← gets (λ s. find (has_order dto.order_id) s.invoices))) already_exists
  insert_invoice saved (new_invoice hours now id number dto)

abbrev pub is_denied : Option ℕ → Invoice → Bool
is_denied none v = false
is_denied (some u) v = not (v.user_id == u)

unfoldable pub get_invoice_by_id : ℕ → Option ℕ → Invoices Invoice
get_invoice_by_id k user = do
  v ← or_raise (← gets (λ s. find (has_invoice_id k) s.invoices)) not_found
  raise_if (is_denied user v) access_denied
  pure v

abbrev pub as_expired : Invoice → Invoice
as_expired v = record v { status = expired }

unfoldable pub expire_invoice : Bool → ℕ → Invoices (Unit {0})
expire_invoice saved k = do
  v ← or_raise (← gets (λ s. find (has_invoice_id k) s.invoices)) not_found
  if is_open v.status then save_invoice saved k as_expired else pure tt
