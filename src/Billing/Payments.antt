-- ===== src/Billing/Payments.antt =====
-- The invoice and payment method events of app/api/v1/endpoints/stripe_webhooks.py.
use python_fastapi_multiauth.Common.{
  ℕ, Bool, false, none, some, is_some, if◌then◌else◌, ◌==◌, ◌&&◌, Result, ok, ◌>>=◌, OneOrNone,
  select, delete_where, has_key,
}
use python_fastapi_multiauth.Quota.Model.{past_due}
use python_fastapi_multiauth.Billing.Model.{
  Subscription, PaymentMethod, payment_succeeded, payment_failed, attached, detached, Db,
  StripeInvoice, StripePaymentMethod,
}
use python_fastapi_multiauth.Billing.Service.{
  Call, save_subscription, log_billing_event, save_payment_method, get_organization_subscription,
}
use python_fastapi_multiauth.Billing.Invoices.{save_invoice}
use python_fastapi_multiauth.Billing.Events.{
  InvoiceEvent, succeeded, failed, saved, other_invoice, PaymentMethodEvent, attach, detach,
  other_method,
}

abbrev pub payment_method_key : PaymentMethod → ℕ
payment_method_key m = m.id

abbrev pub of_customer : ℕ → Subscription → Bool
of_customer customer s = s.stripe_customer_id == customer

module _ (one : OneOrNone) (call : Call) where
  unfoldable pub handle_invoice_payment_succeeded :
      (org : ℕ) → StripeInvoice → (event : ℕ) → Db → Result Db
  unfolding save_invoice log_billing_event
  handle_invoice_payment_succeeded org si event db = do
    (i, db) ← save_invoice one call org si db
    ok (log_billing_event org payment_succeeded (some event) none db)

  -- The status is assigned only if it is another one, which makes no difference.
  unfoldable pub handle_invoice_payment_failed :
      (org : ℕ) → StripeInvoice → (event : ℕ) → Db → Result Db
  unfolding save_invoice get_organization_subscription save_subscription log_billing_event
  handle_invoice_payment_failed org si event db = do
    (i, db) ← save_invoice one call org si db
    found ← get_organization_subscription one org db
    let db : Db = elim found [
      | none ↦ db
      | some s ↦ save_subscription (record s { status = past_due }) db
    ]
    ok (log_billing_event org payment_failed (some event) none db)

  unfoldable pub dispatch_invoice :
      InvoiceEvent → (org : ℕ) → StripeInvoice → (event : ℕ) → Db → Result Db
  unfolding handle_invoice_payment_succeeded handle_invoice_payment_failed save_invoice
  dispatch_invoice succeeded org si event db = handle_invoice_payment_succeeded org si event db
  dispatch_invoice failed org si event db = handle_invoice_payment_failed org si event db
  dispatch_invoice saved org si event db = do (i, db) ← save_invoice one call org si db; ok db
  dispatch_invoice other_invoice org si event db = ok db

  unfoldable pub handle_invoice_event : InvoiceEvent → StripeInvoice → (event : ℕ) → Db → Result Db
  unfolding dispatch_invoice
  handle_invoice_event kind si event db = elim si.customer [
    | none ↦ ok db
    | some customer ↦ do
      found ← one Subscription (select (of_customer customer) db.subscriptions)
      elim found [ none ↦ ok db | some s ↦ dispatch_invoice kind s.organization_id si event db ]
  ]

  unfoldable pub handle_payment_method_attached :
      (org : ℕ) → StripePaymentMethod → (event : ℕ) → Db → Result Db
  unfolding save_payment_method log_billing_event
  handle_payment_method_attached org pm event db = do
    existing ←
        one PaymentMethod (select (λ m. m.stripe_payment_method_id == pm.id) db.payment_methods)
    let db = if is_some existing then db else save_payment_method call org pm false db
    ok (log_billing_event org attached (some event) none db)

  unfoldable pub handle_payment_method_detached :
      (org : ℕ) → StripePaymentMethod → (event : ℕ) → Db → Result Db
  unfolding log_billing_event
  handle_payment_method_detached org pm event db = do
    found ← one PaymentMethod (
        select (λ m. m.stripe_payment_method_id == pm.id && m.organization_id == org)
          db.payment_methods)
    let db : Db = elim found [
      | none ↦ db
      | some m ↦ record db {
        payment_methods = delete_where (has_key payment_method_key m.id) db.payment_methods;
      }
    ]
    ok (log_billing_event org detached (some event) none db)

  unfoldable pub dispatch_payment_method :
      PaymentMethodEvent → (org : ℕ) → StripePaymentMethod → (event : ℕ) → Db → Result Db
  unfolding handle_payment_method_attached handle_payment_method_detached
  dispatch_payment_method attach org pm event db = handle_payment_method_attached org pm event db
  dispatch_payment_method detach org pm event db = handle_payment_method_detached org pm event db
  dispatch_payment_method other_method org pm event db = ok db

  unfoldable pub handle_payment_method_event :
      PaymentMethodEvent → StripePaymentMethod → (event : ℕ) → Db → Result Db
  unfolding dispatch_payment_method
  handle_payment_method_event kind pm event db = elim pm.customer [
    | none ↦ ok db
    | some customer ↦ do
      found ← one Subscription (select (of_customer customer) db.subscriptions)
      elim found [
        | none ↦ ok db
        | some s ↦ dispatch_payment_method kind s.organization_id pm event db
      ]
  ]
