-- ===== src/Billing/Invoices.antt =====
-- The invoices of app/services/billing_service.py.
use python_fastapi_multiauth.Common.{
  ℕ, Option, none, some, [], ◌∷◌, ◌++◌, ◌==◌, Result, ok, err, type_error, ◌>>=◌, OneOrNone, select,
  save,
}
use python_fastapi_multiauth.Common.Int.{pos}
use python_fastapi_multiauth.Billing.Model.{Subscription, Invoice, Db, StripeInvoice, timestamp_or}
use python_fastapi_multiauth.Billing.Service.{Call, is_value}

abbrev pub invoice_key : Invoice → ℕ
invoice_key i = i.id

module _ (one : OneOrNone) where
  -- The id of the row of the invoice's subscription, if there is one.
  unfoldable pub invoice_subscription : StripeInvoice → Db → Result (Option ℕ)
  invoice_subscription si db = elim si.subscription [
    | none ↦ ok none
    | some id ↦ do
      found ← one Subscription (select (λ s. is_value id s.stripe_subscription_id) db.subscriptions)
      ok (elim found [ none ↦ none | some s ↦ some s.id ])
  ]

  unfoldable pub save_invoice : Call → (org : ℕ) → StripeInvoice → Db → Result (Invoice × Db)
  unfolding invoice_subscription
  save_invoice call org si db = do
    subscription_id ← invoice_subscription si db
    found ← one Invoice (select (λ i. i.stripe_invoice_id == si.id) db.invoices)
    elim found [
      | some i ↦ do
        paid ← si.paid_at
        let i = record i {
          status = si.status;
          amount_paid = si.amount_paid;
          amount_remaining = si.amount_remaining;
          paid_at = timestamp_or i.paid_at paid;
        }
        ok (i, record db { invoices = save invoice_key i db.invoices })
      | none ↦ do
        -- the column is not nullable; the webhook saves no invoice without a customer
        customer ← elim si.customer [ none ↦ err type_error | some c ↦ ok c ]
        let i : Invoice = record {
          id = call.invoice_id;
          organization_id = org;
          subscription_id = subscription_id;
          stripe_invoice_id = si.id;
          stripe_customer_id = customer;
          status = si.status;
          amount_due = si.amount_due;
          amount_paid = si.amount_paid;
          amount_remaining = si.amount_remaining;
          subtotal = si.subtotal;
          tax = elim si.tax [ none ↦ pos 0 | some t ↦ t ];
          total = si.total;
          paid_at = timestamp_or none si.transitions_paid_at;
          details = si.details;
        }
        ok (i, record db { invoices = db.invoices ++ i ∷ [] })
    ]
