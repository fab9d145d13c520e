-- ===== src/Billing/PaidAgain.antt =====
-- The payment of an invoice that is stored already (app/api/v1/endpoints/stripe_webhooks.py,
-- app/services/billing_service.py).
use python_fastapi_multiauth.Common.{
  ℕ, ◌≡◌, refl, some, [], ◌∷◌, ◌==◌, Result, ok, err, http, Error, OneOrNone, IsOneOrNone, only_row,
  eq-only_row, select, arith,
}
use python_fastapi_multiauth.Billing.Model.{Subscription, Invoice, Db, StripeInvoice}
use python_fastapi_multiauth.Billing.Service.{Call}
use python_fastapi_multiauth.Billing.Events.{succeeded, of_invoice}
use python_fastapi_multiauth.Billing.Invoices.{save_invoice}
use python_fastapi_multiauth.Billing.Payments.{
  of_customer, handle_invoice_payment_succeeded, dispatch_invoice, handle_invoice_event,
}
use python_fastapi_multiauth.Billing.Webhook.{of_event, route, processed, process_event}

-- The answer is an exception.
abbrev pub Raises : {A : Type 0} → Result A → Type 0
Raises (ok a) = ⊥
Raises (err e) = Unit

save_invoice-Raises :
    (call : Call) (org : ℕ) (si : StripeInvoice) (i : Invoice) (db : Db) (e : Error)
    → select (λ i. i.stripe_invoice_id == si.id) db.invoices ≡ i ∷ []
    → si.paid_at ≡ err e
    → Raises (save_invoice only_row call org si db)
unfolding save_invoice
save_invoice-Raises call org si i db e stored raised = ground arith

payment-Raises :
    (call : Call) (org event : ℕ) (si : StripeInvoice) (db : Db)
    → Raises (save_invoice only_row call org si db)
    → Raises (handle_invoice_payment_succeeded only_row call org si event db)
unfolding handle_invoice_payment_succeeded
payment-Raises call org event si db h = ground arith

succeeded-event :
    (call : Call) (event customer : ℕ) (si : StripeInvoice) (s : Subscription) (db : Db)
    → si.customer ≡ some customer
    → select (of_customer customer) db.subscriptions ≡ s ∷ []
    → handle_invoice_event only_row call succeeded si event db
      ≡ handle_invoice_payment_succeeded only_row call s.organization_id si event db
unfolding handle_invoice_event dispatch_invoice
succeeded-event call event customer si s db is_customer found =
    simp (handle_invoice_event, is_customer, found)

processed-Raises :
    (call : Call) (r : Result Db) → Raises r → processed only_row call r ≡ err (http "500")
unfolding processed
processed-Raises call (ok db) h = absurd h
processed-Raises call (err e) h = refl

-- If an invoice is stored, the customer has one subscription, and the Stripe object has no `paid_at`
-- (reading it raises), then the first delivery of its successful payment is answered with the status
-- 500, so that nothing of it is stored.
paid_lost :
    (one : OneOrNone) (law : IsOneOrNone one) (call : Call) (event customer : ℕ)
    (si : StripeInvoice) (s : Subscription) (i : Invoice) (db : Db) (e : Error)
    → select (of_event event) db.events ≡ []
    → si.customer ≡ some customer
    → select (of_customer customer) db.subscriptions ≡ s ∷ []
    → select (λ i. i.stripe_invoice_id == si.id) db.invoices ≡ i ∷ []
    → si.paid_at ≡ err e
    → process_event one call (record { id = event; payload = of_invoice succeeded si }) db
      ≡ err (http "500")
unfolding process_event route
paid_lost one law call event customer si s i db e fresh is_customer found stored raised =
    rw (eq-only_row one law, fresh)
      (processed-Raises call (handle_invoice_event only_row call succeeded si event db) (
        rw (succeeded-event call event customer si s db is_customer found) (
          payment-Raises call s.organization_id event si db
            (save_invoice-Raises call s.organization_id si i db e stored raised))))
