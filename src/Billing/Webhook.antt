-- ===== src/Billing/Webhook.antt =====
-- app/api/v1/endpoints/stripe_webhooks.py. The stripe package's construct_event is a parameter: it gives
-- the event of a payload and a signature, or raises ValueError or SignatureVerificationError, `none`.
use python_fastapi_multiauth.Common.{
  ℕ, Bool, Option, none, some, is_some, if◌then◌else◌, Result, ok, err, http, ◌>>=◌, OneOrNone,
  select,
}
use python_fastapi_multiauth.Billing.Model.{BillingEvent, Db}
use python_fastapi_multiauth.Billing.Service.{Call, is_value}
use python_fastapi_multiauth.Billing.Events.{
  Payload, of_subscription, of_invoice, of_payment_method, of_other, Event, Response, success,
  duplicate_event,
}
use python_fastapi_multiauth.Billing.Subscribe.{handle_subscription_event}
use python_fastapi_multiauth.Billing.Payments.{handle_invoice_event, handle_payment_method_event}

abbrev pub of_event : ℕ → BillingEvent → Bool
of_event event e = is_value event e.stripe_event_id

module _ (one : OneOrNone) (call : Call) where
  unfoldable pub route : Payload → (event : ℕ) → Db → Result Db
  unfolding handle_subscription_event handle_invoice_event handle_payment_method_event
  route (of_subscription kind ss) event db = handle_subscription_event one call kind ss event db
  route (of_invoice kind si) event db = handle_invoice_event one call kind si event db
  route (of_payment_method kind pm) event db = handle_payment_method_event one call kind pm event db
  route of_other event db = ok db

  -- `except Exception: rollback; raise HTTPException(500)`
  unfoldable pub processed : Result Db → Result (Response × Db)
  processed (ok db) = ok (success, db)
  processed (err raised) = err (http "500")

  unfoldable pub process_event : Event → Db → Result (Response × Db)
  unfolding route processed
  process_event event db = do
    existing ← one BillingEvent (select (of_event event.id) db.events)
    if is_some existing
        then ok (duplicate_event, db)
        else processed (route event.payload event.id db)

  unfoldable pub handle_stripe_webhook :
      ((payload signature : ℕ) → Option Event)
      → (payload : ℕ) → (signature : Option ℕ) → Db
      → Result (Response × Db)
  unfolding process_event
  handle_stripe_webhook construct payload signature db = elim signature [
    | none ↦ err (http "400")
    | some sig_header ↦ elim (construct payload sig_header) [
      | none ↦ err (http "400")
      | some event ↦ process_event event db
    ]
  ]
