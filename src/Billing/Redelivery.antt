-- ===== src/Billing/Redelivery.antt =====
-- A Stripe event that is delivered again (app/api/v1/endpoints/stripe_webhooks.py).
use python_fastapi_multiauth.Common.{
  ℕ, ◌≡◌, refl, sym, ap, ◌∙◌, ◌⊎◌, inl, inr, Bool, true, false, Option, none, some, List, [], ◌∷◌,
  Result, ok, err, ok-injective, ok≢err, OneOrNone, IsOneOrNone, only_row, eq-only_row, select,
  select-append, arith, List-cases,
}
use mathlib.Core.Bool.{true≢false}
use python_fastapi_multiauth.Billing.Model.{
  Subscription, Invoice, PaymentMethod, subscription_deleted, trial_will_end, BillingEvent, Db,
  StripeSubscription, StripeInvoice, StripePaymentMethod,
}
use python_fastapi_multiauth.Billing.Events.{
  SubscriptionEvent, created, updated, deleted, will_end, other_subscription, InvoiceEvent,
  succeeded, failed, saved, other_invoice, PaymentMethodEvent, attach, detach, other_method,
  Payload, of_subscription, of_invoice, of_payment_method, of_other, Event, Response,
  duplicate_event,
}
use python_fastapi_multiauth.Billing.Subscribe.{
  handle_subscription_created, handle_subscription_updated, downgrade, handle_subscription_deleted,
  handle_trial_will_end, dispatch_subscription, handle_subscription_event,
}
use python_fastapi_multiauth.Billing.Payments.{
  handle_invoice_payment_succeeded, handle_invoice_payment_failed, dispatch_invoice,
  handle_invoice_event, handle_payment_method_attached, handle_payment_method_detached,
  dispatch_payment_method, handle_payment_method_event,
}
use python_fastapi_multiauth.Billing.Webhook.{of_event, route, processed, process_event}
use python_fastapi_multiauth.Billing.Service.{
  Call, save_subscription, update_subscription_from_stripe, log_billing_event, save_payment_method,
}
use python_fastapi_multiauth.Billing.Recorded.{
  Added, RecordsAt, Records, unchanged, logged, bind-Records, bind_in-Records, bind_db-Records,
  elim_id-Records, elim-Records, store-KeepsIn, change-KeepsIn, downgrade-Keeps, invoice-KeepsIn,
}

-- The payloads that leave a row in the events: all but those that only save an invoice.
abbrev pub is_recorded : Payload → Bool
is_recorded (of_invoice saved si) = false
is_recorded (of_invoice kind si) = true
is_recorded p = true

module _ (call : Call) (event : ℕ) where
  created-Records :
      (org : ℕ) (ss : StripeSubscription) (db : Db)
      → Records event db (handle_subscription_created only_row call org ss event db)
  unfolding handle_subscription_created
  created-Records org ss db = elim_id-Records event db ss.plan_id _ (λ plan.
      bind_in-Records event Subscription db _ _ (store-KeepsIn call org plan ss db)
        (λ s db' same. logged event org _ _ db db' same))

  updated-Records :
      (org : ℕ) (ss : StripeSubscription) (db : Db)
      → Records event db (handle_subscription_updated only_row call org ss event db)
  unfolding handle_subscription_updated save_subscription
  updated-Records org ss db = bind-Records event (Option Subscription) db _ _ (λ found.
      elim-Records event Subscription db found _ (λ s.
        bind_in-Records event Subscription db _ _ (change-KeepsIn call org ss _ _)
          (λ s' db' same. logged event org _ _ db db' same)))

  deleted-Records :
      (org : ℕ) (ss : StripeSubscription) (db : Db)
      → Records event db (handle_subscription_deleted only_row call org ss event db)
  unfolding handle_subscription_deleted save_subscription
  deleted-Records org ss db = bind-Records event (Option Subscription) db _ _ (λ found.
      elim-Records event Subscription db found _ (λ s.
        let s' = update_subscription_from_stripe ss s in
        let result = downgrade only_row call org s' (save_subscription s' db) in
        bind_db-Records event db result
          (λ db'. ok (log_billing_event org subscription_deleted (some event) (some s'.id) db'))
          (downgrade-Keeps call org s' (save_subscription s' db))
          (λ db' same. logged event org _ _ db db' same)))

  trial-Records :
      (org : ℕ) (db : Db) → Records event db (handle_trial_will_end only_row call org event db)
  unfolding handle_trial_will_end
  trial-Records org db = bind-Records event (Option Subscription) db _ _ (λ found.
      elim found
        as (λ f. Records event db (
          ok (elim f [
            | none ↦ db
            | some s ↦ log_billing_event org trial_will_end (some event) (some s.id) db
          ]))) [ none ↦ unchanged event db | some s ↦ logged event org _ _ db db refl ])

  succeeded-Records :
      (org : ℕ) (si : StripeInvoice) (db : Db)
      → Records event db (handle_invoice_payment_succeeded only_row call org si event db)
  unfolding handle_invoice_payment_succeeded
  succeeded-Records org si db =
      bind_in-Records event Invoice db _ _ (invoice-KeepsIn call org si db)
        (λ i db' same. logged event org _ _ db db' same)

  failed-Records :
      (org : ℕ) (si : StripeInvoice) (db : Db)
      → Records event db (handle_invoice_payment_failed only_row call org si event db)
  unfolding handle_invoice_payment_failed save_subscription
  failed-Records org si db =
      bind_in-Records event Invoice db _ _ (invoice-KeepsIn call org si db) (λ i db' same.
        bind-Records event (Option Subscription) db _ _
          (λ found. logged event org _ _ db _ (ground arith)))

  attached-Records :
      (org : ℕ) (pm : StripePaymentMethod) (db : Db)
      → Records event db (handle_payment_method_attached only_row call org pm event db)
  unfolding handle_payment_method_attached save_payment_method
  attached-Records org pm db =
      bind-Records event (Option PaymentMethod) db _ _
        (λ found. logged event org _ _ db _ (ground arith))

  detached-Records :
      (org : ℕ) (pm : StripePaymentMethod) (db : Db)
      → Records event db (handle_payment_method_detached only_row call org pm event db)
  unfolding handle_payment_method_detached
  detached-Records org pm db =
      bind-Records event (Option PaymentMethod) db _ _
        (λ found. logged event org _ _ db _ (ground arith))

  dispatch_subscription-Records :
      (kind : SubscriptionEvent) (org : ℕ) (ss : StripeSubscription) (db : Db)
      → Records event db (dispatch_subscription only_row call kind org ss event db)
  unfolding dispatch_subscription
  dispatch_subscription-Records created org ss db = created-Records org ss db
  dispatch_subscription-Records updated org ss db = updated-Records org ss db
  dispatch_subscription-Records deleted org ss db = deleted-Records org ss db
  dispatch_subscription-Records will_end org ss db = trial-Records org db
  dispatch_subscription-Records other_subscription org ss db = unchanged event db

  dispatch_method-Records :
      (kind : PaymentMethodEvent) (org : ℕ) (pm : StripePaymentMethod) (db : Db)
      → Records event db (dispatch_payment_method only_row call kind org pm event db)
  unfolding dispatch_payment_method
  dispatch_method-Records attach org pm db = attached-Records org pm db
  dispatch_method-Records detach org pm db = detached-Records org pm db
  dispatch_method-Records other_method org pm db = unchanged event db

  subscription-Records :
      (kind : SubscriptionEvent) (ss : StripeSubscription) (db : Db)
      → Records event db (handle_subscription_event only_row call kind ss event db)
  unfolding handle_subscription_event
  subscription-Records kind ss db = elim_id-Records event db ss.organization_id _ (λ org_id.
      bind-Records event (Option ℕ) db _ _ (λ found.
        elim-Records event ℕ db found _ (λ org. dispatch_subscription-Records kind org ss db)))

  method-Records :
      (kind : PaymentMethodEvent) (pm : StripePaymentMethod) (db : Db)
      → Records event db (handle_payment_method_event only_row call kind pm event db)
  unfolding handle_payment_method_event
  method-Records kind pm db = elim-Records event ℕ db pm.customer _ (λ customer.
      bind-Records event (Option Subscription) db _ _ (λ found.
        elim-Records event Subscription db found _
          (λ s. dispatch_method-Records kind s.organization_id pm db)))

  dispatch_invoice-Records :
      (kind : InvoiceEvent) (org : ℕ) (si : StripeInvoice) (db : Db)
      → is_recorded (of_invoice kind si) ≡ true
      → Records event db (dispatch_invoice only_row call kind org si event db)
  unfolding dispatch_invoice
  dispatch_invoice-Records succeeded org si db h = succeeded-Records org si db
  dispatch_invoice-Records failed org si db h = failed-Records org si db
  dispatch_invoice-Records saved org si db h = absurd (true≢false (sym h))
  dispatch_invoice-Records other_invoice org si db h = unchanged event db

  invoice-Records :
      (kind : InvoiceEvent) (si : StripeInvoice) (db : Db)
      → is_recorded (of_invoice kind si) ≡ true
      → Records event db (handle_invoice_event only_row call kind si event db)
  unfolding handle_invoice_event
  invoice-Records kind si db h = elim-Records event ℕ db si.customer _ (λ customer.
      bind-Records event (Option Subscription) db _ _ (λ found.
        elim-Records event Subscription db found _
          (λ s. dispatch_invoice-Records kind s.organization_id si db h)))

  route-Records :
      (p : Payload) (db : Db)
      → is_recorded p ≡ true
      → Records event db (route only_row call p event db)
  unfolding route
  route-Records (of_subscription kind ss) db h = subscription-Records kind ss db
  route-Records (of_invoice kind si) db h = invoice-Records kind si db h
  route-Records (of_payment_method kind pm) db h = method-Records kind pm db
  route-Records of_other db h = unchanged event db

processed-Added :
    (call : Call) (event : ℕ) (db db1 : Db) (result : Result Db) (r : Response)
    → RecordsAt event db result
    → processed only_row call result ≡ ok (r, db1)
    → (db1 ≡ db) ⊎ Added event db db1
unfolding processed
processed-Added call event db db1 (ok db') r (inl e) h =
    inl (sym (ap (λ p. p.1) (ok-injective h)) ∙ e)
processed-Added call event db db1 (ok db') r (inr (row, is_event, added)) h =
    inr (row, is_event, ap (λ p. p.1.events) (sym (ok-injective h)) ∙ added)
processed-Added call event db db1 (err e) r t h = absurd (ok≢err (sym h))

-- An event of which there is a row is not processed.
second :
    (call : Call) (event : Event) (db db1 later : Db)
    → select (of_event event.id) later.events ≡ select (of_event event.id) db1.events
    → select (of_event event.id) db.events ≡ []
    → Added event.id db db1
    → process_event only_row call event later ≡ ok (duplicate_event, later)
unfolding process_event
second call event db db1 later held fresh (row, is_event, added) =
    rw (held, added, select-append (of_event event.id) db.events (row ∷ []), fresh, is_event)

fresh-process :
    (call : Call) (event : Event) (db : Db)
    → select (of_event event.id) db.events ≡ []
    → process_event only_row call event db
      ≡ processed only_row call (route only_row call event.payload event.id db)
unfolding process_event
fresh-process call event db fresh = rw fresh

seen-process :
    (call : Call) (event : Event) (db db1 : Db) (r : Response)
    → (row : BillingEvent) × (rows : List BillingEvent) × (select (of_event event.id) db.events
        ≡ row ∷ rows)
    → process_event only_row call event db ≡ ok (r, db1)
    → db1 ≡ db
unfolding process_event
seen-process call event db db1 r (row, rows, seen) h = ground (arith, seen, h)

first :
    (call : Call) (event : Event) (db db1 : Db) (r : Response)
    → is_recorded event.payload ≡ true
    → process_event only_row call event db ≡ ok (r, db1)
    → (db1 ≡ db) ⊎ ((select (of_event event.id) db.events ≡ []) × Added event.id db db1)
first call event db db1 r rec h = elim (List-cases (select (of_event event.id) db.events)) [
  | inr seen ↦ inl (seen-process call event db db1 r seen h)
  | inl fresh ↦
      elim (processed-Added call event.id db db1 (route only_row call event.payload event.id db) r
        (route-Records call event.id event.payload db rec).holds
        (sym (fresh-process call event db fresh) ∙ h)) [
          | inl e ↦ inl e
          | inr added ↦ inr (fresh, added)
        ]
]

redelivered :
    (call again : Call) (event : Event) (db db1 later : Db) (r : Response)
    → is_recorded event.payload ≡ true
    → process_event only_row call event db ≡ ok (r, db1)
    → select (of_event event.id) later.events ≡ select (of_event event.id) db1.events
    → (db1 ≡ db) ⊎ (process_event only_row again event later ≡ ok (duplicate_event, later))
redelivered call again event db db1 later r rec h held = elim (first call event db db1 r rec h) [
  | inl e ↦ inl e
  | inr (fresh, added) ↦ inr (second again event db db1 later held fresh added)
]

-- If the webhook answers the delivery of an event that is not one of the invoice events that only save
-- the invoice, then it changed nothing, or a later delivery of that event, at whatever time and to
-- whatever tables in which the recorded rows of that event are the ones that it left, is answered with
-- "duplicate_event" and changes nothing.
pub redelivery :
    (one : OneOrNone) (law : IsOneOrNone one) (call again : Call) (event : Event)
    (db db1 later : Db) (r : Response)
    → is_recorded event.payload ≡ true
    → process_event one call event db ≡ ok (r, db1)
    → select (of_event event.id) later.events ≡ select (of_event event.id) db1.events
    → (db1 ≡ db) ⊎ (process_event one again event later ≡ ok (duplicate_event, later))
redelivery one law = rw (eq-only_row one law) redelivered
