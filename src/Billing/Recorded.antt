-- ===== src/Billing/Recorded.antt =====
-- What the handlers of app/api/v1/endpoints/stripe_webhooks.py leave of the list of events.
use python_fastapi_multiauth.Common.{
  ℕ, ◌≡◌, refl, ap, ◌⊎◌, inl, inr, true, Option, none, some, [], ◌∷◌, ◌++◌, ==_refl, Result, ok,
  err, ◌>>=◌, only_row, arith,
}
use python_fastapi_multiauth.Billing.Model.{
  Plan, Subscription, EventType, BillingEvent, Db, MetadataId, absent, malformed, uuid,
  StripeSubscription, StripeInvoice,
}
use python_fastapi_multiauth.Billing.Subscribe.{store_subscription, change_plan, downgrade}
use python_fastapi_multiauth.Billing.Invoices.{save_invoice}
use python_fastapi_multiauth.Billing.Service.{
  Call, is_value, save_subscription, log_billing_event, get_plan_by_id, update_quotas_from_plan,
  create_paid_subscription,
}

-- What a call that returns tables leaves of the list of events.
abbrev pub Keeps : Db → Result Db → Type 0
Keeps db (ok db') = db'.events ≡ db.events
Keeps db (err e) = Unit

abbrev pub KeepsIn : {A : Type 0} → Db → Result (A × Db) → Type 0
KeepsIn db (ok (a, db')) = db'.events ≡ db.events
KeepsIn db (err e) = Unit

module _ (call : Call) where
  pub quotas-Keeps :
      (org : ℕ) (plan : Plan) (db : Db)
      → Keeps db (update_quotas_from_plan only_row call org plan db)
  unfolding update_quotas_from_plan
  quotas-Keeps org plan db = ground arith

  pub paid-KeepsIn :
      (org plan : ℕ) (ss : StripeSubscription) (db : Db)
      → KeepsIn db (create_paid_subscription only_row call org plan ss db)
  unfolding create_paid_subscription get_plan_by_id
  paid-KeepsIn org plan ss db = ground (arith, quotas-Keeps org)

-- The tables have one more event, one of this delivery.
abbrev pub Added : (event : ℕ) → Db → Db → Type 0
Added event db db' =
    (row : BillingEvent) × (is_value event row.stripe_event_id ≡ true)
    × (db'.events ≡ db.events ++ row ∷ [])

-- The call changes nothing, adds the event, or raises.
abbrev pub RecordsAt : (event : ℕ) → Db → Result Db → Type 0
RecordsAt event db (ok db') = (db' ≡ db) ⊎ Added event db db'
RecordsAt event db (err e) = Unit

pub record Records (event : ℕ) (db : Db) (result : Result Db) : Type 0 where
  pub holds : RecordsAt event db result

module _ (event : ℕ) where
  pub log-Added :
      (org : ℕ) (kind : EventType) (s : Option ℕ) (db db' : Db)
      → db'.events ≡ db.events
      → Added event db (log_billing_event org kind (some event) s db')
  unfolding log_billing_event
  log-Added org kind s db db' same =
      let row : BillingEvent = record {
        organization_id = org;
        subscription_id = s;
        event_type = kind;
        stripe_event_id = some event;
      } in
      (row, ==_refl event, ap (λ es. es ++ row ∷ []) same)

  pub unchanged : (db : Db) → Records event db (ok db)
  unchanged db = record { holds = inl refl }

  pub logged :
      (org : ℕ) (kind : EventType) (s : Option ℕ) (db db' : Db)
      → db'.events ≡ db.events
      → Records event db (ok (log_billing_event org kind (some event) s db'))
  logged org kind s db db' same = record { holds = inr (log-Added org kind s db db' same) }

  pub bind-Records :
      (A : Type 0) (db : Db) (r : Result A) (next : A → Result Db)
      → ((a : A) → Records event db (next a))
      → Records event db (r >>= next)
  bind-Records A db (ok a) next all = all a
  bind-Records A db (err e) next all = record { holds = tt }

  pub bind_in-Records :
      (A : Type 0) (db : Db) (r : Result (A × Db)) (next : A × Db → Result Db)
      → KeepsIn db r
      → ((a : A) (db' : Db) → db'.events ≡ db.events → Records event db (next (a, db')))
      → Records event db (r >>= next)
  bind_in-Records A db (ok (a, db')) next same rest = rest a db' same
  bind_in-Records A db (err e) next same rest = record { holds = tt }

  pub bind_db-Records :
      (db : Db) (r : Result Db) (next : Db → Result Db)
      → Keeps db r
      → ((db' : Db) → db'.events ≡ db.events → Records event db (next db'))
      → Records event db (r >>= next)
  bind_db-Records db (ok db') next same rest = rest db' same
  bind_db-Records db (err e) next same rest = record { holds = tt }

  pub elim_id-Records :
      (db : Db) (id : MetadataId) (next : ℕ → Result Db)
      → ((n : ℕ) → Records event db (next n))
      → Records event db (elim id [ absent ↦ ok db | malformed ↦ ok db | uuid n ↦ next n ])
  elim_id-Records db absent next all = unchanged db
  elim_id-Records db malformed next all = unchanged db
  elim_id-Records db (uuid n) next all = all n

  pub elim-Records :
      (A : Type 0) (db : Db) (found : Option A) (next : A → Result Db)
      → ((a : A) → Records event db (next a))
      → Records event db (elim found [ none ↦ ok db | some a ↦ next a ])
  elim-Records A db none next all = unchanged db
  elim-Records A db (some a) next all = all a

module _ (call : Call) where
  pub store-KeepsIn :
      (org plan : ℕ) (ss : StripeSubscription) (db : Db)
      → KeepsIn db (store_subscription only_row call org plan ss db)
  unfolding store_subscription save_subscription
  store-KeepsIn org plan ss db = ground (arith, paid-KeepsIn call org plan ss)

  pub change-KeepsIn :
      (org : ℕ) (ss : StripeSubscription) (s : Subscription) (db : Db)
      → KeepsIn db (change_plan only_row call org ss s db)
  unfolding change_plan save_subscription
  change-KeepsIn org ss s db = ground (arith, quotas-Keeps call org)

  pub downgrade-Keeps :
      (org : ℕ) (s : Subscription) (db : Db) → Keeps db (downgrade only_row call org s db)
  unfolding downgrade save_subscription
  downgrade-Keeps org s db = ground (arith, quotas-Keeps call org)

  pub invoice-KeepsIn :
      (org : ℕ) (si : StripeInvoice) (db : Db) → KeepsIn db (save_invoice only_row call org si db)
  unfolding save_invoice
  invoice-KeepsIn org si db = ground arith
