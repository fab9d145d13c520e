-- ===== src/Billing/Subscribe.antt =====
-- The subscription events of app/api/v1/endpoints/stripe_webhooks.py.
use python_fastapi_multiauth.Common.{
  ℕ, none, some, if◌then◌else◌, ◌==◌, Result, ok, ◌>>=◌, OneOrNone, select,
}
use python_fastapi_multiauth.Billing.Model.{
  Subscription, subscription_created, subscription_updated, subscription_deleted, trial_will_end,
  Db, absent, malformed, uuid, StripeSubscription,
}
use python_fastapi_multiauth.Billing.Service.{
  Call, free_name, save_subscription, update_subscription_from_stripe, log_billing_event,
  get_plan_by_id, get_plan_by_name, get_organization_subscription, update_quotas_from_plan,
  create_paid_subscription,
}
use python_fastapi_multiauth.Billing.Events.{
  SubscriptionEvent, created, updated, deleted, will_end, other_subscription,
}

module _ (one : OneOrNone) (call : Call) where
  -- The subscription that `handle_subscription_created` updates or creates.
  unfoldable pub store_subscription :
      (org plan : ℕ) → StripeSubscription → Db → Result (Subscription × Db)
  unfolding get_organization_subscription update_subscription_from_stripe save_subscription
      create_paid_subscription
  store_subscription org plan_id ss db = do
    found ← get_organization_subscription one org db
    elim found [
      | none ↦ create_paid_subscription one call org plan_id ss db
      | some s ↦
          let s = record (update_subscription_from_stripe ss s) { plan_id = plan_id } in
          ok (s, save_subscription s db)
    ]

  unfoldable pub handle_subscription_created :
      (org : ℕ) → StripeSubscription → (event : ℕ) → Db → Result Db
  unfolding store_subscription log_billing_event
  handle_subscription_created org ss event db = elim ss.plan_id [
    | absent ↦ ok db
    | malformed ↦ ok db
    | uuid plan_id ↦ do
      (s, db) ← store_subscription org plan_id ss db
      ok (log_billing_event org subscription_created (some event) (some s.id) db)
  ]

  -- "Check if plan changed"
  unfoldable pub change_plan :
      (org : ℕ) → StripeSubscription → Subscription → Db → Result (Subscription × Db)
  unfolding get_plan_by_id update_quotas_from_plan save_subscription
  change_plan org ss s db = elim ss.plan_id [
    | absent ↦ ok (s, db)
    | malformed ↦ ok (s, db)
    | uuid new_plan_id ↦
        let changed = do
          found ← get_plan_by_id one new_plan_id db
          elim found [
            | none ↦ ok (s, db)
            | some plan ↦ do
              let s = record s { plan_id = new_plan_id }
              db ← update_quotas_from_plan one call org plan (save_subscription s db)
              ok (s, db)
          ]
        in if s.plan_id == new_plan_id then ok (s, db) else changed
  ]

  unfoldable pub handle_subscription_updated :
      (org : ℕ) → StripeSubscription → (event : ℕ) → Db → Result Db
  unfolding get_organization_subscription update_subscription_from_stripe save_subscription
      change_plan log_billing_event
  handle_subscription_updated org ss event db = do
    found ← get_organization_subscription one org db
    elim found [
      | none ↦ ok db
      | some s ↦ do
        let s = update_subscription_from_stripe ss s
        (s, db) ← change_plan org ss s (save_subscription s db)
        ok (log_billing_event org subscription_updated (some event) (some s.id) db)
    ]

  -- "Downgrade to free plan"
  unfoldable pub downgrade : (org : ℕ) → Subscription → Db → Result Db
  unfolding get_plan_by_name update_quotas_from_plan save_subscription
  downgrade org s db = do
    found ← get_plan_by_name one free_name db
    elim found [
      | none ↦ ok db
      | some plan ↦
          update_quotas_from_plan one call org plan
            (save_subscription (record s { plan_id = plan.id }) db)
    ]

  unfoldable pub handle_subscription_deleted :
      (org : ℕ) → StripeSubscription → (event : ℕ) → Db → Result Db
  unfolding get_organization_subscription update_subscription_from_stripe save_subscription
      downgrade log_billing_event
  handle_subscription_deleted org ss event db = do
    found ← get_organization_subscription one org db
    elim found [
      | none ↦ ok db
      | some s ↦ do
        let s = update_subscription_from_stripe ss s
        db ← downgrade org s (save_subscription s db)
        ok (log_billing_event org subscription_deleted (some event) (some s.id) db)
    ]

  unfoldable pub handle_trial_will_end : (org : ℕ) → (event : ℕ) → Db → Result Db
  unfolding get_organization_subscription log_billing_event
  handle_trial_will_end org event db = do
    found ← get_organization_subscription one org db
    ok (elim found [
      | none ↦ db
      | some s ↦ log_billing_event org trial_will_end (some event) (some s.id) db
    ])

  unfoldable pub dispatch_subscription :
      SubscriptionEvent → (org : ℕ) → StripeSubscription → (event : ℕ) → Db → Result Db
  unfolding handle_subscription_created handle_subscription_updated handle_subscription_deleted
      handle_trial_will_end
  dispatch_subscription created org ss event db = handle_subscription_created org ss event db
  dispatch_subscription updated org ss event db = handle_subscription_updated org ss event db
  dispatch_subscription deleted org ss event db = handle_subscription_deleted org ss event db
  dispatch_subscription will_end org ss event db = handle_trial_will_end org event db
  dispatch_subscription other_subscription org ss event db = ok db

  unfoldable pub handle_subscription_event :
      SubscriptionEvent → StripeSubscription → (event : ℕ) → Db → Result Db
  unfolding dispatch_subscription
  handle_subscription_event kind ss event db = elim ss.organization_id [
    | absent ↦ ok db
    | malformed ↦ ok db
    | uuid org_id ↦ do
      found ← one ℕ (select (λ o. o == org_id) db.organizations)
      elim found [ none ↦ ok db | some org ↦ dispatch_subscription kind org ss event db ]
  ]
