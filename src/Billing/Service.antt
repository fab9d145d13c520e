-- ===== src/Billing/Service.antt =====
-- app/services/billing_service.py. A call is given the ids that `uuid4()` returns for its new rows.
use python_fastapi_multiauth.Common.{
  ℕ, ◌+◌, ◌*◌, Bool, false, Option, none, some, [], ◌∷◌, ◌++◌, if◌then◌else◌, ◌==◌, Result, ok, err,
  value_error, ◌>>=◌, OneOrNone, select, save,
}
use python_fastapi_multiauth.Quota.Model.{OrganizationQuota, active, new_quota}
use python_fastapi_multiauth.Quota.Service.{of_org, quota_key}
use python_fastapi_multiauth.Billing.Model.{
  Plan, Subscription, EventType, Db, StripeSubscription, StripePaymentMethod, from_timestamp,
  timestamp_or,
}
use python_fastapi_multiauth.Billing.Stripe.{
  StripeApi, change_price, cancel_stripe_subscription, resume_stripe_subscription,
}

-- The ids of the rows that a call may add, and the clock.
pub record Call : Type 0 where
  pub now : ℕ
  pub subscription_id : ℕ
  pub quota_id : ℕ
  pub invoice_id : ℕ
  pub payment_method_id : ℕ

abbrev pub subscription_key : Subscription → ℕ
subscription_key s = s.id

abbrev pub subscribed : ℕ → Subscription → Bool
subscribed org s = s.organization_id == org

-- `column == x` for a nullable column.
abbrev pub is_value : ℕ → Option ℕ → Bool
is_value x none = false
is_value x (some y) = y == x

-- The number of the text "free".
abbrev pub free_name : ℕ
free_name = 0

unfoldable pub save_subscription : Subscription → Db → Db
save_subscription s db = record db { subscriptions = save subscription_key s db.subscriptions }

-- The assignments of `update_quotas_from_plan`.
unfoldable pub with_limits : Plan → OrganizationQuota → OrganizationQuota
with_limits plan q = record q {
  max_users = plan.max_users;
  max_storage_bytes = plan.max_storage_bytes;
  max_api_calls_per_month = plan.max_api_calls_per_month;
  max_file_uploads_per_day = plan.max_file_uploads_per_day;
  max_file_size_bytes = plan.max_file_size_bytes;
}

unfoldable pub update_subscription_from_stripe : StripeSubscription → Subscription → Subscription
update_subscription_from_stripe ss s = record s {
  status = ss.status;
  cancel_at_period_end = ss.cancel_at_period_end;
  canceled_at = timestamp_or s.canceled_at ss.canceled_at;
  current_period_start = from_timestamp ss.current_period_start;
  current_period_end = from_timestamp ss.current_period_end;
  trial_start = timestamp_or s.trial_start ss.trial_start;
  trial_end = timestamp_or s.trial_end ss.trial_end;
  stripe_metadata = ss.metadata;
}

unfoldable pub log_billing_event : (org : ℕ) → EventType → Option ℕ → Option ℕ → Db → Db
log_billing_event org event_type stripe_event_id subscription_id db = record db {
  events =
      db.events
      ++ record {
        organization_id = org;
        subscription_id = subscription_id;
        event_type = event_type;
        stripe_event_id = stripe_event_id;
      }
        ∷ [];
}

unfoldable pub save_payment_method : Call → (org : ℕ) → StripePaymentMethod → Bool → Db → Db
save_payment_method call org pm is_default db = record db {
  payment_methods =
      db.payment_methods
      ++ record {
        id = call.payment_method_id;
        organization_id = org;
        stripe_payment_method_id = pm.id;
        type_ = pm.type_;
        is_default = is_default;
      }
        ∷ [];
}

module _ (one : OneOrNone) where
  unfoldable pub get_plan_by_id : ℕ → Db → Result (Option Plan)
  get_plan_by_id plan db = one Plan (select (λ p. p.id == plan) db.plans)

  unfoldable pub get_plan_by_name : ℕ → Db → Result (Option Plan)
  get_plan_by_name name db = one Plan (select (λ p. p.name == name) db.plans)

  unfoldable pub get_organization_subscription : ℕ → Db → Result (Option Subscription)
  get_organization_subscription org db = one Subscription (select (subscribed org) db.subscriptions)

  unfoldable pub update_quotas_from_plan : Call → (org : ℕ) → Plan → Db → Result Db
  unfolding new_quota with_limits
  update_quotas_from_plan call org plan db = do
    quota ← one OrganizationQuota (select (of_org org) db.quotas)
    ok (elim quota [
      | none ↦
          let q = with_limits plan (new_quota call.quota_id call.now org) in
          record db { quotas = db.quotas ++ q ∷ [] }
      | some q ↦ record db { quotas = save quota_key (with_limits plan q) db.quotas }
    ])

  unfoldable pub create_free_subscription :
      Call → (org customer : ℕ) → Db → Result (Subscription × Db)
  unfolding get_plan_by_name update_quotas_from_plan
  create_free_subscription call org customer db = do
    found ← get_plan_by_name free_name db
    elim found [
      | none ↦ err (value_error "Free plan not found")
      | some plan ↦ do
        let s : Subscription = record {
          id = call.subscription_id;
          organization_id = org;
          plan_id = plan.id;
          stripe_subscription_id = none;
          stripe_customer_id = customer;
          status = active;
          cancel_at_period_end = false;
          canceled_at = none;
          current_period_start = call.now;
          current_period_end = call.now + 365 * 86400000000;
          trial_start = none;
          trial_end = none;
          stripe_metadata = 0;
        }
        db ←
            update_quotas_from_plan call org plan
              (record db { subscriptions = db.subscriptions ++ s ∷ [] })
        ok (s, db)
    ]

  unfoldable pub create_paid_subscription :
      Call → (org plan : ℕ) → StripeSubscription → Db → Result (Subscription × Db)
  unfolding get_plan_by_id update_quotas_from_plan
  create_paid_subscription call org plan_id ss db = do
    found ← get_plan_by_id plan_id db
    elim found [
      | none ↦ err (value_error "Plan not found")
      | some plan ↦ do
        let s : Subscription = record {
          id = call.subscription_id;
          organization_id = org;
          plan_id = plan_id;
          stripe_subscription_id = some ss.id;
          stripe_customer_id = ss.customer;
          status = ss.status;
          cancel_at_period_end = ss.cancel_at_period_end;
          canceled_at = none;
          current_period_start = from_timestamp ss.current_period_start;
          current_period_end = from_timestamp ss.current_period_end;
          trial_start = timestamp_or none ss.trial_start;
          trial_end = timestamp_or none ss.trial_end;
          stripe_metadata = ss.metadata;
        }
        db ←
            update_quotas_from_plan call org plan
              (record db { subscriptions = db.subscriptions ++ s ∷ [] })
        ok (s, db)
    ]

  -- `if not subscription: raise ValueError("Subscription not found")`
  unfoldable pub required_subscription : ℕ → Db → Result Subscription
  unfolding get_organization_subscription
  required_subscription org db = do
    found ← get_organization_subscription org db
    elim found [ none ↦ err (value_error "Subscription not found") | some s ↦ ok s ]

  -- Both billing cycles take the plan's one price. Without a Stripe subscription only the plan and the
  -- quotas change.
  unfoldable pub upgrade_subscription :
      StripeApi → Call → (org new_plan_id : ℕ) → (prorate : Bool) → Db → Result (Subscription × Db)
  unfolding required_subscription get_plan_by_id change_price update_subscription_from_stripe
      save_subscription update_quotas_from_plan
  upgrade_subscription api call org new_plan_id prorate db = do
    s ← required_subscription org db
    found ← get_plan_by_id new_plan_id db
    elim found [
      | none ↦ err (value_error "Plan not found")
      | some plan ↦ elim plan.stripe_price_id [
        | none ↦ err (value_error "No Stripe price ID configured for plan: ")
        | some price ↦ do
          s ← elim s.stripe_subscription_id [
            | none ↦ ok s
            | some id ↦ do
              ss ← change_price api id price prorate
              ok (update_subscription_from_stripe ss s)
          ]
          let s = record s { plan_id = new_plan_id }
          db ← update_quotas_from_plan call org plan (save_subscription s db)
          ok (s, db)
      ]
    ]

  unfoldable pub cancel_subscription :
      StripeApi → (org : ℕ) → (immediately : Bool) → Db → Result (Subscription × Db)
  unfolding required_subscription cancel_stripe_subscription update_subscription_from_stripe
      save_subscription
  cancel_subscription api org immediately db = do
    s ← required_subscription org db
    elim s.stripe_subscription_id [
      | none ↦ ok (s, db)
      | some id ↦ do
        ss ← cancel_stripe_subscription api id immediately
        let s = update_subscription_from_stripe ss s
        ok (s, save_subscription s db)
    ]

  unfoldable pub resume_subscription : StripeApi → (org : ℕ) → Db → Result (Subscription × Db)
  unfolding required_subscription resume_stripe_subscription update_subscription_from_stripe
      save_subscription
  resume_subscription api org db = do
    s ← required_subscription org db
    let resumed : Result (Subscription × Db) = elim s.stripe_subscription_id [
      | none ↦ ok (s, db)
      | some id ↦ do
        ss ← resume_stripe_subscription api id
        let s = update_subscription_from_stripe ss s
        ok (s, save_subscription s db)
    ]
    if s.cancel_at_period_end then resumed else ok (s, db)
