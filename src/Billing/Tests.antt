-- ===== src/Billing/Tests.antt =====
-- Runs of billing on small tables.
use python_fastapi_multiauth.Common.{
  ℕ, ◌≡◌, refl, true, false, Option, none, some, [], ◌∷◌, ◌⊎◌, Result, ok, err, type_error, ◌>>=◌,
  only_row, only_row-IsOneOrNone, select,
}
use python_fastapi_multiauth.Common.Int.{pos, negsuc}
use python_fastapi_multiauth.Quota.Model.{OrganizationQuota, active, canceled}
use python_fastapi_multiauth.Quota.Service.{
  denied, subscription_canceled, check_subscription_active,
}
use python_fastapi_multiauth.Billing.Model.{
  Plan, Subscription, Invoice, Db, uuid, StripeSubscription, StripeInvoice, quota_view,
}
use python_fastapi_multiauth.Billing.Stripe.{StripeApi}
use python_fastapi_multiauth.Billing.Service.{Call, subscribed, free_name, upgrade_subscription}
use python_fastapi_multiauth.Billing.Subscribe.{
  handle_subscription_created, handle_subscription_updated, handle_subscription_deleted,
}
use python_fastapi_multiauth.Billing.Events.{
  created, of_subscription, Event, Response, success, duplicate_event,
}
use python_fastapi_multiauth.Billing.Webhook.{process_event}
use python_fastapi_multiauth.Billing.Limits.{Rows}
use python_fastapi_multiauth.Billing.PlanChanges.{
  OnPlan, UpgradedTo, created_updated, deleted_refused, upgrade_limits,
}
use python_fastapi_multiauth.Billing.Redelivery.{redelivery}

abbrev plan_row : (id name : ℕ) → Option ℕ → (users : ℕ) → Plan
plan_row id name price users = record {
  id = id;
  name = name;
  stripe_price_id = price;
  max_users = pos users;
  max_storage_bytes = pos 5000;
  max_api_calls_per_month = negsuc 0;
  max_file_uploads_per_day = pos 20;
  max_file_size_bytes = pos 1000;
  tier_level = id;
  is_active = true;
}

abbrev free_plan : Plan
free_plan = plan_row 1 free_name none 3

abbrev pro_plan : Plan
pro_plan = plan_row 2 7 (some 70) 50

abbrev row : Subscription
row = record {
  id = 11;
  organization_id = 5;
  plan_id = 1;
  stripe_subscription_id = some 900;
  stripe_customer_id = 800;
  status = active;
  cancel_at_period_end = false;
  canceled_at = none;
  current_period_start = 0;
  current_period_end = 365;
  trial_start = none;
  trial_end = none;
  stripe_metadata = 0;
}

abbrev quota : OrganizationQuota
quota = record {
  id = 21;
  organization_id = 5;
  max_users = pos 3;
  current_users = pos 2;
  max_storage_bytes = pos 5000;
  current_storage_bytes = pos 100;
  max_api_calls_per_month = pos 10;
  current_api_calls_this_month = pos 4;
  max_file_uploads_per_day = pos 20;
  current_file_uploads_today = pos 1;
  max_file_size_bytes = pos 1000;
  api_calls_reset_at = 0;
  file_uploads_reset_at = 0;
}

abbrev stored_invoice : Invoice
stored_invoice = record {
  id = 31;
  organization_id = 5;
  subscription_id = some 11;
  stripe_invoice_id = 600;
  stripe_customer_id = 800;
  status = 1;
  amount_due = pos 1500;
  amount_paid = pos 0;
  amount_remaining = pos 1500;
  subtotal = pos 1500;
  tax = pos 0;
  total = pos 1500;
  paid_at = none;
  details = 0;
}

abbrev tables : Db
tables = record {
  organizations = 5 ∷ [];
  plans = free_plan ∷ pro_plan ∷ [];
  subscriptions = row ∷ [];
  quotas = quota ∷ [];
  invoices = stored_invoice ∷ [];
  payment_methods = [];
  events = [];
}

abbrev a_call : Call
a_call = record {
  now = 100;
  subscription_id = 12;
  quota_id = 22;
  invoice_id = 32;
  payment_method_id = 42;
}

abbrev tables-Rows : Rows 5 row quota tables
tables-Rows = record {
  distinct_subscriptions = (refl, tt);
  one_subscription = refl;
  distinct_quotas = (refl, tt);
  one_quota = refl;
}

abbrev pro_subscription : StripeSubscription
pro_subscription = record {
  id = 901;
  customer = 800;
  status = active;
  cancel_at_period_end = false;
  canceled_at = none;
  current_period_start = 1;
  current_period_end = 31;
  trial_start = some 0;
  trial_end = none;
  metadata = 3;
  organization_id = uuid 5;
  plan_id = uuid 2;
}

abbrev ended : StripeSubscription
ended = record pro_subscription { status = canceled; canceled_at = some 40 }

abbrev paid_invoice : StripeInvoice
paid_invoice = record {
  id = 600;
  subscription = some 900;
  customer = some 800;
  status = 2;
  amount_due = pos 1500;
  amount_paid = pos 1500;
  amount_remaining = pos 0;
  subtotal = pos 1500;
  tax = none;
  total = pos 1500;
  paid_at = err type_error;
  transitions_paid_at = some 41;
  details = 0;
}

-- A Stripe that knows every subscription and gives the one above.
abbrev api : StripeApi
api = record {
  retrieve_item = λ id. ok 1;
  modify = λ id update. ok pro_subscription;
  cancel = λ id. ok ended;
}

abbrev created_event : Event
created_event = record { id = 77; payload = of_subscription created pro_subscription }

-- The tables of an answer.
abbrev left_by : Result (Response × Db) → Db
left_by (ok (r, db)) = db
left_by (err e) = tables

abbrev first_delivery : Db
unfolding process_event
first_delivery = left_by (process_event only_row a_call created_event tables)

created_event-runs :
    process_event only_row a_call created_event tables ≡ ok (success, first_delivery)
unfolding process_event
created_event-runs = refl

redelivery_example :
    let later : Db = record first_delivery { subscriptions = [] } in
    (first_delivery ≡ tables)
    ⊎ (process_event only_row (record a_call { now = 500 }) created_event later
        ≡ ok (duplicate_event, later))
redelivery_example =
    redelivery only_row only_row-IsOneOrNone a_call (record a_call { now = 500 }) created_event
      tables first_delivery (record first_delivery { subscriptions = [] }) success refl
      created_event-runs refl

created_updated_example :
    (db' : Db) × (s' : Subscription) × ((handle_subscription_created only_row a_call 5
          pro_subscription 77 tables
        >>= handle_subscription_updated only_row a_call 5 pro_subscription 78)
      ≡ ok db')
    × (select (subscribed 5) db'.subscriptions ≡ s' ∷ [])
    × (s'.plan_id ≡ 2)
    × (s'.stripe_subscription_id ≡ some 900)
    × (db'.quotas ≡ quota ∷ [])
created_updated_example =
    created_updated only_row only_row-IsOneOrNone 5 row quota tables tables-Rows a_call a_call 77 78
      2 pro_subscription pro_subscription refl refl

deleted_refused_example :
    (db' : Db) × (handle_subscription_deleted only_row a_call 5 ended 79 tables ≡ ok db')
    × OnPlan 5 free_plan db'
    × (check_subscription_active only_row 5 (quota_view [] db') ≡ ok (denied subscription_canceled))
deleted_refused_example =
    deleted_refused only_row only_row-IsOneOrNone 5 row quota tables tables-Rows a_call 79 free_plan
      ended [] refl refl

upgrade_limits_example :
    UpgradedTo 5 70 true pro_plan api row (upgrade_subscription only_row api a_call 5 2 true tables)
upgrade_limits_example =
    upgrade_limits only_row only_row-IsOneOrNone api a_call 5 true row quota pro_plan 70 tables
      tables-Rows refl refl
