-- ===== src/Billing/Model.antt =====
-- app/models/subscription.py, subscription_plan.py, invoice.py, payment_method.py and billing_event.py,
-- and the objects of the stripe package that the code reads. Amounts are cents, times of the service
-- microseconds, those of Stripe seconds. Texts are numbers. `details` stands for descriptive columns
-- that are copied together and read nowhere. `updated_at` and the events' data are left out.
use python_fastapi_multiauth.Common.{ℕ, ◌*◌, zero, Bool, Option, none, some, List, map, Result}
use python_fastapi_multiauth.Common.Int.{ℤ}
use python_fastapi_multiauth.Quota.Model.{Status, OrganizationQuota, UsageLog}
use python_fastapi_multiauth.Quota.Model as Quota

pub record Plan : Type 0 where
  pub id : ℕ
  pub name : ℕ
  pub stripe_price_id : Option ℕ
  pub max_users : ℤ
  pub max_storage_bytes : ℤ
  pub max_api_calls_per_month : ℤ
  pub max_file_uploads_per_day : ℤ
  pub max_file_size_bytes : ℤ
  pub tier_level : ℕ
  pub is_active : Bool

pub record Subscription : Type 0 where
  pub id : ℕ
  pub organization_id : ℕ
  pub plan_id : ℕ
  pub stripe_subscription_id : Option ℕ
  pub stripe_customer_id : ℕ
  pub status : Status
  pub cancel_at_period_end : Bool
  pub canceled_at : Option ℕ
  pub current_period_start : ℕ
  pub current_period_end : ℕ
  pub trial_start : Option ℕ
  pub trial_end : Option ℕ
  pub stripe_metadata : ℕ

pub record Invoice : Type 0 where
  pub id : ℕ
  pub organization_id : ℕ
  pub subscription_id : Option ℕ
  pub stripe_invoice_id : ℕ
  pub stripe_customer_id : ℕ
  pub status : ℕ
  pub amount_due : ℤ
  pub amount_paid : ℤ
  pub amount_remaining : ℤ
  pub subtotal : ℤ
  pub tax : ℤ
  pub total : ℤ
  pub paid_at : Option ℕ
  pub details : ℕ

-- `type` with the columns that go with it.
pub data PaymentType : Type 0 where
  card : (details : ℕ) → PaymentType
  us_bank_account : (details : ℕ) → PaymentType
  other_type : ℕ → PaymentType

pub record PaymentMethod : Type 0 where
  pub id : ℕ
  pub organization_id : ℕ
  pub stripe_payment_method_id : ℕ
  pub type_ : PaymentType
  pub is_default : Bool

pub data EventType : Type 0 where
  subscription_created subscription_updated subscription_deleted trial_will_end : EventType
  payment_succeeded payment_failed attached detached : EventType

pub record BillingEvent : Type 0 where
  pub organization_id : ℕ
  pub subscription_id : Option ℕ
  pub event_type : EventType
  pub stripe_event_id : Option ℕ

-- The tables that billing reads and writes; of organisations the ids.
pub record Db : Type 0 where
  pub organizations : List ℕ
  pub plans : List Plan
  pub subscriptions : List Subscription
  pub quotas : List OrganizationQuota
  pub invoices : List Invoice
  pub payment_methods : List PaymentMethod
  pub events : List BillingEvent

-- The part of the tables that app/services/quota.py reads.
abbrev pub quota_view : List UsageLog → Db → Quota.Db
quota_view logs db = record {
  quotas = db.quotas;
  usage_logs = logs;
  subscriptions =
      map (λ s. record { organization_id = s.organization_id; status = s.status }) db.subscriptions;
}

-- An id in the metadata of a Stripe object: missing or empty, a text that `UUID` refuses, or an id.
pub data MetadataId : Type 0 where
  absent malformed : MetadataId
  uuid : ℕ → MetadataId

pub record StripeSubscription : Type 0 where
  pub id : ℕ
  pub customer : ℕ
  pub status : Status
  pub cancel_at_period_end : Bool
  pub canceled_at : Option ℕ
  pub current_period_start : ℕ
  pub current_period_end : ℕ
  pub trial_start : Option ℕ
  pub trial_end : Option ℕ
  pub metadata : ℕ
  pub organization_id : MetadataId
  pub plan_id : MetadataId

-- Reading the attribute `paid_at` may raise; `transitions_paid_at` is `status_transitions.paid_at`.
pub record StripeInvoice : Type 0 where
  pub id : ℕ
  pub subscription : Option ℕ
  pub customer : Option ℕ
  pub status : ℕ
  pub amount_due : ℤ
  pub amount_paid : ℤ
  pub amount_remaining : ℤ
  pub subtotal : ℤ
  pub tax : Option ℤ
  pub total : ℤ
  pub paid_at : Result (Option ℕ)
  pub transitions_paid_at : Option ℕ
  pub details : ℕ

pub record StripePaymentMethod : Type 0 where
  pub id : ℕ
  pub customer : Option ℕ
  pub type_ : PaymentType

-- `datetime.fromtimestamp`
abbrev pub from_timestamp : ℕ → ℕ
from_timestamp seconds = seconds * 1000000

-- `if x: ... = fromtimestamp(x)`, with what is there otherwise: 0 counts as missing.
abbrev pub timestamp_or : Option ℕ → Option ℕ → Option ℕ
timestamp_or old none = old
timestamp_or old (some zero) = old
timestamp_or old (some seconds) = some (from_timestamp seconds)
