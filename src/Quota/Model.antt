-- ===== src/Quota/Model.antt =====
-- app/models/quota.py and the part of app/models/subscription.py that the quota checks read.
-- Timestamps are microseconds. The audit columns created_at and last_updated_at are left out.
use python_fastapi_multiauth.Common.{ℕ, ◌-◌, ◌/◌, Bool, Option, List, leb, if◌then◌else◌}
use python_fastapi_multiauth.Common.Int.{ℤ, pos, negsuc, ◌+ℤ◌, leb_ℤ, ltb_ℤ}

-- `Subscription.status`; `other` is any other text.
pub data Status : Type 0 where
  active trialing canceled past_due unpaid incomplete incomplete_expired other : Status

pub record Subscription : Type 0 where
  pub organization_id : ℕ
  pub status : Status

pub record OrganizationQuota : Type 0 where
  pub id : ℕ
  pub organization_id : ℕ
  pub max_users : ℤ
  pub current_users : ℤ
  pub max_storage_bytes : ℤ
  pub current_storage_bytes : ℤ
  pub max_api_calls_per_month : ℤ
  pub current_api_calls_this_month : ℤ
  pub max_file_uploads_per_day : ℤ
  pub current_file_uploads_today : ℤ
  pub max_file_size_bytes : ℤ
  pub api_calls_reset_at : ℕ
  pub file_uploads_reset_at : ℕ

-- `OrganizationQuota(organization_id=...)` with the columns' defaults.
unfoldable pub new_quota : ℕ → ℕ → ℕ → OrganizationQuota
new_quota new_id now org = record {
  id = new_id;
  organization_id = org;
  max_users = pos 10;
  current_users = pos 0;
  max_storage_bytes = pos 1073741824;
  current_storage_bytes = pos 0;
  max_api_calls_per_month = pos 10000;
  current_api_calls_this_month = pos 0;
  max_file_uploads_per_day = pos 100;
  current_file_uploads_today = pos 0;
  max_file_size_bytes = pos 10485760;
  api_calls_reset_at = now;
  file_uploads_reset_at = now;
}

unfoldable pub is_user_quota_exceeded : OrganizationQuota → Bool
is_user_quota_exceeded q = leb_ℤ q.max_users q.current_users

unfoldable pub is_storage_quota_exceeded : OrganizationQuota → ℤ → Bool
is_storage_quota_exceeded q additional_bytes =
    ltb_ℤ q.max_storage_bytes (q.current_storage_bytes +ℤ additional_bytes)

unfoldable pub is_api_call_quota_exceeded : OrganizationQuota → Bool
is_api_call_quota_exceeded q = leb_ℤ q.max_api_calls_per_month q.current_api_calls_this_month

unfoldable pub is_file_upload_quota_exceeded : OrganizationQuota → Bool
is_file_upload_quota_exceeded q = leb_ℤ q.max_file_uploads_per_day q.current_file_uploads_today

unfoldable pub is_file_size_exceeded : OrganizationQuota → ℤ → Bool
is_file_size_exceeded q file_size_bytes = ltb_ℤ q.max_file_size_bytes file_size_bytes

pub data UsageType : Type 0 where
  api_call file_upload storage_remove user_add user_remove : UsageType

-- `extra_data`: the caller's metadata, known by a number, and the entry that the service adds.
pub record ExtraData : Type 0 where
  pub metadata : Option ℕ
  pub file_size : Option ℤ

pub record UsageLog : Type 0 where
  pub organization_id : ℕ
  pub user_id : Option ℕ
  pub usage_type : UsageType
  pub extra_data : ExtraData

-- The tables that the service reads and writes.
pub record Db : Type 0 where
  pub quotas : List OrganizationQuota
  pub usage_logs : List UsageLog
  pub subscriptions : List Subscription

abbrev pub microseconds_per_day : ℕ
microseconds_per_day = 86400000000

-- `(now - earlier).days`: Python's timedelta keeps the floor, below zero too.
unfoldable pub days_between : ℕ → ℕ → ℤ
days_between now earlier =
    if leb earlier now
    then pos ((now - earlier) / microseconds_per_day)
    else negsuc ((earlier - now - 1) / microseconds_per_day)
