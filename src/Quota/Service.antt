-- ===== src/Quota/Service.antt =====
-- app/services/quota.py. A call is given the result of `uuid4()` and the clock; a chain of calls on
-- one session passes the tables on.
use python_fastapi_multiauth.Common.{
  ℕ, Bool, true, false, Option, none, some, List, [], ◌∷◌, ◌++◌, if◌then◌else◌, ◌==◌, not, ◌&&◌,
  Result, ok, ◌>>=◌, OneOrNone, select, save,
}
use python_fastapi_multiauth.Common.Int.{ℤ, pos, negsuc, ◌+ℤ◌, ◌-ℤ◌, leb_ℤ, ltb_ℤ, eqb_ℤ, max_ℤ}
use python_fastapi_multiauth.Quota.Model.{
  Status, active, trialing, canceled, past_due, unpaid, incomplete, incomplete_expired, other,
  Subscription, OrganizationQuota, new_quota, api_call, file_upload, storage_remove, user_add,
  user_remove, UsageLog, Db, days_between,
}

-- The second component of the pairs that the checks return.
pub data Message : Type 0 where
  no_subscription subscription_canceled payment_failed payment_incomplete : Message
  user_limit api_call_limit upload_limit file_size_limit : ℤ → Message
  storage_limit : Message

abbrev pub Verdict : Type 0
Verdict = Bool × Option Message

abbrev pub allowed : Verdict
allowed = (true, none)

abbrev pub denied : Message → Verdict
denied m = (false, some m)

pub data QuotaType : Type 0 where
  users storage api_calls file_uploads unknown : QuotaType

unfoldable pub status_verdict : Status → Verdict
status_verdict canceled = denied subscription_canceled
status_verdict past_due = denied payment_failed
status_verdict unpaid = denied payment_incomplete
status_verdict incomplete = denied payment_incomplete
status_verdict incomplete_expired = denied payment_incomplete
status_verdict active = allowed
status_verdict trialing = allowed
status_verdict other = allowed

abbrev pub of_subscription : ℕ → Subscription → Bool
of_subscription org s = s.organization_id == org

abbrev pub of_org : ℕ → OrganizationQuota → Bool
of_org org q = q.organization_id == org

abbrev pub quota_key : OrganizationQuota → ℕ
quota_key q = q.id

-- Assigning to the attributes of a quota object and flushing.
unfoldable pub save_quota : OrganizationQuota → Db → Db
save_quota q db = record db { quotas = save quota_key q db.quotas }

unfoldable pub add_log : UsageLog → Db → Db
add_log log db = record db { usage_logs = db.usage_logs ++ log ∷ [] }

unfoldable pub check_and_reset_monthly_quotas : ℕ → OrganizationQuota → Db → OrganizationQuota × Db
unfolding save_quota days_between
check_and_reset_monthly_quotas now q db =
    let fresh = record q { current_api_calls_this_month = pos 0; api_calls_reset_at = now } in
    if leb_ℤ (pos 30) (days_between now q.api_calls_reset_at)
    then (fresh, save_quota fresh db)
    else (q, db)

unfoldable pub check_and_reset_daily_quotas : ℕ → OrganizationQuota → Db → OrganizationQuota × Db
unfolding save_quota days_between
check_and_reset_daily_quotas now q db =
    let fresh = record q { current_file_uploads_today = pos 0; file_uploads_reset_at = now } in
    if leb_ℤ (pos 1) (days_between now q.file_uploads_reset_at)
    then (fresh, save_quota fresh db)
    else (q, db)

-- A limit of -1 means that there is none.
abbrev pub limited : ℤ → Bool
limited limit = not (eqb_ℤ limit (negsuc 0))

unfoldable pub reset_for : QuotaType → ℕ → OrganizationQuota → Db → OrganizationQuota × Db
unfolding check_and_reset_monthly_quotas check_and_reset_daily_quotas
reset_for api_calls now q db = check_and_reset_monthly_quotas now q db
reset_for storage now q db = check_and_reset_monthly_quotas now q db
reset_for file_uploads now q db = check_and_reset_daily_quotas now q db
reset_for users now q db = (q, db)
reset_for unknown now q db = (q, db)

-- The branches on `quota_type` at the end of `check_quota_with_subscription`.
unfoldable pub limit_verdict : QuotaType → ℤ → OrganizationQuota → Verdict
limit_verdict users amount q =
    if limited q.max_users && leb_ℤ q.max_users q.current_users
    then denied (user_limit q.max_users)
    else allowed
limit_verdict storage amount q =
    if limited q.max_storage_bytes && ltb_ℤ q.max_storage_bytes (q.current_storage_bytes +ℤ amount)
    then denied storage_limit
    else allowed
limit_verdict api_calls amount q =
    if limited q.max_api_calls_per_month
      && leb_ℤ q.max_api_calls_per_month q.current_api_calls_this_month
    then denied (api_call_limit q.max_api_calls_per_month)
    else allowed
limit_verdict file_uploads amount q =
    if limited q.max_file_uploads_per_day
      && leb_ℤ q.max_file_uploads_per_day q.current_file_uploads_today
    then denied (upload_limit q.max_file_uploads_per_day)
    else if limited q.max_file_size_bytes && ltb_ℤ q.max_file_size_bytes amount
    then denied (file_size_limit q.max_file_size_bytes)
    else allowed
limit_verdict unknown amount q = allowed

-- A keyword argument of `update_limits`: an integer column of the quota, or a name that is none.
pub data Column : Type 0 where
  max_users current_users max_storage_bytes current_storage_bytes max_api_calls_per_month
        current_api_calls_this_month max_file_uploads_per_day current_file_uploads_today
        max_file_size_bytes no_such_attribute :
      Column

unfoldable pub set_column : Column → ℤ → OrganizationQuota → OrganizationQuota
set_column max_users v q = record q { max_users = v }
set_column current_users v q = record q { current_users = v }
set_column max_storage_bytes v q = record q { max_storage_bytes = v }
set_column current_storage_bytes v q = record q { current_storage_bytes = v }
set_column max_api_calls_per_month v q = record q { max_api_calls_per_month = v }
set_column current_api_calls_this_month v q = record q { current_api_calls_this_month = v }
set_column max_file_uploads_per_day v q = record q { max_file_uploads_per_day = v }
set_column current_file_uploads_today v q = record q { current_file_uploads_today = v }
set_column max_file_size_bytes v q = record q { max_file_size_bytes = v }
set_column no_such_attribute v q = q

-- The loop of `update_limits`: `None` and unknown names are skipped.
unfoldable pub set_limits : List (Column × Option ℤ) → OrganizationQuota → OrganizationQuota
unfolding set_column
set_limits [] q = q
set_limits ((column, none) ∷ rest) q = set_limits rest q
set_limits ((column, some v) ∷ rest) q = set_limits rest (set_column column v q)

module _ (one : OneOrNone) where
  unfoldable pub check_subscription_active : ℕ → Db → Result Verdict
  unfolding status_verdict
  check_subscription_active org db = do
    subscription ← one Subscription (select (of_subscription org) db.subscriptions)
    ok (elim subscription [ none ↦ denied no_subscription | some s ↦ status_verdict s.status ])

  unfoldable pub get_or_create_quota : ℕ → ℕ → ℕ → Db → Result (OrganizationQuota × Db)
  unfolding new_quota
  get_or_create_quota new_id now org db = do
    quota ← one OrganizationQuota (select (of_org org) db.quotas)
    ok (elim quota [
      | none ↦ let q = new_quota new_id now org in (q, record db { quotas = db.quotas ++ q ∷ [] })
      | some q ↦ (q, db)
    ])

  unfoldable pub check_quota_with_subscription :
      ℕ → ℕ → ℕ → QuotaType → ℤ → Db → Result (Verdict × Db)
  unfolding check_subscription_active get_or_create_quota reset_for limit_verdict
  check_quota_with_subscription new_id now org quota_type amount db = do
    (is_active, error) ← check_subscription_active org db
    let checked = do
      (q, db) ← get_or_create_quota new_id now org db
      let (q, db) = reset_for quota_type now q db
      ok (limit_verdict quota_type amount q, db)
    if is_active then checked else ok ((false, error), db)

  unfoldable pub increment_api_calls : ℕ → ℕ → ℕ → Option ℕ → Option ℕ → Db → Result Db
  unfolding get_or_create_quota check_and_reset_monthly_quotas save_quota add_log
  increment_api_calls new_id now org user metadata db = do
    (q, db) ← get_or_create_quota new_id now org db
    let (q, db) = check_and_reset_monthly_quotas now q db
    let calls = q.current_api_calls_this_month +ℤ pos 1
    let db = save_quota (record q { current_api_calls_this_month = calls }) db
    ok (
        add_log
          (record {
            organization_id = org;
            user_id = user;
            usage_type = api_call;
            extra_data = record { metadata = metadata; file_size = none };
          })
          db)

  unfoldable pub increment_file_uploads : ℕ → ℕ → ℕ → Option ℕ → ℤ → Option ℕ → Db → Result Db
  unfolding get_or_create_quota check_and_reset_daily_quotas save_quota add_log
  increment_file_uploads new_id now org user file_size metadata db = do
    (q, db) ← get_or_create_quota new_id now org db
    let (q, db) = check_and_reset_daily_quotas now q db
    let q = record q {
      current_file_uploads_today = q.current_file_uploads_today +ℤ pos 1;
      current_storage_bytes = q.current_storage_bytes +ℤ file_size;
    }
    let db = save_quota q db
    ok (
        add_log
          (record {
            organization_id = org;
            user_id = user;
            usage_type = file_upload;
            extra_data = record { metadata = metadata; file_size = some file_size };
          })
          db)

  unfoldable pub decrement_storage : ℕ → ℕ → ℕ → ℤ → Option ℕ → Option ℕ → Db → Result Db
  unfolding get_or_create_quota save_quota add_log
  decrement_storage new_id now org file_size user metadata db = do
    (q, db) ← get_or_create_quota new_id now org db
    let bytes = max_ℤ (pos 0) (q.current_storage_bytes -ℤ file_size)
    let db = save_quota (record q { current_storage_bytes = bytes }) db
    ok (
        add_log
          (record {
            organization_id = org;
            user_id = user;
            usage_type = storage_remove;
            extra_data = record { metadata = metadata; file_size = some file_size };
          })
          db)

  unfoldable pub increment_users : ℕ → ℕ → ℕ → Option ℕ → Option ℕ → Db → Result Db
  unfolding get_or_create_quota save_quota add_log
  increment_users new_id now org user metadata db = do
    (q, db) ← get_or_create_quota new_id now org db
    let db = save_quota (record q { current_users = q.current_users +ℤ pos 1 }) db
    ok (
        add_log
          (record {
            organization_id = org;
            user_id = user;
            usage_type = user_add;
            extra_data = record { metadata = metadata; file_size = none };
          })
          db)

  unfoldable pub decrement_users : ℕ → ℕ → ℕ → Option ℕ → Option ℕ → Db → Result Db
  unfolding get_or_create_quota save_quota add_log
  decrement_users new_id now org user metadata db = do
    (q, db) ← get_or_create_quota new_id now org db
    let db = save_quota (record q { current_users = max_ℤ (pos 0) (q.current_users -ℤ pos 1) }) db
    ok (
        add_log
          (record {
            organization_id = org;
            user_id = user;
            usage_type = user_remove;
            extra_data = record { metadata = metadata; file_size = none };
          })
          db)

  unfoldable pub update_limits :
      ℕ → ℕ → ℕ → List (Column × Option ℤ) → Db → Result (OrganizationQuota × Db)
  unfolding get_or_create_quota save_quota set_limits
  update_limits new_id now org limits db = do
    (q, db) ← get_or_create_quota new_id now org db
    let q = set_limits limits q
    ok (q, save_quota q db)
