-- ===== src/Quota/Reset.antt =====
-- The windows after which app/services/quota.py starts its counters anew.
use python_fastapi_multiauth.Common.{ℕ, ◌+◌, ◌*◌, ◌≤◌, ◌<◌, ◌≡◌, arith}
use python_fastapi_multiauth.Common.Int.{pos}
use python_fastapi_multiauth.Quota.Model.{OrganizationQuota, Db, days_between, microseconds_per_day}
use python_fastapi_multiauth.Quota.Service.{
  check_and_reset_monthly_quotas, check_and_reset_daily_quotas,
}

days_between_self : (now : ℕ) → days_between now now ≡ pos 0
unfolding days_between
days_between_self now = ground arith

module _ (now : ℕ) (q : OrganizationQuota) (db db' : Db) where
  -- A second check at the same time resets nothing more.
  pub monthly_idem :
      let (r, _) = check_and_reset_monthly_quotas now q db in
      check_and_reset_monthly_quotas now r db' ≡ (r, db')
  unfolding check_and_reset_monthly_quotas
  monthly_idem = ground (arith, days_between_self now)

  pub daily_idem :
      let (r, _) = check_and_reset_daily_quotas now q db in
      check_and_reset_daily_quotas now r db' ≡ (r, db')
  unfolding check_and_reset_daily_quotas
  daily_idem = ground (arith, days_between_self now)

abbrev pub month : ℕ
month = 30 * microseconds_per_day

-- Exactly from 30 days (720 hours) after the last reset on the month's calls are set to 0 and the
-- clock is taken as the new start; before that the quota and the tables stay as they are.
monthly_window :
    (now : ℕ) (q : OrganizationQuota) (db : Db)
    → let (r, db') = check_and_reset_monthly_quotas now q db in
      (q.api_calls_reset_at + month ≤ now
        → (r.current_api_calls_this_month ≡ pos 0) × (r.api_calls_reset_at ≡ now))
      × (now < q.api_calls_reset_at + month → (r ≡ q) × (db' ≡ db))
unfolding check_and_reset_monthly_quotas days_between
monthly_window now q db = (λ h. ground arith, λ h. ground arith)

-- Exactly from 24 hours after the last reset on the day's uploads are set to 0 and the clock is
-- taken as the new start; before that the quota and the tables stay as they are.
daily_window :
    (now : ℕ) (q : OrganizationQuota) (db : Db)
    → let (r, db') = check_and_reset_daily_quotas now q db in
      (q.file_uploads_reset_at + microseconds_per_day ≤ now
        → (r.current_file_uploads_today ≡ pos 0) × (r.file_uploads_reset_at ≡ now))
      × (now < q.file_uploads_reset_at + microseconds_per_day → (r ≡ q) × (db' ≡ db))
unfolding check_and_reset_daily_quotas days_between
daily_window now q db = (λ h. ground arith, λ h. ground arith)
