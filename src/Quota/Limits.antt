-- ===== src/Quota/Limits.antt =====
-- The checks of app/services/quota.py admit no use beyond a limit, and the guards of
-- app/api/v1/dependencies/quota.py compared with them.
use python_fastapi_multiauth.Common.{
  ℕ, ◌≡◌, refl, Option, ◌⊎◌, arith, ok, OneOrNone, IsOneOrNone, only_row, eq-only_row,
}
use python_fastapi_multiauth.Common.Int.{ℤ, pos, negsuc, ◌+ℤ◌, ◌≤ℤ◌}
use python_fastapi_multiauth.Quota.Model.{OrganizationQuota, Db}
use python_fastapi_multiauth.Quota.Service.{
  QuotaType, users, storage, file_uploads, allowed, limit_verdict, check_quota_with_subscription,
  increment_users, increment_file_uploads, reset_for, check_and_reset_monthly_quotas,
  check_and_reset_daily_quotas,
}
use python_fastapi_multiauth.Quota.Rows.{
  Holds, Leaves, get_or_create_quota-Holds, daily-Holds, increment_users-Leaves,
  increment_file_uploads-Leaves, monthly-Holds,
}

-- A count under a limit, where -1 is no limit.
abbrev pub Within : ℤ → ℤ → Type 0
Within limit count = (limit ≡ negsuc 0) ⊎ (count ≤ℤ limit)

-- A check that allows leaves the row that the reset leaves, and that row passes the limit.
pub check_allows :
    (new_id now org : ℕ) (t : QuotaType) (amount : ℤ) (q : OrganizationQuota) (db db' : Db)
    → Holds org q db
    → check_quota_with_subscription only_row new_id now org t amount db ≡ ok (allowed, db')
    → let (r, db1) = reset_for t now q db in (limit_verdict t amount r ≡ allowed) × (db' ≡ db1)
unfolding check_quota_with_subscription
check_allows new_id now org t amount q db db' h e =
    ground (arith, get_or_create_quota-Holds new_id now org q db h)

users_verdict :
    (amount : ℤ) (q : OrganizationQuota)
    → limit_verdict users amount q ≡ allowed
    → Within q.max_users (q.current_users +ℤ pos 1)
unfolding limit_verdict ◌+ℤ◌
users_verdict amount q e = ground arith

storage_verdict :
    (amount : ℤ) (q : OrganizationQuota)
    → limit_verdict storage amount q ≡ allowed
    → Within q.max_storage_bytes (q.current_storage_bytes +ℤ amount)
unfolding limit_verdict
storage_verdict amount q e = ground arith

uploads_verdict :
    (amount : ℤ) (q : OrganizationQuota)
    → limit_verdict file_uploads amount q ≡ allowed
    → Within q.max_file_uploads_per_day (q.current_file_uploads_today +ℤ pos 1)
      × Within q.max_file_size_bytes amount
unfolding limit_verdict ◌+ℤ◌
uploads_verdict amount q e = ground arith

module _ (one : OneOrNone) (law : IsOneOrNone one) where
  -- If the check on users allows and a user is then counted, the organisation has one user more and
  -- not more than its limit.
  admitted_user-Within :
      (new_id now org : ℕ) (amount : ℤ) (user metadata : Option ℕ) (q : OrganizationQuota)
      (db db1 : Db)
      → Holds org q db
      → check_quota_with_subscription one new_id now org users amount db ≡ ok (allowed, db1)
      → (q' : OrganizationQuota) × Leaves org db1 q'
          (increment_users one new_id now org user metadata db1)
        × (q'.current_users ≡ q.current_users +ℤ pos 1)
        × Within q'.max_users q'.current_users
  unfolding reset_for
  admitted_user-Within new_id now org amount user metadata q db db1 h =
      rw (eq-only_row one law) λ e.
        let (v, same) = check_allows new_id now org users amount q db db1 h e in
        (
          record q { current_users = q.current_users +ℤ pos 1 },
          rw same (increment_users-Leaves new_id now org user metadata q db h),
          refl,
          users_verdict amount q v,
        )

-- The daily reset can only help: what was within the limit before it is within it afterwards.
daily-Within :
    (later : ℕ) (q : OrganizationQuota) (db : Db)
    → pos 0 ≤ℤ q.current_file_uploads_today
    → Within q.max_file_uploads_per_day (q.current_file_uploads_today +ℤ pos 1)
    → let (r, _) = check_and_reset_daily_quotas later q db in
      Within r.max_file_uploads_per_day (r.current_file_uploads_today +ℤ pos 1)
      × (r.max_storage_bytes ≡ q.max_storage_bytes)
      × (r.current_storage_bytes ≡ q.current_storage_bytes)
unfolding check_and_reset_daily_quotas ◌+ℤ◌
daily-Within later q db nonneg w = ground arith

daily-keeps :
    (now : ℕ) (q : OrganizationQuota) (db : Db)
    → pos 0 ≤ℤ q.current_file_uploads_today
    → let (r, _) = check_and_reset_daily_quotas now q db in
      (r.current_storage_bytes ≡ q.current_storage_bytes)
      × (r.max_storage_bytes ≡ q.max_storage_bytes)
      × (pos 0 ≤ℤ r.current_file_uploads_today)
unfolding check_and_reset_daily_quotas
daily-keeps now q db h = ground arith

monthly-keeps :
    (now : ℕ) (q : OrganizationQuota) (db : Db)
    → let (r, _) = check_and_reset_monthly_quotas now q db in
      r.current_file_uploads_today ≡ q.current_file_uploads_today
unfolding check_and_reset_monthly_quotas
monthly-keeps now q db = ground arith

module _ (one : OneOrNone) (law : IsOneOrNone one) where
  -- If the checks on storage and on uploads allow a file of some size, and the upload is then
  -- counted, at that time or later, the day's uploads and the stored bytes are within their limits.
  pub admitted_upload-Within :
      (new_id now later org : ℕ) (size : ℤ) (user metadata : Option ℕ) (q : OrganizationQuota)
      (db db1 db2 : Db)
      → Holds org q db
      → pos 0 ≤ℤ q.current_file_uploads_today
      → check_quota_with_subscription one new_id now org storage size db ≡ ok (allowed, db1)
      → check_quota_with_subscription one new_id now org file_uploads size db1 ≡ ok (allowed, db2)
      → (q' : OrganizationQuota) × Leaves org db2 q'
          (increment_file_uploads one new_id later org user size metadata db2)
        × Within q'.max_storage_bytes q'.current_storage_bytes
        × Within q'.max_file_uploads_per_day q'.current_file_uploads_today
  unfolding reset_for
  admitted_upload-Within new_id now later org size user metadata q db db1 db2 h nonneg =
      rw (eq-only_row one law) λ e e'.
        let (r, dbr) = check_and_reset_monthly_quotas now q db in
        let (v, same) = check_allows new_id now org storage size q db db1 h e in
        let hr : Holds org r db1 = rw same (monthly-Holds org now q db h) in
        let (s, dbs) = check_and_reset_daily_quotas now r db1 in
        let (v', same') = check_allows new_id now org file_uploads size r db1 db2 hr e' in
        let hs : Holds org s db2 = rw same' (daily-Holds org now r db1 hr) in
        let kept = daily-keeps now r db1 (rw (monthly-keeps now q db) nonneg) in
        let w = daily-Within later s db2 kept.2 (uploads_verdict size s v').0 in
        let (t, _) = check_and_reset_daily_quotas later s db2 in
        (
          record t {
            current_file_uploads_today = t.current_file_uploads_today +ℤ pos 1;
            current_storage_bytes = t.current_storage_bytes +ℤ size;
          },
          increment_file_uploads-Leaves new_id later org user metadata s db2 size hs,
          rw (w.1, w.2, kept.0, kept.1) (storage_verdict size r v),
          w.0,
        )
