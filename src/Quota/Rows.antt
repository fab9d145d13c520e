-- ===== src/Quota/Rows.antt =====
-- The quota row of one organisation under the operations of app/services/quota.py.
use python_fastapi_multiauth.Common.{
  ℕ, ◌≡◌, refl, ◌∙◌, ◌≢◌, Option, [], ◌∷◌, arith, ==_iff, Result, ok, only_row, select, Distinct,
  Distinct-save, select-holds, select-save, select-save_other,
}
use python_fastapi_multiauth.Common.Int.{ℤ, pos, ◌+ℤ◌, ◌-ℤ◌, max_ℤ}
use python_fastapi_multiauth.Quota.Model.{OrganizationQuota, UsageLog, Db}
use python_fastapi_multiauth.Quota.Service.{
  of_org, quota_key, save_quota, add_log, check_and_reset_monthly_quotas,
  check_and_reset_daily_quotas, reset_for, QuotaType, users, storage, api_calls, file_uploads,
  unknown, get_or_create_quota, increment_users, decrement_users, increment_api_calls,
  increment_file_uploads, decrement_storage,
}

-- `q` is the one quota of the organisation, and no two quotas share a primary key.
pub record Holds (org : ℕ) (q : OrganizationQuota) (db : Db) : Type 0 where
  pub distinct : Distinct quota_key db.quotas
  pub row : select (of_org org) db.quotas ≡ q ∷ []

pub Holds-org :
    (org : ℕ) (q : OrganizationQuota) (db : Db) → Holds org q db → q.organization_id ≡ org
Holds-org org q db h =
    (==_iff q.organization_id org).0 (select-holds (of_org org) db.quotas {rest = []} h.row)

pub Holds-save :
    (org : ℕ) (q q' : OrganizationQuota) (db : Db)
    → Holds org q db
    → q'.id ≡ q.id
    → q'.organization_id ≡ q.organization_id
    → Holds org q' (save_quota q' db)
unfolding save_quota
Holds-save org q q' db h same_id same_org = record {
  distinct = Distinct-save quota_key q' db.quotas h.distinct;
  row =
      select-save quota_key (of_org org) q q' db.quotas h.distinct h.row same_id
        (ground (arith, Holds-org org q db h));
}

pub Holds-add_log :
    (org : ℕ) (q : OrganizationQuota) (log : UsageLog) (db : Db)
    → Holds org q db
    → Holds org q (add_log log db)
unfolding add_log
Holds-add_log org q log db h = record { distinct = h.distinct; row = h.row }

pub get_or_create_quota-Holds :
    (new_id now org : ℕ) (q : OrganizationQuota) (db : Db)
    → Holds org q db
    → get_or_create_quota only_row new_id now org db ≡ ok (q, db)
unfolding get_or_create_quota
get_or_create_quota-Holds new_id now org q db h = rw h.row refl

pub monthly-Holds :
    (org now : ℕ) (q : OrganizationQuota) (db : Db)
    → Holds org q db
    → let (q', db') = check_and_reset_monthly_quotas now q db in Holds org q' db'
unfolding check_and_reset_monthly_quotas
monthly-Holds org now q db h = ground (
  arith,
  Holds-save org q (record q { current_api_calls_this_month = pos 0; api_calls_reset_at = now }) db
      h,
)

pub daily-Holds :
    (org now : ℕ) (q : OrganizationQuota) (db : Db)
    → Holds org q db
    → let (q', db') = check_and_reset_daily_quotas now q db in Holds org q' db'
unfolding check_and_reset_daily_quotas
daily-Holds org now q db h = ground (
  arith,
  Holds-save org q (record q { current_file_uploads_today = pos 0; file_uploads_reset_at = now }) db
      h,
)

pub reset_for-Holds :
    (t : QuotaType) (org now : ℕ) (q : OrganizationQuota) (db : Db)
    → Holds org q db
    → let (q', db') = reset_for t now q db in Holds org q' db'
unfolding reset_for
reset_for-Holds users org now q db h = h
reset_for-Holds storage org now q db h = monthly-Holds org now q db h
reset_for-Holds api_calls org now q db h = monthly-Holds org now q db h
reset_for-Holds file_uploads org now q db h = daily-Holds org now q db h
reset_for-Holds unknown org now q db h = h

-- The quotas of the other organisations are what they were.
abbrev pub Isolated : ℕ → Db → Db → Type 0
Isolated org db db' = (o : ℕ) → o ≢ org → select (of_org o) db'.quotas ≡ select (of_org o) db.quotas

save-Isolated :
    (org : ℕ) (q q' : OrganizationQuota) (db : Db)
    → Holds org q db
    → q'.id ≡ q.id
    → q'.organization_id ≡ q.organization_id
    → Isolated org db (save_quota q' db)
unfolding save_quota
save-Isolated org q q' db h same_id same_org o ne =
    select-save_other quota_key (of_org org) (of_org o) q q' db.quotas h.distinct h.row same_id
      (ground (arith, Holds-org org q db h)) (ground (arith, Holds-org org q db h))

pub monthly-Isolated :
    (org now : ℕ) (q : OrganizationQuota) (db : Db)
    → Holds org q db
    → Isolated org db (check_and_reset_monthly_quotas now q db).1
unfolding check_and_reset_monthly_quotas
monthly-Isolated org now q db h o ne = ground (
  arith,
  save-Isolated org q (record q { current_api_calls_this_month = pos 0; api_calls_reset_at = now })
      db h refl refl o ne,
)

pub daily-Isolated :
    (org now : ℕ) (q : OrganizationQuota) (db : Db)
    → Holds org q db
    → Isolated org db (check_and_reset_daily_quotas now q db).1
unfolding check_and_reset_daily_quotas
daily-Isolated org now q db h o ne = ground (
  arith,
  save-Isolated org q (record q { current_file_uploads_today = pos 0; file_uploads_reset_at = now })
      db h refl refl o ne,
)

-- What an operation leaves that began at `db`: `q'` is the quota of the organisation, and the
-- others have theirs.
abbrev pub Leaves : ℕ → Db → OrganizationQuota → Result Db → Type 0
Leaves org db q' r = (db' : Db) × (r ≡ ok db') × Holds org q' db' × Isolated org db db'

logged :
    (org : ℕ) (q q' : OrganizationQuota) (log : UsageLog) (start db : Db)
    → Holds org q db
    → Isolated org start db
    → q'.id ≡ q.id
    → q'.organization_id ≡ q.organization_id
    → Leaves org start q' (ok (add_log log (save_quota q' db)))
unfolding add_log
logged org q q' log start db h others i o = (
  _,
  refl,
  Holds-add_log org q' log (save_quota q' db) (Holds-save org q q' db h i o),
  λ other ne. save-Isolated org q q' db h i o other ne ∙ others other ne,
)

module _ (new_id now org : ℕ) (user metadata : Option ℕ) (q : OrganizationQuota) (db : Db) where
  pub increment_users-Leaves :
      Holds org q db
      → Leaves org db
          (record q { current_users = q.current_users +ℤ pos 1 })
          (increment_users only_row new_id now org user metadata db)
  unfolding increment_users
  increment_users-Leaves h =
      rw (get_or_create_quota-Holds new_id now org q db h)
        (logged org q _ _ db db h (λ o ne. refl) refl refl)

  pub decrement_users-Leaves :
      Holds org q db
      → Leaves org db
          (record q { current_users = max_ℤ (pos 0) (q.current_users -ℤ pos 1) })
          (decrement_users only_row new_id now org user metadata db)
  unfolding decrement_users
  decrement_users-Leaves h =
      rw (get_or_create_quota-Holds new_id now org q db h)
        (logged org q _ _ db db h (λ o ne. refl) refl refl)

  pub decrement_storage-Leaves :
      (file_size : ℤ)
      → Holds org q db
      → Leaves org db
          (record q {
            current_storage_bytes = max_ℤ (pos 0) (q.current_storage_bytes -ℤ file_size);
          })
          (decrement_storage only_row new_id now org file_size user metadata db)
  unfolding decrement_storage
  decrement_storage-Leaves file_size h =
      rw (get_or_create_quota-Holds new_id now org q db h)
        (logged org q _ _ db db h (λ o ne. refl) refl refl)

  -- The counters are raised on the row that the reset has left.
  pub increment_api_calls-Leaves :
      Holds org q db
      → let (r, _) = check_and_reset_monthly_quotas now q db in
        Leaves org db
          (record r { current_api_calls_this_month = r.current_api_calls_this_month +ℤ pos 1 })
          (increment_api_calls only_row new_id now org user metadata db)
  unfolding increment_api_calls
  increment_api_calls-Leaves h =
      let (r, db') = check_and_reset_monthly_quotas now q db in
      rw (get_or_create_quota-Holds new_id now org q db h) (
        logged org r _ _ db db' (monthly-Holds org now q db h) (monthly-Isolated org now q db h)
          refl refl)

  pub increment_file_uploads-Leaves :
      (file_size : ℤ)
      → Holds org q db
      → let (r, _) = check_and_reset_daily_quotas now q db in
        Leaves org db
          (record r {
            current_file_uploads_today = r.current_file_uploads_today +ℤ pos 1;
            current_storage_bytes = r.current_storage_bytes +ℤ file_size;
          })
          (increment_file_uploads only_row new_id now org user file_size metadata db)
  unfolding increment_file_uploads
  increment_file_uploads-Leaves file_size h =
      let (r, db') = check_and_reset_daily_quotas now q db in
      rw (get_or_create_quota-Holds new_id now org q db h) (
        logged org r _ _ db db' (daily-Holds org now q db h) (daily-Isolated org now q db h) refl
          refl)
