-- ===== src/Quota/Guards.antt =====
-- app/api/v1/dependencies/quota.py: the guards that run before an endpoint. The request is what the
-- guard reads of it; the caller's organisation comes from app/core/organization_helpers.py.
use python_fastapi_multiauth.Common.{
  ℕ, Bool, true, false, Option, none, some, List, [], ◌∷◌, if◌then◌else◌, ◌==◌, Result, ok, err,
  ◌>>=◌, ◌>>◌, raise_if, http, OneOrNone, select,
}
use python_fastapi_multiauth.Common.Int.{ℤ}
use python_fastapi_multiauth.Quota.Model.{
  OrganizationQuota, Db, is_user_quota_exceeded, is_storage_quota_exceeded,
  is_api_call_quota_exceeded, is_file_upload_quota_exceeded, is_file_size_exceeded,
}
use python_fastapi_multiauth.Quota.Service.{
  get_or_create_quota, check_and_reset_monthly_quotas, check_and_reset_daily_quotas,
  increment_api_calls, of_org,
}

-- The user with the organisations that the relationship loads, in its order.
pub record User : Type 0 where
  pub id : ℕ
  pub organizations : List ℕ

unfoldable pub get_user_organization_id : User → Result ℕ
get_user_organization_id user = elim user.organizations [
  | [] ↦ err (http "400")
  | org ∷ rest ↦ ok org
]

unfoldable pub check_user_in_organization : List ℕ → ℕ → Bool
check_user_in_organization [] org = false
check_user_in_organization (o ∷ rest) org =
    let others = check_user_in_organization rest org in if o == org then true else others

module _ (one : OneOrNone) where
  -- `skip` says whether the path is one of the health, metrics and documentation pages; there the
  -- guard answers with a quota object of no organisation, here `none`.
  unfoldable pub check_api_quota :
      ℕ → ℕ → Bool → User → Option ℕ → Db → Result (Option OrganizationQuota × Db)
  unfolding get_user_organization_id get_or_create_quota check_and_reset_monthly_quotas
      is_api_call_quota_exceeded increment_api_calls
  check_api_quota new_id now skip user metadata db =
      let guarded = do
        org ← get_user_organization_id user
        (q, db) ← get_or_create_quota one new_id now org db
        let (q, db) = check_and_reset_monthly_quotas now q db
        raise_if (is_api_call_quota_exceeded q) (http "429")
        db ← increment_api_calls one new_id now org (some user.id) metadata db
        -- `quota` is the session's one object for that row, so it shows the increment.
        current ← one OrganizationQuota (select (of_org org) db.quotas)
        ok (current, db)
      in if skip then ok (none, db) else guarded

  unfoldable pub check_file_upload_quota : ℕ → ℕ → User → ℤ → Db → Result (OrganizationQuota × Db)
  unfolding get_user_organization_id get_or_create_quota check_and_reset_daily_quotas
      is_file_upload_quota_exceeded is_file_size_exceeded is_storage_quota_exceeded
  check_file_upload_quota new_id now user file_size db = do
    org ← get_user_organization_id user
    (q, db) ← get_or_create_quota one new_id now org db
    let (q, db) = check_and_reset_daily_quotas now q db
    raise_if (is_file_upload_quota_exceeded q) (http "429")
    raise_if (is_file_size_exceeded q file_size) (http "413")
    raise_if (is_storage_quota_exceeded q file_size) (http "507")
    ok (q, db)

  unfoldable pub check_user_quota : ℕ → ℕ → User → Db → Result (OrganizationQuota × Db)
  unfolding get_user_organization_id get_or_create_quota is_user_quota_exceeded
  check_user_quota new_id now user db = do
    org ← get_user_organization_id user
    (q, db) ← get_or_create_quota one new_id now org db
    raise_if (is_user_quota_exceeded q) (http "429")
    ok (q, db)
