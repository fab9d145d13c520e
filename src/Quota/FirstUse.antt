-- ===== src/Quota/FirstUse.antt =====
-- `get_or_create_quota` of app/services/quota.py.
use python_fastapi_multiauth.Common.{
  ℕ, ◌≡◌, refl, [], ◌∷◌, ok, OneOrNone, IsOneOrNone, eq-only_row, select, select-append, Distinct,
  Distinct-append, has_key, ==_refl, ◌++◌,
}
use python_fastapi_multiauth.Quota.Model.{new_quota, Db}
use python_fastapi_multiauth.Quota.Service.{of_org, quota_key, get_or_create_quota}
use python_fastapi_multiauth.Quota.Rows.{Holds, get_or_create_quota-Holds}

created : ℕ → ℕ → ℕ → Db → Db
created new_id now org db = record db { quotas = db.quotas ++ new_quota new_id now org ∷ [] }

created-Holds :
    (new_id now org : ℕ) (db : Db)
    → Distinct quota_key db.quotas
    → select (has_key quota_key new_id) db.quotas ≡ []
    → select (of_org org) db.quotas ≡ []
    → Holds org (new_quota new_id now org) (created new_id now org db)
unfolding created new_quota
created-Holds new_id now org db d fresh absent = record {
  distinct = Distinct-append quota_key (new_quota new_id now org) db.quotas d fresh;
  row =
      rw (select-append (of_org org) db.quotas (new_quota new_id now org ∷ []), absent, ==_refl org)
        refl;
}

module _ (one : OneOrNone) (law : IsOneOrNone one) where
  -- For an organisation with no quota, and an unused primary key, a quota with the default limits is
  -- created and is then the organisation's only one; a later call returns that quota and changes
  -- nothing.
  first_use :
      (new_id now org other_id later : ℕ) (db : Db)
      → Distinct quota_key db.quotas
      → select (has_key quota_key new_id) db.quotas ≡ []
      → select (of_org org) db.quotas ≡ []
      → (db' : Db) × (get_or_create_quota one new_id now org db
          ≡ ok (new_quota new_id now org, db'))
        × Holds org (new_quota new_id now org) db'
        × (get_or_create_quota one other_id later org db' ≡ ok (new_quota new_id now org, db'))
  unfolding get_or_create_quota created
  first_use new_id now org other_id later db d fresh absent =
      let h = created-Holds new_id now org db d fresh absent in
      rw (eq-only_row one law) (
        created new_id now org db,
        rw absent refl,
        h,
        get_or_create_quota-Holds other_id later org _ _ h,
      )
