-- ===== src/Quota/Refusals.antt =====
-- The request guards beside the checks of the service, and the subscriptions that stop both.
use python_fastapi_multiauth.Common.{
  ℕ, ◌≡◌, true, false, Option, List, [], ◌∷◌, arith, ok, err, http, OneOrNone, IsOneOrNone,
  eq-only_row, select,
}
use python_fastapi_multiauth.Common.Int.{ℤ, pos, negsuc, ◌+ℤ◌, ◌≤ℤ◌}
use python_fastapi_multiauth.Quota.Model.{
  OrganizationQuota, Subscription, active, Db, is_api_call_quota_exceeded,
}
use python_fastapi_multiauth.Quota.Service.{
  api_calls, allowed, limit_verdict, of_subscription, check_quota_with_subscription,
  check_and_reset_monthly_quotas,
}
use python_fastapi_multiauth.Quota.Guards.{User, check_api_quota}
use python_fastapi_multiauth.Quota.Rows.{Holds, get_or_create_quota-Holds}

monthly-limit :
    (now : ℕ) (q : OrganizationQuota) (db : Db)
    → q.max_api_calls_per_month ≡ negsuc 0
    → pos 0 ≤ℤ q.current_api_calls_this_month
    → let (r, _) = check_and_reset_monthly_quotas now q db in
      (r.max_api_calls_per_month ≡ negsuc 0) × (pos 0 ≤ℤ r.current_api_calls_this_month)
unfolding check_and_reset_monthly_quotas
monthly-limit now q db h k = ground arith

unlimited_verdict :
    (amount : ℤ) (q : OrganizationQuota)
    → q.max_api_calls_per_month ≡ negsuc 0
    → pos 0 ≤ℤ q.current_api_calls_this_month
    → (limit_verdict api_calls amount q ≡ allowed) × (is_api_call_quota_exceeded q ≡ true)
unfolding limit_verdict is_api_call_quota_exceeded
unlimited_verdict amount q h k = ground arith

module _ (one : OneOrNone) (law : IsOneOrNone one) where
  -- For an organisation with an active subscription and no limit on its calls (-1), the service's
  -- check allows a call and the request guard refuses every request with status 429.
  unlimited_calls_refused :
      (new_id now : ℕ) (amount : ℤ) (user : User) (org : ℕ) (rest : List ℕ) (metadata : Option ℕ)
      (q : OrganizationQuota) (s : Subscription) (db : Db)
      → Holds org q db
      → user.organizations ≡ org ∷ rest
      → select (of_subscription org) db.subscriptions ≡ s ∷ []
      → s.status ≡ active
      → q.max_api_calls_per_month ≡ negsuc 0
      → pos 0 ≤ℤ q.current_api_calls_this_month
      → (check_quota_with_subscription one new_id now org api_calls amount db
          ≡ ok (allowed, (check_and_reset_monthly_quotas now q db).1))
        × (check_api_quota one new_id now false user metadata db ≡ err (http "429"))
  unfolding check_quota_with_subscription check_api_quota
  unlimited_calls_refused new_id now amount user org rest metadata q s db h ho hs ha hm nonneg =
      rw (eq-only_row one law) (
        ground (
          arith,
          get_or_create_quota-Holds new_id now org q db h,
          monthly-limit now q db hm nonneg,
          unlimited_verdict amount (check_and_reset_monthly_quotas now q db).0,
        ))

abbrev pub counted : OrganizationQuota → OrganizationQuota
counted r = record r { current_api_calls_this_month = r.current_api_calls_this_month +ℤ pos 1 }
