-- ===== src/Billing/Limits.antt =====
-- The subscription and the limits of an organisation after the plan changes of
-- app/services/billing_service.py and app/api/v1/endpoints/stripe_webhooks.py.
use python_fastapi_multiauth.Common.{
  ℕ, ◌≡◌, refl, ap, ◌∙◌, some, [], ◌∷◌, ◌==◌, ==_refl, ok, OneOrNone, IsOneOrNone, only_row,
  eq-only_row, select, select-holds, save, select-save, Distinct, Distinct-save,
}
use python_fastapi_multiauth.Quota.Model.{OrganizationQuota}
use python_fastapi_multiauth.Quota.Service.{of_org, quota_key}
use python_fastapi_multiauth.Billing.Model.{
  Plan, Subscription, Db, uuid, StripeSubscription, subscription_created, subscription_updated,
}
use python_fastapi_multiauth.Billing.Service.{
  Call, subscription_key, subscribed, save_subscription, with_limits,
  update_subscription_from_stripe, log_billing_event, get_organization_subscription,
  update_quotas_from_plan,
}
use python_fastapi_multiauth.Billing.Subscribe.{
  store_subscription, handle_subscription_created, change_plan, handle_subscription_updated,
}

-- The organisation has one subscription and one quota, these, in tables whose ids are unique.
pub record Rows (org : ℕ) (s : Subscription) (q : OrganizationQuota) (db : Db) : Type 0 where
  pub distinct_subscriptions : Distinct subscription_key db.subscriptions
  pub one_subscription : select (subscribed org) db.subscriptions ≡ s ∷ []
  pub distinct_quotas : Distinct quota_key db.quotas
  pub one_quota : select (of_org org) db.quotas ≡ q ∷ []

module _ (org : ℕ) (s s' : Subscription) (q : OrganizationQuota) (db : Db) where
  -- Saving a changed subscription.
  pub save_subscription-Rows :
      Rows org s q db
      → s'.id ≡ s.id
      → s'.organization_id ≡ s.organization_id
      → Rows org s' q (save_subscription s' db)
  unfolding save_subscription
  save_subscription-Rows rows same_id same_org =
      let owned = select-holds (subscribed org) db.subscriptions rows.one_subscription in
      record {
        distinct_subscriptions =
            Distinct-save subscription_key s' db.subscriptions rows.distinct_subscriptions;
        one_subscription =
            select-save subscription_key (subscribed org) s s' db.subscriptions
              rows.distinct_subscriptions rows.one_subscription same_id
              (ap (λ o. o == org) same_org ∙ owned);
        distinct_quotas = rows.distinct_quotas;
        one_quota = rows.one_quota;
      }

-- What `update_quotas_from_plan` does to the one quota.
abbrev pub limited : OrganizationQuota → Plan → Db → Db
unfolding with_limits
limited q plan db = record db { quotas = save quota_key (with_limits plan q) db.quotas }

module _ (call : Call) (org : ℕ) (s : Subscription) (q : OrganizationQuota) (plan : Plan)
    (db : Db) where
  pub eq-limited :
      Rows org s q db → update_quotas_from_plan only_row call org plan db ≡ ok (limited q plan db)
  unfolding update_quotas_from_plan
  eq-limited rows = rw rows.one_quota

  pub limited-Rows : Rows org s q db → Rows org s (with_limits plan q) (limited q plan db)
  unfolding with_limits
  limited-Rows rows = record {
    distinct_subscriptions = rows.distinct_subscriptions;
    one_subscription = rows.one_subscription;
    distinct_quotas = Distinct-save quota_key (with_limits plan q) db.quotas rows.distinct_quotas;
    one_quota =
        select-save quota_key (of_org org) q (with_limits plan q) db.quotas rows.distinct_quotas
          rows.one_quota refl (select-holds (of_org org) db.quotas rows.one_quota);
  }

-- The row that a Stripe subscription with the id of a plan leaves.
abbrev pub renewed : StripeSubscription → (plan : ℕ) → Subscription → Subscription
renewed ss plan s = record (update_subscription_from_stripe ss s) { plan_id = plan }

module _ (one : OneOrNone) (law : IsOneOrNone one) (call : Call) (org event : ℕ) (s : Subscription)
    (q : OrganizationQuota) (db : Db) (rows : Rows org s q db) where
  -- A `subscription.created` event for an organisation that has a subscription.
  pub created_again :
      (plan : ℕ) (ss : StripeSubscription)
      → ss.plan_id ≡ uuid plan
      → handle_subscription_created one call org ss event db
        ≡ ok (
            log_billing_event org subscription_created
              (some event)
              (some s.id)
              (save_subscription (renewed ss plan s) db))
  unfolding handle_subscription_created store_subscription get_organization_subscription
      update_subscription_from_stripe
  created_again plan ss is_plan = rw (eq-only_row one law, is_plan, rows.one_subscription)

  pub updated_same :
      (plan : ℕ) (ss : StripeSubscription)
      → ss.plan_id ≡ uuid plan
      → s.plan_id ≡ plan
      → handle_subscription_updated one call org ss event db
        ≡ ok (
            log_billing_event org subscription_updated
              (some event)
              (some s.id)
              (save_subscription (update_subscription_from_stripe ss s) db))
  unfolding handle_subscription_updated change_plan get_organization_subscription
      update_subscription_from_stripe
  updated_same plan ss is_plan same =
      rw (eq-only_row one law, rows.one_subscription, is_plan, same, ==_refl plan)
