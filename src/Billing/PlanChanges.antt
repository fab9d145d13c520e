-- ===== src/Billing/PlanChanges.antt =====
-- Upgrades by the API and the events of Stripe that set the plan of an organisation
-- (app/services/billing_service.py, app/api/v1/endpoints/stripe_webhooks.py), and what
-- app/services/quota.py then answers.
use python_fastapi_multiauth.Common.{
  ℕ, ◌≡◌, refl, ap, ◌∙◌, inl, inr, Bool, Option, none, some, List, [], ◌∷◌, ◌==◌, map, Result, ok,
  err, ◌>>=◌, OneOrNone, IsOneOrNone, only_row, eq-only_row, select, arith, Result-cases,
}
use python_fastapi_multiauth.Quota.Model.{OrganizationQuota, UsageLog, canceled}
use python_fastapi_multiauth.Quota.Service.{
  of_org, denied, subscription_canceled, of_subscription, check_subscription_active, status_verdict,
}
use python_fastapi_multiauth.Billing.Model.{
  Plan, Subscription, Db, uuid, StripeSubscription, quota_view, subscription_created,
  subscription_updated, subscription_deleted,
}
use python_fastapi_multiauth.Billing.Stripe.{StripeApi, change_price}
use python_fastapi_multiauth.Billing.Service.{
  Call, subscribed, free_name, save_subscription, with_limits, update_subscription_from_stripe,
  log_billing_event, get_plan_by_id, get_plan_by_name, get_organization_subscription,
  update_quotas_from_plan, required_subscription, upgrade_subscription,
}
use python_fastapi_multiauth.Billing.Subscribe.{
  handle_subscription_created, handle_subscription_updated, downgrade, handle_subscription_deleted,
}
use python_fastapi_multiauth.Billing.Limits.{
  Rows, save_subscription-Rows, limited, eq-limited, limited-Rows, renewed, created_again,
  updated_same,
}

-- The organisation has one subscription, to the plan, and its one quota has the plan's limits.
abbrev pub OnPlan : (org : ℕ) → Plan → Db → Type 0
OnPlan org plan db =
    (s : Subscription) × (q : OrganizationQuota) × (select (subscribed org) db.subscriptions
      ≡ s ∷ [])
    × (s.plan_id ≡ plan.id)
    × (select (of_org org) db.quotas ≡ with_limits plan q ∷ [])

-- What the quotas' query for the subscription finds.
select-view :
    (org : ℕ) (logs : List UsageLog) (db : Db) (xs : List Subscription)
    → select (of_subscription org) (
        map
          (λ (s : Subscription). record { organization_id = s.organization_id; status = s.status })
          xs)
      ≡ map
          (λ (s : Subscription). record { organization_id = s.organization_id; status = s.status })
          (select (subscribed org) xs)
select-view org logs db [] = refl
select-view org logs db (s ∷ xs) = ground (arith, select-view org logs db xs)

check-status :
    (org : ℕ) (logs : List UsageLog) (s : Subscription) (db : Db)
    → select (subscribed org) db.subscriptions ≡ s ∷ []
    → check_subscription_active only_row org (quota_view logs db) ≡ ok (status_verdict s.status)
unfolding check_subscription_active
check-status org logs s db h = rw (select-view org logs db db.subscriptions, h)

eq-downgrade :
    (call : Call) (org : ℕ) (s : Subscription) (q : OrganizationQuota) (free : Plan) (db : Db)
    → Rows org s q db
    → select (λ p. p.name == free_name) db.plans ≡ free ∷ []
    → downgrade only_row call org s db
      ≡ ok (limited q free (save_subscription (record s { plan_id = free.id }) db))
unfolding downgrade get_plan_by_name save_subscription
eq-downgrade call org s q free db rows is_free =
    let s' = record s { plan_id = free.id } in
    let saved = save_subscription-Rows org s s' q db rows refl refl in
    rw is_free (eq-limited call org s' q free (save_subscription s' db) saved)

eq-deleted :
    (call : Call) (org event : ℕ) (s : Subscription) (q : OrganizationQuota) (free : Plan)
    (ss : StripeSubscription) (db : Db)
    → Rows org s q db
    → select (λ p. p.name == free_name) db.plans ≡ free ∷ []
    → handle_subscription_deleted only_row call org ss event db
      ≡ ok (
          log_billing_event org subscription_deleted (some event) (some s.id) (
            limited q free (
              save_subscription
                (renewed ss free.id s)
                (save_subscription (update_subscription_from_stripe ss s) db))))
unfolding handle_subscription_deleted get_organization_subscription update_subscription_from_stripe
    save_subscription
eq-deleted call org event s q free ss db rows is_free =
    let s' = update_subscription_from_stripe ss s in
    let saved = save_subscription-Rows org s s' q db rows refl refl in
    rw rows.one_subscription (
      ap
        (λ r. r >>= λ d. ok (log_billing_event org subscription_deleted (some event) (some s.id) d))
        (eq-downgrade call org s' q free (save_subscription s' db) saved is_free))

module _ (one : OneOrNone) (law : IsOneOrNone one) (org : ℕ) (s : Subscription)
    (q : OrganizationQuota) (db : Db) (rows : Rows org s q db) where
  -- If the organisation has one subscription and one quota row, and Stripe sends the creation and then an
  -- update of a subscription to a plan, then both events are processed, and after them the row of the
  -- subscription names that plan, but it names the Stripe subscription of before, and all quotas are the
  -- ones of before: the limits of the plan are not set.
  pub created_updated :
      (c1 c2 : Call) (e1 e2 : ℕ) (plan : ℕ) (ss1 ss2 : StripeSubscription)
      → ss1.plan_id ≡ uuid plan
      → ss2.plan_id ≡ uuid plan
      → (db' : Db) × (s' : Subscription) × ((handle_subscription_created one c1 org ss1 e1 db
            >>= handle_subscription_updated one c2 org ss2 e2)
          ≡ ok db')
        × (select (subscribed org) db'.subscriptions ≡ s' ∷ [])
        × (s'.plan_id ≡ plan)
        × (s'.stripe_subscription_id ≡ s.stripe_subscription_id)
        × (db'.quotas ≡ db.quotas)
  unfolding update_subscription_from_stripe log_billing_event save_subscription
  created_updated c1 c2 e1 e2 plan ss1 ss2 plan1 plan2 =
      let s1 = renewed ss1 plan s in
      let s2 = update_subscription_from_stripe ss2 s1 in
      let saved1 = save_subscription-Rows org s s1 q db rows refl refl in
      let db1 =
        log_billing_event org subscription_created (some e1) (some s.id)
          (save_subscription s1 db) in
      let rows1 : Rows org s1 q db1 = record {
        distinct_subscriptions = saved1.distinct_subscriptions;
        one_subscription = saved1.one_subscription;
        distinct_quotas = saved1.distinct_quotas;
        one_quota = saved1.one_quota;
      } in
      (
        log_billing_event org subscription_updated (some e2) (some s.id) (save_subscription s2 db1),
        s2,
        rw (created_again one law c1 org e1 s q db rows plan ss1 plan1)
            (updated_same one law c2 org e2 s1 q db1 rows1 plan ss2 plan2 refl),
        (save_subscription-Rows org s1 s2 q db1 rows1 refl refl).one_subscription,
        refl,
        refl,
        refl,
      )

  -- If the organisation has one subscription and one quota row, there is one plan named "free", and Stripe
  -- sends the deletion of the subscription with the status "canceled", then the event is processed and
  -- the organisation is on the free plan with its limits, but the subscription check of the quotas
  -- refuses it as canceled, whatever the usage logs.
  pub deleted_refused :
      (call : Call) (event : ℕ) (free : Plan) (ss : StripeSubscription) (logs : List UsageLog)
      → select (λ p. p.name == free_name) db.plans ≡ free ∷ []
      → ss.status ≡ canceled
      → (db' : Db) × (handle_subscription_deleted one call org ss event db ≡ ok db')
        × OnPlan org free db'
        × (check_subscription_active one org (quota_view logs db')
            ≡ ok (denied subscription_canceled))
  unfolding update_subscription_from_stripe save_subscription log_billing_event status_verdict
  deleted_refused call event free ss logs is_free gone =
      let s1 = update_subscription_from_stripe ss s in
      let s2 = record s1 { plan_id = free.id } in
      let saved1 = save_subscription-Rows org s s1 q db rows refl refl in
      let db1 = save_subscription s1 db in
      let saved2 = save_subscription-Rows org s1 s2 q db1 saved1 refl refl in
      let last = limited-Rows call org s2 q free (save_subscription s2 db1) saved2 in
      let db2 =
        log_billing_event org subscription_deleted (some event) (some s.id)
          (limited q free (save_subscription s2 db1)) in
      (
        db2,
        rw (eq-only_row one law) (eq-deleted call org event s q free ss db rows is_free),
        (s2, q, last.one_subscription, refl, last.one_quota),
        rw (eq-only_row one law) (
            check-status org logs s2 db2 last.one_subscription
            ∙ ap (λ t. ok (status_verdict t)) gone),
      )

-- What `upgrade_subscription` may answer: the organisation is on the plan, or Stripe's call raised.
abbrev pub UpgradedTo :
    (org price : ℕ) → Bool → Plan → StripeApi → Subscription → Result (Subscription × Db) → Type 0
UpgradedTo org price prorate plan api s (ok (s', db')) =
    OnPlan org plan db' × (select (subscribed org) db'.subscriptions ≡ s' ∷ [])
UpgradedTo org price prorate plan api s (err e) =
    (id : ℕ) × (s.stripe_subscription_id ≡ some id) × (change_price api id price prorate ≡ err e)

module _ (api : StripeApi) (call : Call) (org : ℕ) (prorate : Bool) (s : Subscription)
    (q : OrganizationQuota) (plan : Plan) (price : ℕ) (db : Db) (rows : Rows org s q db) where
  -- The end of `upgrade_subscription`, from the row that Stripe's answer gave.
  upgraded-OnPlan :
      (s1 : Subscription)
      → s1.id ≡ s.id
      → s1.organization_id ≡ s.organization_id
      → let s2 = record s1 { plan_id = plan.id } in
        UpgradedTo org price prorate plan api s (
          update_quotas_from_plan only_row call org plan (save_subscription s2 db) >>= λ db'.
          ok (s2, db'))
  upgraded-OnPlan s1 same_id same_org =
      let s2 = record s1 { plan_id = plan.id } in
      let saved = save_subscription-Rows org s s2 q db rows same_id same_org in
      let last = limited-Rows call org s2 q plan (save_subscription s2 db) saved in
      rw (eq-limited call org s2 q plan (save_subscription s2 db) saved)
        ((s2, q, last.one_subscription, refl, last.one_quota), last.one_subscription)

  -- What is left of `upgrade_subscription` once the rows are found.
  upgrade_found :
      select (λ p. p.id == plan.id) db.plans ≡ plan ∷ []
      → plan.stripe_price_id ≡ some price
      → upgrade_subscription only_row api call org plan.id prorate db ≡ (
          elim s.stripe_subscription_id [
            | none ↦ ok s
            | some id ↦ change_price api id price prorate >>= λ ss.
                ok (update_subscription_from_stripe ss s)
          ]
          >>= λ s1.
              update_quotas_from_plan only_row call org plan
                (save_subscription (record s1 { plan_id = plan.id }) db)
              >>= λ db'. ok (record s1 { plan_id = plan.id }, db'))
  unfolding upgrade_subscription required_subscription get_organization_subscription get_plan_by_id
  upgrade_found is_plan has_price = simp (rows.one_subscription, is_plan, has_price)

  upgrade_rest :
      (paid : Option ℕ)
      → s.stripe_subscription_id ≡ paid
      → UpgradedTo org price prorate plan api s (
          elim paid [
            | none ↦ ok s
            | some id ↦ change_price api id price prorate >>= λ ss.
                ok (update_subscription_from_stripe ss s)
          ]
          >>= λ s1.
              update_quotas_from_plan only_row call org plan
                (save_subscription (record s1 { plan_id = plan.id }) db)
              >>= λ db'. ok (record s1 { plan_id = plan.id }, db'))
  unfolding update_subscription_from_stripe
  upgrade_rest none is_paid = upgraded-OnPlan s refl refl
  upgrade_rest (some id) is_paid = elim (Result-cases (change_price api id price prorate)) [
    | inl (ss, answered) ↦
        rw answered (upgraded-OnPlan (update_subscription_from_stripe ss s) refl refl)
    | inr (e, raised) ↦ rw raised (id, is_paid, raised)
  ]

  upgrade_only :
      select (λ p. p.id == plan.id) db.plans ≡ plan ∷ []
      → plan.stripe_price_id ≡ some price
      → UpgradedTo org price prorate plan api s
          (upgrade_subscription only_row api call org plan.id prorate db)
  upgrade_only is_plan has_price =
      rw (upgrade_found is_plan has_price) (upgrade_rest s.stripe_subscription_id refl)

-- If the organisation has one subscription and one quota row, and one plan has the plan's id and a Stripe
-- price, then an upgrade to the plan either raises what Stripe's change of the price of the
-- organisation's Stripe subscription raises, or it returns the row that is then the organisation's
-- subscription, to that plan, and the organisation's quota has the plan's limits.
pub upgrade_limits :
    (one : OneOrNone) (law : IsOneOrNone one) (api : StripeApi) (call : Call) (org : ℕ)
    (prorate : Bool) (s : Subscription) (q : OrganizationQuota) (plan : Plan) (price : ℕ) (db : Db)
    → Rows org s q db
    → select (λ p. p.id == plan.id) db.plans ≡ plan ∷ []
    → plan.stripe_price_id ≡ some price
    → UpgradedTo org price prorate plan api s
        (upgrade_subscription one api call org plan.id prorate db)
upgrade_limits one law = rw (eq-only_row one law) upgrade_only
