-- ===== src/Billing/Stripe.antt =====
-- The subscription calls of app/services/stripe_service.py. The stripe package is a parameter: its calls
-- return the subscription or raise; the logging around them raises again what they raise.
use python_fastapi_multiauth.Common.{ℕ, Bool, true, false, Option, none, some, Result, ◌>>=◌}
use python_fastapi_multiauth.Billing.Model.{StripeSubscription}

-- The keyword arguments of `stripe.Subscription.modify` that the service gives: the item and its new
-- price with whether to prorate, and `cancel_at_period_end`.
pub record Update : Type 0 where
  pub items : Option (ℕ × ℕ × Bool)
  pub cancel_at_period_end : Option Bool

pub record StripeApi : Type 0 where
  -- the first item of `stripe.Subscription.retrieve`
  pub retrieve_item : ℕ → Result ℕ
  pub modify : ℕ → Update → Result StripeSubscription
  -- `stripe.Subscription.delete`
  pub cancel : ℕ → Result StripeSubscription

module _ (api : StripeApi) where
  -- `update_subscription` with a price.
  unfoldable pub change_price :
      (subscription price : ℕ) → (prorate : Bool) → Result StripeSubscription
  change_price subscription price prorate = do
    item ← api.retrieve_item subscription
    api.modify subscription
        (record { items = some (item, price, prorate); cancel_at_period_end = none })

  unfoldable pub cancel_stripe_subscription : ℕ → (immediately : Bool) → Result StripeSubscription
  cancel_stripe_subscription subscription true = api.cancel subscription
  cancel_stripe_subscription subscription false =
      api.modify subscription (record { items = none; cancel_at_period_end = some true })

  unfoldable pub resume_stripe_subscription : ℕ → Result StripeSubscription
  resume_stripe_subscription subscription =
      api.modify subscription (record { items = none; cancel_at_period_end = some false })
