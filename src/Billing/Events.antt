-- ===== src/Billing/Events.antt =====
-- The events of the stripe package that app/api/v1/endpoints/stripe_webhooks.py tells apart.
use python_fastapi_multiauth.Common.{ℕ}
use python_fastapi_multiauth.Billing.Model.{StripeSubscription, StripeInvoice, StripePaymentMethod}

-- `event.type` by its prefix, with the object that comes with it.
pub data SubscriptionEvent : Type 0 where
  created updated deleted will_end other_subscription : SubscriptionEvent

pub data InvoiceEvent : Type 0 where
  succeeded failed saved other_invoice : InvoiceEvent

pub data PaymentMethodEvent : Type 0 where
  attach detach other_method : PaymentMethodEvent

pub data Payload : Type 0 where
  of_subscription : SubscriptionEvent → StripeSubscription → Payload
  of_invoice : InvoiceEvent → StripeInvoice → Payload
  of_payment_method : PaymentMethodEvent → StripePaymentMethod → Payload
  of_other : Payload

pub record Event : Type 0 where
  pub id : ℕ
  pub payload : Payload

pub data Response : Type 0 where
  success duplicate_event : Response
