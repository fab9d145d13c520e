-- ===== src/Billing.antt =====
-- Billing: app/services/billing_service.py, the subscription calls of app/services/stripe_service.py
-- and the webhook of app/api/v1/endpoints/stripe_webhooks.py.
pub mod Model
pub mod Stripe
pub mod Service
pub mod Webhook
pub mod Events
pub mod Invoices
pub mod Subscribe
pub mod Payments
pub mod Recorded
pub mod Redelivery
pub mod Limits
pub mod PlanChanges
pub mod PaidAgain
mod Tests
