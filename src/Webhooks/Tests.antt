-- ===== src/Webhooks/Tests.antt =====
-- Runs of webhooks on small tables.
use python_fastapi_multiauth.Common.{
  ℕ, ◌≡◌, refl, ◌+◌, true, none, [], ◌∷◌, only_row, ltb, if◌then◌else◌,
}
use python_fastapi_multiauth.Webhooks.Model.{
  Webhook, WebhookDelivery, failed, pending, Db, Posted, responds, raises,
}
use python_fastapi_multiauth.Webhooks.Service.{
  counted, attempted, deliver_webhook, trigger_event, create_delivery,
}
use python_fastapi_multiauth.Webhooks.Attempts.{Active}
use python_fastapi_multiauth.Webhooks.Statistics.{delivered, Steps, stop, next}

abbrev webhook : Webhook
webhook = record {
  id = 3;
  organization_id = 5;
  url = 90;
  events = 1 ∷ 2 ∷ [];
  description = none;
  is_active = true;
  total_deliveries = 7;
  successful_deliveries = 4;
  failed_deliveries = 3;
  last_delivery_at = none;
  last_success_at = none;
  last_failure_at = none;
}

abbrev delivery : WebhookDelivery
delivery = record {
  id = 8;
  webhook_id = 3;
  event_type = 1;
  event_data = 0;
  status = pending;
  status_code = none;
  error_message = none;
  attempt_count = 0;
  max_attempts = 3;
  next_retry_at = none;
  delivered_at = none;
}

abbrev exhausted : WebhookDelivery
exhausted = record delivery { status = failed; attempt_count = 3 }

abbrev db : Db
db = record { webhooks = webhook ∷ []; deliveries = delivery ∷ [] }

abbrev webhook-Active : Active 3 webhook db
webhook-Active = record { active = refl; same_id = refl; distinct = (refl, tt); found = refl }

-- An endpoint that fails, raises, and then works; the fuel counts down.
abbrev flaky : ℕ → Webhook → WebhookDelivery → Posted
flaky fuel w d = if ltb 1 fuel then responds 503 else if ltb 0 fuel then raises else responds 204

triggers : (trigger_event (λ w. w + 10) 5 2 0 db).0 ≡ (create_delivery 13 3 2 0 db).0 ∷ []
unfolding trigger_event create_delivery
triggers = refl

abbrev delivered_db : Db
unfolding counted attempted
delivered_db = record {
  webhooks = counted 60 (responds 204) webhook ∷ [];
  deliveries = attempted 60 (responds 204) delivery ∷ [];
}

abbrev one_delivery : Steps only_row db delivered_db
unfolding deliver_webhook counted attempted
one_delivery = next stop (
    delivered (flaky 0) 60 delivery (attempted 60 (responds 204) delivery) true db delivered_db
      refl)
