-- ===== src/Webhooks/Tasks.antt =====
-- The delivery task of app/tasks/webhook.py. What the service has committed stays when the task raises, so
-- that the tables come with either outcome. The base class has Celery run the task again when it raises,
-- which is another call.
use python_fastapi_multiauth.Common.{
  ℕ, Option, none, some, if◌then◌else◌, Result, ok, err, value_error, ◌>>=◌, OneOrNone, select,
  has_key,
}
use python_fastapi_multiauth.Webhooks.Model.{Webhook, WebhookDelivery, Db, Posted, delivery_key}
use python_fastapi_multiauth.Webhooks.Service.{deliver_webhook}

-- The task returns a dictionary, or raises "Webhook delivery failed with status ...".
pub data Outcome : Type 0 where
  returned : (attempt_count : ℕ) → (status_code : Option ℕ) → Outcome
  raised : (status_code : Option ℕ) → Outcome

unfoldable pub deliver_webhook_task :
    OneOrNone
    → (post : Webhook → WebhookDelivery → Posted) → (now delivery_id : ℕ) → Db
    → Result (Outcome × Db)
unfolding deliver_webhook
deliver_webhook_task one post now delivery_id db = do
  found ← one WebhookDelivery (select (has_key delivery_key delivery_id) db.deliveries)
  elim found [
    | none ↦ err (value_error "Delivery not found")
    | some delivery ↦ do
      (success, delivery, db) ← deliver_webhook one post now delivery db
      ok (
        if success
            then returned delivery.attempt_count delivery.status_code
            else raised delivery.status_code,
        db,
      )
  ]
