-- ===== src/Webhooks/Model.antt =====
-- app/models/webhook.py and the arguments of app/services/webhook.py, without the response's body and the
-- secret that signs the payload. Texts are numbers, times are microseconds.
use python_fastapi_multiauth.Common.{ℕ, Bool, Option, none, some, List}

pub record Webhook : Type 0 where
  pub id : ℕ
  pub organization_id : ℕ
  pub url : ℕ
  pub events : List ℕ
  pub description : Option ℕ
  pub is_active : Bool
  pub total_deliveries : ℕ
  pub successful_deliveries : ℕ
  pub failed_deliveries : ℕ
  pub last_delivery_at : Option ℕ
  pub last_success_at : Option ℕ
  pub last_failure_at : Option ℕ

pub data Status : Type 0 where
  pending success failed retrying : Status

-- `error_message`: no webhook, the status code of a response, or the text of an exception.
pub data Message : Type 0 where
  not_found_or_inactive post_raised : Message
  http_status : ℕ → Message

pub record WebhookDelivery : Type 0 where
  pub id : ℕ
  pub webhook_id : ℕ
  pub event_type : ℕ
  pub event_data : ℕ
  pub status : Status
  pub status_code : Option ℕ
  pub error_message : Option Message
  pub attempt_count : ℕ
  pub max_attempts : ℕ
  pub next_retry_at : Option ℕ
  pub delivered_at : Option ℕ

pub record Db : Type 0 where
  pub webhooks : List Webhook
  pub deliveries : List WebhookDelivery

-- The keyword arguments that the endpoint gives to `update_webhook`; None changes nothing.
pub record Updates : Type 0 where
  pub url : Option ℕ
  pub events : Option (List ℕ)
  pub description : Option ℕ
  pub is_active : Option Bool

pub data Posted : Type 0 where
  responds : (status_code : ℕ) → Posted
  raises : Posted

abbrev pub webhook_key : Webhook → ℕ
webhook_key w = w.id

abbrev pub delivery_key : WebhookDelivery → ℕ
delivery_key d = d.id

abbrev pub value_or : {A : Type 0} → A → Option A → A
value_or old none = old
value_or old (some new) = new
