-- ===== src/Webhooks/Retries.antt =====
-- The delivery task of app/tasks/webhook.py and the periodic task that retries, after
-- `deliver_webhook` of app/services/webhook.py.
use python_fastapi_multiauth.Common.{
  ℕ, ◌≡◌, ◌≤◌, ◌<◌, ◌+◌, ◌*◌, Bool, false, exists, ◌==◌, leb, ◌&&◌, inl, inr, ◌⊎◌, ok, OneOrNone,
  IsOneOrNone, eq-only_row, arith,
}
use python_fastapi_multiauth.Webhooks.Model.{
  Webhook, WebhookDelivery, success, failed, retrying, Db, Posted, responds, raises,
}
use python_fastapi_multiauth.Webhooks.Service.{
  is_2xx, is_success, is_retrying, is_due, retry_delay, attempted, counted, save_webhook,
  save_delivery, deliver_webhook, retry_failed_webhooks,
}
use python_fastapi_multiauth.Webhooks.Tasks.{Outcome, returned, raised}
use python_fastapi_multiauth.Webhooks.Attempts.{Active, attempt, eq-attempted}

-- The periodic task at that time hands the delivery to the delivery task.
abbrev pub picked : (at id : ℕ) → Db → Bool
picked at id db = exists (λ i. i == id) (retry_failed_webhooks at db)

abbrev to_retry : (at : ℕ) → WebhookDelivery → Bool
to_retry at d = is_retrying d.status && is_due at d.next_retry_at

-- What the delivery task leaves of a delivery: it succeeded, and is not retried; or it failed with
-- attempts left, and is retried from the end of the delay on; or it failed and none is left, and is not
-- retried.
abbrev pub Left : (now at : ℕ) → (d d' : WebhookDelivery) → Outcome → (is_picked : Bool) → Type 0
Left now at d d' outcome is_picked =
    ((d'.status ≡ success)
      × (outcome ≡ returned d'.attempt_count d'.status_code)
      × (is_picked ≡ false))
    ⊎ ((d'.status ≡ retrying)
        × (outcome ≡ raised d'.status_code)
        × (d'.attempt_count < d'.max_attempts)
        × (is_picked ≡ leb (now + retry_delay d'.attempt_count * 1000000) at))
    ⊎ ((d'.status ≡ failed)
        × (outcome ≡ raised d'.status_code)
        × (d'.max_attempts ≤ d'.attempt_count)
        × (is_picked ≡ false))

abbrev pub answers_2xx : Posted → Bool
answers_2xx (responds code) = is_2xx code
answers_2xx raises = false

-- If a webhook is active and the one row of its id, then a call delivers even a delivery that has no
-- attempt left or has succeeded: it counts one more attempt, so the count exceeds `max_attempts`, and it
-- returns whether the endpoint answered with a 2xx status.
delivered_again :
    (one : OneOrNone) (law : IsOneOrNone one) (post : Webhook → WebhookDelivery → Posted) (now : ℕ)
    (d : WebhookDelivery) (w : Webhook) (db : Db)
    → Active d.webhook_id w db
    → d.max_attempts ≤ d.attempt_count
    → (d' : WebhookDelivery) × (db' : Db) × (deliver_webhook one post now d db
        ≡ ok (is_success d'.status, d', db'))
      × (d'.attempt_count ≡ d.attempt_count + 1)
      × (d'.max_attempts < d'.attempt_count)
      × ((d'.status ≡ success) ⊎ (d'.status ≡ failed))
delivered_again one law post now d w db a none_left =
    let posted = post w d in
    let did = attempt now posted d in
    (
      attempted now posted d,
      save_delivery (attempted now posted d) (save_webhook (counted now posted w) db),
      rw (eq-only_row one law) (eq-attempted post now d w db a),
      did.0,
      omega (arith, did.0, did.1),
      elim did.3 [
        | inl (good, _) ↦ inl good
        | inr (inl (again, more, at)) ↦ absurd (omega arith)
        | inr (inr (bad, last)) ↦ inr bad
      ],
    )
