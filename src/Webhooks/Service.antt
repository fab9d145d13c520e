-- ===== src/Webhooks/Service.antt =====
-- app/services/webhook.py and app/tasks/webhook.py. One call reads one clock. `known_event` is the test
-- on AVAILABLE_EVENTS. The POST of the httpx package is a parameter: it gives a response or raises.
use python_fastapi_multiauth.Common.{
  ℕ, ◌+◌, ◌*◌, zero, suc, Bool, true, false, Option, none, some, List, [], ◌∷◌, ◌++◌, if◌then◌else◌,
  ◌==◌, leb, ltb, ◌&&◌, not, Result, ok, err, value_error, ◌>>=◌, OneOrNone, select, save,
  delete_where, has_key, exists, map,
}
use python_fastapi_multiauth.Webhooks.Model.{
  Db, Posted, Status, Updates, Webhook, WebhookDelivery, delivery_key, failed, http_status,
  not_found_or_inactive, pending, post_raised, raises, responds, retrying, success, value_or,
  webhook_key,
}

unfoldable pub save_webhook : Webhook → Db → Db
save_webhook w db = record db { webhooks = save webhook_key w db.webhooks }

unfoldable pub save_delivery : WebhookDelivery → Db → Db
save_delivery d db = record db { deliveries = save delivery_key d db.deliveries }

-- "Validate events"
unfoldable pub invalid_events : (ℕ → Bool) → List ℕ → List ℕ
invalid_events known_event events = select (λ e. not (known_event e)) events

unfoldable pub create_webhook :
    (known_event : ℕ → Bool)
    → (new_id org url : ℕ) → List ℕ
    → (description : Option ℕ) → Db
    → Result (Webhook × Db)
unfolding invalid_events
create_webhook known_event new_id org url events description db =
    let w : Webhook = record {
      id = new_id;
      organization_id = org;
      url = url;
      events = events;
      description = description;
      is_active = true;
      total_deliveries = 0;
      successful_deliveries = 0;
      failed_deliveries = 0;
      last_delivery_at = none;
      last_success_at = none;
      last_failure_at = none;
    } in
    elim (invalid_events known_event events) [
      | [] ↦ ok (w, record db { webhooks = db.webhooks ++ w ∷ [] })
      | e ∷ rest ↦ err (value_error "Invalid events: ")
    ]

unfoldable pub create_delivery :
    (new_id webhook event_type event_data : ℕ) → Db → WebhookDelivery × Db
create_delivery new_id webhook event_type event_data db =
    let d : WebhookDelivery = record {
      id = new_id;
      webhook_id = webhook;
      event_type = event_type;
      event_data = event_data;
      status = pending;
      status_code = none;
      error_message = none;
      attempt_count = 0;
      max_attempts = 3;
      next_retry_at = none;
      delivered_at = none;
    } in
    (d, record db { deliveries = db.deliveries ++ d ∷ [] })

-- `retry_delays[min(attempt_count - 1, len(retry_delays) - 1)]` after the count's increment, in seconds.
unfoldable pub retry_delay : (attempt_count : ℕ) → ℕ
retry_delay zero = 7200
retry_delay (suc zero) = 300
retry_delay (suc (suc zero)) = 1800
retry_delay (suc (suc (suc n))) = 7200

-- "Schedule retry"
unfoldable pub schedule_retry : (now : ℕ) → WebhookDelivery → WebhookDelivery
unfolding retry_delay
schedule_retry now d =
    if ltb d.attempt_count d.max_attempts
    then record d {
      status = retrying;
      next_retry_at = some (now + retry_delay d.attempt_count * 1000000);
    }
    else d

abbrev pub is_2xx : ℕ → Bool
is_2xx code = leb 200 code && ltb code 300

-- What an attempt leaves of the delivery.
unfoldable pub attempted : (now : ℕ) → Posted → WebhookDelivery → WebhookDelivery
unfolding schedule_retry
attempted now (responds code) d =
    let tried = record d {
      status_code = some code;
      attempt_count = d.attempt_count + 1;
      delivered_at = some now;
    } in
    if is_2xx code
    then record tried { status = success }
    else schedule_retry now
        (record tried { status = failed; error_message = some (http_status code) })
attempted now raises d = schedule_retry now (record d {
  status = failed;
  error_message = some post_raised;
  attempt_count = d.attempt_count + 1;
  delivered_at = some now;
})

abbrev pub is_success : Status → Bool
is_success success = true
is_success pending = false
is_success failed = false
is_success retrying = false

-- What it leaves of the webhook's statistics.
unfoldable pub counted : (now : ℕ) → Posted → Webhook → Webhook
counted now posted w =
    let delivered : Bool = elim posted [ responds code ↦ is_2xx code | raises ↦ false ] in
    let all = record w { total_deliveries = w.total_deliveries + 1; last_delivery_at = some now } in
    if delivered
    then record all {
      successful_deliveries = w.successful_deliveries + 1;
      last_success_at = some now;
    }
    else record all { failed_deliveries = w.failed_deliveries + 1; last_failure_at = some now }

module _ (one : OneOrNone) where
  unfoldable pub get_webhook : ℕ → Db → Result (Option Webhook)
  get_webhook webhook db = one Webhook (select (has_key webhook_key webhook) db.webhooks)

  unfoldable pub update_webhook :
      (known_event : ℕ → Bool) → ℕ → Updates → Db → Result (Webhook × Db)
  unfolding get_webhook invalid_events save_webhook
  update_webhook known_event webhook updates db = do
    found ← get_webhook webhook db
    elim found [
      | none ↦ err (value_error "Webhook not found")
      | some w ↦
          let w' = record w {
            url = value_or w.url updates.url;
            events = value_or w.events updates.events;
            description = elim updates.description [ none ↦ w.description | some text ↦ some text ];
            is_active = value_or w.is_active updates.is_active;
          } in
          elim (invalid_events known_event (value_or [] updates.events)) [
            | [] ↦ ok (w', save_webhook w' db)
            | e ∷ rest ↦ err (value_error "Invalid events: ")
          ]
    ]

  -- `cascade`: the webhook's deliveries go with it.
  unfoldable pub delete_webhook : ℕ → Db → Result Db
  unfolding get_webhook
  delete_webhook webhook db = do
    found ← get_webhook webhook db
    ok (elim found [
      | none ↦ db
      | some w ↦ record {
        webhooks = delete_where (has_key webhook_key w.id) db.webhooks;
        deliveries = delete_where (λ d. d.webhook_id == w.id) db.deliveries;
      }
    ])

  unfoldable pub deliver_webhook :
      (post : Webhook → WebhookDelivery → Posted)
      → (now : ℕ) → WebhookDelivery
      → Db
      → Result (Bool × WebhookDelivery × Db)
  unfolding get_webhook save_delivery save_webhook attempted counted
  deliver_webhook post now d db = do
    found ← get_webhook d.webhook_id db
    let refused = record d { status = failed; error_message = some not_found_or_inactive }
    elim found [
      | none ↦ ok (false, refused, save_delivery refused db)
      | some w ↦
          let posted = post w d in
          let d' = attempted now posted d in
          if w.is_active
          then ok
              (is_success d'.status, d', save_delivery d' (save_webhook (counted now posted w) db))
          else ok (false, refused, save_delivery refused db)
    ]

-- The active webhooks of the organisation that subscribe to the event.
abbrev pub subscribes : (org event_type : ℕ) → Webhook → Bool
subscribes org event_type w =
    w.organization_id == org && w.is_active && exists (λ e. e == event_type) w.events

-- `create_delivery` for each of them, with the next of the new ids.
unfoldable pub deliver_each :
    (new_id : ℕ → ℕ) → (event_type event_data : ℕ) → List Webhook → Db → List WebhookDelivery × Db
unfolding create_delivery
deliver_each new_id event_type event_data [] db = ([], db)
deliver_each new_id event_type event_data (w ∷ rest) db =
    let (d, db) = create_delivery (new_id w.id) w.id event_type event_data db in
    let (ds, db) = deliver_each new_id event_type event_data rest db in (d ∷ ds, db)

unfoldable pub trigger_event :
    (new_id : ℕ → ℕ) → (org event_type event_data : ℕ) → Db → List WebhookDelivery × Db
unfolding deliver_each
trigger_event new_id org event_type event_data db =
    deliver_each new_id event_type event_data (select (subscribes org event_type) db.webhooks) db

abbrev pub is_retrying : Status → Bool
is_retrying retrying = true
is_retrying pending = false
is_retrying success = false
is_retrying failed = false

abbrev pub is_due : (now : ℕ) → Option ℕ → Bool
is_due now none = false
is_due now (some at) = leb at now

-- The deliveries that `retry_failed_webhooks_task` hands to the delivery task.
unfoldable pub retry_failed_webhooks : (now : ℕ) → Db → List ℕ
retry_failed_webhooks now db =
    map delivery_key
      (select (λ d. is_retrying d.status && is_due now d.next_retry_at) db.deliveries)
