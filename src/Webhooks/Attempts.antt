-- ===== src/Webhooks/Attempts.antt =====
-- Attempts to deliver a webhook and their retries (app/services/webhook.py, app/tasks/webhook.py).
use python_fastapi_multiauth.Common.{
  ℕ, ◌≡◌, ◌≤◌, ◌<◌, refl, ◌∙◌, ◌+◌, ◌*◌, true, some, [], ◌∷◌, ==_refl, inl, inr, ◌⊎◌, ok, only_row,
  select, select-save, Distinct, Distinct-save, has_key, arith, Bool-cases, ltb,
}
use python_fastapi_multiauth.Webhooks.Model.{
  Webhook, WebhookDelivery, success, failed, retrying, Db, Posted, responds, raises, webhook_key,
}
use python_fastapi_multiauth.Webhooks.Service.{
  is_2xx, is_success, retry_delay, schedule_retry, attempted, counted, save_webhook, save_delivery,
  get_webhook, deliver_webhook,
}

-- The webhook is active and the one row of that id, in a table whose ids are unique.
pub record Active (id : ℕ) (w : Webhook) (db : Db) : Type 0 where
  pub active : w.is_active ≡ true
  pub same_id : w.id ≡ id
  pub distinct : Distinct webhook_key db.webhooks
  pub found : select (has_key webhook_key id) db.webhooks ≡ w ∷ []

counted_columns :
    (now : ℕ) (posted : Posted) (w : Webhook)
    → ((counted now posted w).id ≡ w.id) × ((counted now posted w).is_active ≡ w.is_active)
unfolding counted
counted_columns now posted w = ground arith

pub counted-Active :
    (id now : ℕ) (posted : Posted) (w : Webhook) (d : WebhookDelivery) (db : Db)
    → Active id w db
    → Active id (counted now posted w) (save_delivery d (save_webhook (counted now posted w) db))
unfolding save_webhook save_delivery
counted-Active id now posted w d db a =
    let (kept, still) = counted_columns now posted w in
    let w' = counted now posted w in
    record {
      active = still ∙ a.active;
      same_id = kept ∙ a.same_id;
      distinct = Distinct-save webhook_key w' db.webhooks a.distinct;
      found =
          select-save webhook_key (has_key webhook_key id) w w' db.webhooks a.distinct a.found kept
            (rw (kept, a.same_id) (==_refl id));
    }

-- What one attempt does, on each of its branches.
abbrev pub Tried : (now : ℕ) → Posted → (d d' : WebhookDelivery) → Type 0
Tried now posted d d' =
    (d'.attempt_count ≡ d.attempt_count + 1)
    × (d'.max_attempts ≡ d.max_attempts)
    × (d'.webhook_id ≡ d.webhook_id)
    × (((d'.status ≡ success) × ((code : ℕ) × (posted ≡ responds code) × (is_2xx code ≡ true)))
        ⊎ ((d'.status ≡ retrying)
            × (d.attempt_count + 1 < d.max_attempts)
            × (d'.next_retry_at ≡ some (now + retry_delay (d.attempt_count + 1) * 1000000)))
        ⊎ ((d'.status ≡ failed) × (d.max_attempts ≤ d.attempt_count + 1)))

pub scheduled :
    (now : ℕ) (posted : Posted) (d tried : WebhookDelivery)
    → tried.status ≡ failed
    → tried.attempt_count ≡ d.attempt_count + 1
    → tried.max_attempts ≡ d.max_attempts
    → tried.webhook_id ≡ d.webhook_id
    → Tried now posted d (schedule_retry now tried)
unfolding schedule_retry
scheduled now posted d tried is_failed one_more same_max same_webhook =
    elim (Bool-cases (ltb tried.attempt_count tried.max_attempts)) [
      | inl left ↦
          rw left
            (one_more, same_max, same_webhook, inr (inl (refl, ground arith, rw one_more refl)))
      | inr over ↦ rw over (one_more, same_max, same_webhook, inr (inr (is_failed, ground arith)))
    ]

pub attempt :
    (now : ℕ) (posted : Posted) (d : WebhookDelivery) → Tried now posted d (attempted now posted d)
unfolding attempted
attempt now (responds code) d = elim (Bool-cases (is_2xx code)) [
  | inl good ↦ rw good (refl, refl, refl, inl (refl, (code, refl, good)))
  | inr bad ↦ rw bad (scheduled now (responds code) d _ refl refl refl refl)
]
attempt now raises d = scheduled now raises d _ refl refl refl refl

pub eq-attempted :
    (post : Webhook → WebhookDelivery → Posted) (now : ℕ) (d : WebhookDelivery) (w : Webhook)
    (db : Db)
    → Active d.webhook_id w db
    → let d' = attempted now (post w d) d in
      deliver_webhook only_row post now d db
      ≡ ok (is_success d'.status, d', save_delivery d' (save_webhook (counted now (post w d) w) db))
unfolding deliver_webhook get_webhook
eq-attempted post now d w db a = rw (a.found, a.active)
