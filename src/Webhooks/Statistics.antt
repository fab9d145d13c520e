-- ===== src/Webhooks/Statistics.antt =====
-- The counters of a webhook (app/services/webhook.py).
use python_fastapi_multiauth.Common.{
  ℕ, ◌≡◌, ◌+◌, Bool, Option, List, [], ◌∷◌, Result, ok, err, OneOrNone,
}
use python_fastapi_multiauth.Webhooks.Model.{Webhook, WebhookDelivery, Updates, Db, Posted}
use python_fastapi_multiauth.Webhooks.Service.{
  trigger_event, create_webhook, update_webhook, delete_webhook, deliver_webhook,
}

abbrev pub IsBalanced : Webhook → Type 0
IsBalanced w = w.total_deliveries ≡ w.successful_deliveries + w.failed_deliveries

abbrev pub AllBalanced : List Webhook → Type 0
AllBalanced [] = Unit
AllBalanced (w ∷ ws) = IsBalanced w × AllBalanced ws

-- The tables that a call leaves.
abbrev pub BalancedIn : {A : Type 0} → (A → Db) → Result A → Type 0
BalancedIn tables (ok a) = AllBalanced (tables a).webhooks
BalancedIn tables (err e) = Unit

-- The calls that change the webhooks, with what they answered.
pub data Step (one : OneOrNone) : Db → Db → Type 0 where
  created :
      (known_event : ℕ → Bool) (new_id org url : ℕ) (events : List ℕ) (description : Option ℕ)
      (w : Webhook) (db db' : Db)
      → create_webhook known_event new_id org url events description db ≡ ok (w, db')
      → Step one db db'
  updated :
      (known_event : ℕ → Bool) (id : ℕ) (updates : Updates) (w : Webhook) (db db' : Db)
      → update_webhook one known_event id updates db ≡ ok (w, db')
      → Step one db db'
  deleted : (id : ℕ) (db db' : Db) → delete_webhook one id db ≡ ok db' → Step one db db'
  triggered :
      (new_id : ℕ → ℕ) (org event_type event_data : ℕ) (db : Db)
      → Step one db (trigger_event new_id org event_type event_data db).1
  delivered :
      (post : Webhook → WebhookDelivery → Posted) (now : ℕ) (d d' : WebhookDelivery) (b : Bool)
      (db db' : Db)
      → deliver_webhook one post now d db ≡ ok (b, d', db')
      → Step one db db'

pub data Steps (one : OneOrNone) (start : Db) : Db → Type 0 where
  stop : Steps one start start
  next : {s t : Db} → Steps one start s → Step one s t → Steps one start t
