-- ===== src/Shutdown/InFlight.antt =====
-- The requests between the two halves of `dispatch` in app/middleware/graceful_shutdown.py.
use python_fastapi_multiauth.Common.{ℕ, ◌≤◌, ◌≡◌, ◌+◌, true, none, some}
use python_fastapi_multiauth.Shutdown.Handler.{
  Handler, init, trigger_shutdown, begin_request, finish_request,
}

-- The handler, the requests that were begun and not finished, and those that were answered with 503.
pub record Server : Type 0 where
  pub handler : Handler
  pub in_flight : ℕ
  pub rejected : ℕ

-- What may happen next. A request finishes only if one is in flight, by its answer or by an exception.
pub data Step : Server → Server → Type 0 where
  accepted :
      (s : Server) (h : Handler)
      → begin_request s.handler ≡ some h
      → Step s (record s { handler = h; in_flight = s.in_flight + 1 })
  refused :
      (s : Server)
      → begin_request s.handler ≡ none
      → Step s (record s { rejected = s.rejected + 1 })
  finished :
      (s : Server) (n : ℕ)
      → s.in_flight ≡ n + 1
      → Step s (record s { handler = finish_request s.handler; in_flight = n })
  signalled : (s : Server) → Step s (record s { handler = trigger_shutdown s.handler })

pub data Steps (start : Server) : Server → Type 0 where
  stop : Steps start start
  next : {s t : Server} → Steps start s → Step s t → Steps start t

-- The count is the number of requests in flight, and the event is set exactly after the signal.
abbrev pub Counts : Server → Type 0
Counts s =
    (s.handler.active_requests ≡ s.in_flight)
    × (s.handler.shutdown_event ≡ s.handler.is_shutting_down)

-- After the signal no request comes in.
abbrev pub Closes : Server → Server → Type 0
Closes s t =
    s.handler.is_shutting_down ≡ true
    → (t.handler.is_shutting_down ≡ true) × (t.in_flight ≤ s.in_flight)

abbrev pub started : (timeout : ℕ) → Server
unfolding init
started timeout = record { handler = init timeout; in_flight = 0; rejected = 0 }
