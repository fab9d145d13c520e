-- ===== src/Shutdown/Handler.antt =====
-- app/core/graceful_shutdown.py and app/middleware/graceful_shutdown.py. The clock of the event loop counts
-- microseconds. What other tasks do while `asyncio.sleep(1)` waits is a parameter: the count of requests
-- and the clock that each test of the loop reads.
use python_fastapi_multiauth.Common.{
  ℕ, ◌+◌, ◌*◌, zero, suc, Bool, true, false, Option, none, some, List, [], ◌∷◌, ◌++◌, if◌then◌else◌,
  ◌==◌, leb,
}
use Prim.Native.Nat.{◌-◌}

-- `_cleanup_callbacks` holds the numbers of the callbacks.
pub record Handler : Type 0 where
  pub timeout : ℕ
  pub is_shutting_down : Bool
  pub active_requests : ℕ
  pub shutdown_event : Bool
  pub cleanup_callbacks : List ℕ

unfoldable pub init : (timeout : ℕ) → Handler
init timeout = record {
  timeout = timeout;
  is_shutting_down = false;
  active_requests = 0;
  shutdown_event = false;
  cleanup_callbacks = [];
}

unfoldable pub add_cleanup_callback : ℕ → Handler → Handler
add_cleanup_callback callback h = record h {
  cleanup_callbacks = h.cleanup_callbacks ++ callback ∷ [];
}

unfoldable pub trigger_shutdown : Handler → Handler
trigger_shutdown h =
    if h.is_shutting_down then h else record h { is_shutting_down = true; shutdown_event = true }

-- `dispatch` up to `call_next`: the handler with one more active request, or the 503 response.
unfoldable pub begin_request : Handler → Option Handler
begin_request h =
    if h.is_shutting_down then none else some (record h { active_requests = h.active_requests + 1 })

-- The `finally` of `dispatch`. Only a request that was begun comes here.
unfoldable pub finish_request : Handler → Handler
finish_request h = record h { active_requests = h.active_requests - 1 }

-- What a test of the loop reads.
pub record Reading : Type 0 where
  pub active_requests : ℕ
  pub time : ℕ

-- How the wait ends: without a request at the start, or at the loop's test of that number.
pub data Waited : Type 0 where
  no_requests : Waited
  completed timed_out : (test : ℕ) → Waited

abbrev pub second : ℕ
second = 1000000

-- The loop from the given test on. Without fuel it has not ended.
unfoldable pub wait_loop : (fuel timeout start : ℕ) → (ℕ → Reading) → (test : ℕ) → Option Waited
wait_loop zero timeout start reading test = none
wait_loop (suc fuel) timeout start reading test =
    let rest = wait_loop fuel timeout start reading (test + 1) in
    let r = reading test in
    if r.active_requests == 0
    then some (completed test)
    else if leb (timeout * second) (r.time - start)
    then some (timed_out test)
    else rest

unfoldable pub wait_for_active_requests : (fuel start : ℕ) → (ℕ → Reading) → Handler → Option Waited
unfolding wait_loop
wait_for_active_requests fuel start reading h =
    if h.active_requests == 0 then some no_requests else wait_loop fuel h.timeout start reading 0

-- The callbacks in their order, each with whether it raised: what it raises is logged only.
unfoldable pub run_cleanup_callbacks : (raises : ℕ → Bool) → Handler → List (ℕ × Bool)
run_cleanup_callbacks raises h = run_each h.cleanup_callbacks
  where
    run_each : List ℕ → List (ℕ × Bool)
    run_each [] = []
    run_each (callback ∷ rest) = (callback, raises callback) ∷ run_each rest
