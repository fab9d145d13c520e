-- ===== src/Shutdown/Tests.antt =====
-- Runs of the shutdown.
use python_fastapi_multiauth.Common.{
  ℕ, ◌≡◌, refl, ◌+◌, ◌*◌, true, false, some, [], ◌∷◌, arith, if◌then◌else◌, ltb,
}
use python_fastapi_multiauth.Shutdown.Handler.{
  Handler, init, Reading, completed, second, trigger_shutdown, begin_request,
  wait_for_active_requests, run_cleanup_callbacks, add_cleanup_callback,
}
use python_fastapi_multiauth.Shutdown.Waiting.{Sleeps, WaitEnds, Drained, wait_ends, wait_drains}
use python_fastapi_multiauth.Shutdown.InFlight.{
  Server, accepted, refused, signalled, Steps, stop, next, started,
}

-- Two requests, of which one ends in each second.
abbrev reading : ℕ → Reading
reading test = record { active_requests = if ltb test 2 then 1 else 0; time = 50 + test * second }

abbrev busy_handler : Handler
busy_handler = record {
  timeout = 30;
  is_shutting_down = true;
  active_requests = 2;
  shutdown_event = true;
  cleanup_callbacks = 4 ∷ 5 ∷ [];
}

reading-Sleeps : Sleeps 50 reading
reading-Sleeps = (omega arith, λ test. omega arith)

runs : wait_for_active_requests 31 50 reading busy_handler ≡ some (completed 2)
unfolding wait_for_active_requests
runs = refl

cleans_up :
    run_cleanup_callbacks (λ c. ltb c 5) (add_cleanup_callback 6 busy_handler)
    ≡ (4, true) ∷ (5, false) ∷ (6, false) ∷ []
unfolding run_cleanup_callbacks add_cleanup_callback
cleans_up = refl

wait_ends_example :
    WaitEnds 50 reading busy_handler (wait_for_active_requests 31 50 reading busy_handler)
wait_ends_example = wait_ends 50 reading busy_handler reading-Sleeps

wait_drains_example : Drained 2 (wait_for_active_requests 31 50 reading busy_handler)
wait_drains_example =
    wait_drains 50 reading busy_handler 2 reading-Sleeps refl (λ test low. omega arith)

abbrev one_request : Server
unfolding begin_request
one_request = record {
  handler = record (init 30) { active_requests = 1 };
  in_flight = 1;
  rejected = 0;
}

abbrev closing : Server
closing = record one_request { handler = trigger_shutdown one_request.handler }

abbrev to_closing : Steps (started 30) closing
unfolding begin_request init
to_closing =
    next (next stop (accepted (started 30) one_request.handler refl)) (signalled one_request)

abbrev after_closing : Steps closing (record closing { rejected = 1 })
unfolding begin_request trigger_shutdown init
after_closing = next stop (refused closing refl)
