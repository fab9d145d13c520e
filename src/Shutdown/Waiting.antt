-- ===== src/Shutdown/Waiting.antt =====
-- The loop of `wait_for_active_requests` in app/core/graceful_shutdown.py: it ends, in time, and how.
use python_fastapi_multiauth.Common.{
  ℕ, ◌≤◌, ◌<◌, ◌≡◌, ◌+◌, ◌*◌, zero, suc, Option, none, some, Bool-cases, ◌==◌, leb, inl, inr, arith,
}
use Prim.Native.Nat.{◌-◌}
use python_fastapi_multiauth.Shutdown.Handler.{
  Handler, Reading, Waited, no_requests, completed, timed_out, second, wait_loop,
  wait_for_active_requests,
}

-- `asyncio.sleep(1)` returns after a second or later.
abbrev pub Sleeps : (start : ℕ) → (ℕ → Reading) → Type 0
Sleeps start reading =
    (start ≤ (reading 0).time)
    × ((test : ℕ) → (reading test).time + second ≤ (reading (suc test)).time)

-- Requests were active at all tests from one on up to another.
abbrev pub Busy : (ℕ → Reading) → (from upto : ℕ) → Type 0
Busy reading from upto = (test : ℕ) → from ≤ test → test < upto → 0 < (reading test).active_requests

-- The loop that began at the test `from` ended.
abbrev pub Ended : (timeout start : ℕ) → (ℕ → Reading) → (from : ℕ) → Option Waited → Type 0
Ended timeout start reading from none = ⊥
Ended timeout start reading from (some no_requests) = ⊥
Ended timeout start reading from (some (completed test)) =
    (test ≤ timeout) × ((reading test).active_requests ≡ 0) × Busy reading from test
Ended timeout start reading from (some (timed_out test)) =
    (test ≤ timeout)
    × (timeout * second ≤ (reading test).time - start)
    × Busy reading from (test + 1)

first-Busy :
    (reading : ℕ → Reading) (from upto : ℕ)
    → 0 < (reading from).active_requests
    → Busy reading (from + 1) upto
    → Busy reading from upto
first-Busy reading from upto active busy test low high = grind (arith, busy test)

-- One more busy test in front.
busy-Ended :
    (timeout start : ℕ) (reading : ℕ → Reading) (from : ℕ) (w : Option Waited)
    → 0 < (reading from).active_requests
    → Ended timeout start reading (from + 1) w
    → Ended timeout start reading from w
busy-Ended timeout start reading from none active ended = ended
busy-Ended timeout start reading from (some no_requests) active ended = ended
busy-Ended timeout start reading from (some (completed test)) active (bound, idle, busy) =
    (bound, idle, first-Busy reading from test active busy)
busy-Ended timeout start reading from (some (timed_out test)) active (bound, late, busy) =
    (bound, late, first-Busy reading from (test + 1) active busy)

module _ (timeout start : ℕ) (reading : ℕ → Reading) (sleeps : Sleeps start reading) where
  elapsed : (test : ℕ) → start + test * second ≤ (reading test).time
  elapsed zero = ground (arith, sleeps.0)
  elapsed (suc test) = omega (arith, elapsed test, sleeps.1 test)

  loop-Ended :
      (fuel from : ℕ)
      → timeout < fuel + from
      → from ≤ timeout
      → Ended timeout start reading from (wait_loop fuel timeout start reading from)
  unfolding wait_loop
  loop-Ended zero from h k = omega arith
  loop-Ended (suc fuel) from h k =
      let late = elapsed from in
      elim (Bool-cases ((reading from).active_requests == 0)) [
        | inl idle ↦ rw idle (k, ground arith, λ test low high. omega arith)
        | inr busy ↦ elim (Bool-cases (leb (timeout * second) ((reading from).time - start))) [
          | inl over ↦
              rw (busy, over)
                (
                  k,
                  ground arith,
                  first-Busy reading from (from + 1) (ground arith) (λ test low high. omega arith),
                )
          | inr early ↦
              rw (busy, early)
                (busy-Ended timeout start reading from _ (ground arith)
                  (loop-Ended fuel (from + 1) (omega arith) (ground arith)))
        ]
      ]

-- The answer of the whole call.
abbrev pub WaitEnds : (start : ℕ) → (ℕ → Reading) → Handler → Option Waited → Type 0
WaitEnds start reading h (some no_requests) = h.active_requests ≡ 0
WaitEnds start reading h w = (0 < h.active_requests) × Ended h.timeout start reading 0 w

loop-WaitEnds :
    (start : ℕ) (reading : ℕ → Reading) (h : Handler) (w : Option Waited)
    → 0 < h.active_requests
    → Ended h.timeout start reading 0 w
    → WaitEnds start reading h w
loop-WaitEnds start reading h none active ended = (active, ended)
loop-WaitEnds start reading h (some no_requests) active ended = absurd ended
loop-WaitEnds start reading h (some (completed test)) active ended = (active, ended)
loop-WaitEnds start reading h (some (timed_out test)) active ended = (active, ended)

-- If each sleep takes at least its second, then the wait for the active requests ends after at most
-- `timeout + 1` tests of its loop: at once if no request is active; or at the first test that reads no
-- active request; or, with requests active at all tests up to then, at a test by which `timeout`
-- seconds have passed.
pub wait_ends :
    (start : ℕ) (reading : ℕ → Reading) (h : Handler)
    → Sleeps start reading
    → WaitEnds start reading h (wait_for_active_requests (h.timeout + 1) start reading h)
unfolding wait_for_active_requests
wait_ends start reading h sleeps =
    let ended =
      loop-Ended h.timeout start reading sleeps (h.timeout + 1) 0 (omega arith) (omega arith) in
    elim (Bool-cases (h.active_requests == 0)) [
      | inl idle ↦ rw idle (ground arith)
      | inr busy ↦ rw busy (loop-WaitEnds start reading h _ (ground arith) ended)
    ]

-- The wait ended with the requests done, at that test of the loop or before.
abbrev pub Drained : (upto : ℕ) → Option Waited → Type 0
Drained upto none = ⊥
Drained upto (some no_requests) = Unit
Drained upto (some (completed test)) = test ≤ upto
Drained upto (some (timed_out test)) = ⊥

loop-Drained :
    (timeout start : ℕ) (reading : ℕ → Reading) (idle : ℕ) (w : Option Waited)
    → (reading idle).active_requests ≡ 0
    → ((test : ℕ) → test ≤ idle → (reading test).time - start < timeout * second)
    → Ended timeout start reading 0 w
    → Drained idle w
loop-Drained timeout start reading idle none done early ended = ended
loop-Drained timeout start reading idle (some no_requests) done early ended = tt
loop-Drained timeout start reading idle (some (completed test)) done early (bound, now, busy) =
    grind (arith, busy idle)
loop-Drained timeout start reading idle (some (timed_out test)) done early (bound, late, busy) =
    grind (arith, busy idle, early test)

-- If each sleep takes at least its second, some test of the loop would read no active request, and less
-- than `timeout` seconds have passed at all tests up to that one, then the wait ends with the requests
-- done, at that test or before: it does not time out.
pub wait_drains :
    (start : ℕ) (reading : ℕ → Reading) (h : Handler) (idle : ℕ)
    → Sleeps start reading
    → (reading idle).active_requests ≡ 0
    → ((test : ℕ) → test ≤ idle → (reading test).time - start < h.timeout * second)
    → Drained idle (wait_for_active_requests (h.timeout + 1) start reading h)
unfolding wait_for_active_requests
wait_drains start reading h idle sleeps done early =
    let ended =
      loop-Ended h.timeout start reading sleeps (h.timeout + 1) 0 (omega arith) (omega arith) in
    elim (Bool-cases (h.active_requests == 0)) [
      | inl none_active ↦ rw none_active tt
      | inr busy ↦ rw busy (loop-Drained h.timeout start reading idle _ done early ended)
    ]
