-- ===== src/Worker/Lock.antt =====
-- `withSessionReconciliationLock` of apps/worker/src/orders/order.repository.ts: the polls for the
-- advisory lock, the work under it, and the cleanup. What Postgres and the signal do at each point is an
-- argument. The client is one that the pool has given.
use bookipi_technical_test.Prelude.{
  ℕ, ◌+◌, ◌≡◌, ◌↔◌, refl, Bool, true, false, Option, none, some, List, [], ◌∷◌, ◌++◌, arith, ltb,
  if◌then◌else◌, Outcome, ok, throw, Thrown, lifecycle_abort, aggregate_error,
}

-- One round of the loop: the signal is aborted before the query or in the delay after it, the query
-- fails, the lock is held elsewhere, or it is acquired.
pub data Poll : Type 0 where
  aborted_before : Poll
  query_failed : Thrown → Poll
  busy aborted_in_delay acquired : Poll

-- The reply of `pg_advisory_unlock`.
pub data Unlock : Type 0 where
  unlocked not_unlocked unlock_failed : Unlock

-- What the session does to the outside, in order.
pub data LockEvent : Type 0 where
  locked worked unlock_asked client_released : LockEvent

-- The loop: `none` where it is still polling.
unfoldable pub poll_lock : List Poll → Option (Outcome (Unit {0}))
poll_lock [] = none
poll_lock (busy ∷ polls) = poll_lock polls
poll_lock (aborted_before ∷ polls) = some (throw lifecycle_abort)
poll_lock (aborted_in_delay ∷ polls) = some (throw lifecycle_abort)
poll_lock (query_failed e ∷ polls) = some (throw e)
poll_lock (acquired ∷ polls) = some (ok tt)

abbrev unlock_errors : Unlock → ℕ
unlock_errors unlocked = 0
unlock_errors _ = 1

abbrev release_errors : Bool → ℕ
release_errors true = 0
release_errors false = 1

-- The error of the work, the errors of the cleanup, or both in one.
abbrev pub session_result : {A : Type 0} → Outcome A → ℕ → Outcome A
session_result (ok a) errors = if ltb 0 errors then throw aggregate_error else ok a
session_result (throw e) errors = if ltb 0 errors then throw aggregate_error else throw e

-- The `finally`, after the lock was acquired or not.
abbrev pub cleanup :
    {A : Type 0} → Bool → Unlock → Bool → Outcome A × List LockEvent → Outcome A × List LockEvent
cleanup true reply released (primary, events) = (
  session_result primary (unlock_errors reply + release_errors released),
  events ++ (unlock_asked ∷ client_released ∷ []),
)
cleanup false reply released (primary, events) =
    (session_result primary (release_errors released), events ++ (client_released ∷ []))

-- The work, unless the signal was aborted while the lock was acquired.
abbrev pub run_work : {A : Type 0} → Bool → Outcome A → Outcome A × List LockEvent
run_work true work = (throw lifecycle_abort, locked ∷ [])
run_work false work = (work, locked ∷ worked ∷ [])

abbrev pub after_poll :
    {A : Type 0}
    → Bool
    → Outcome A
    → Unlock
    → Bool
    → Outcome (Unit {0})
    → Outcome A × List LockEvent
after_poll aborted work reply released (throw e) = cleanup false reply released (throw e, [])
after_poll aborted work reply released (ok _) = cleanup true reply released (run_work aborted work)

unfoldable pub with_session_reconciliation_lock :
    {A : Type 0}
    → List Poll
    → Bool
    → Outcome A
    → Unlock
    → Bool
    → Option (Outcome A × List LockEvent)
with_session_reconciliation_lock polls aborted work reply released = elim (poll_lock polls) [
  | none ↦ none
  | some got ↦ some (after_poll aborted work reply released got)
]

abbrev pub is_ok : {A : Type 0} → Outcome A → Bool
is_ok (ok a) = true
is_ok (throw e) = false

abbrev pub whole_session : List LockEvent
whole_session = locked ∷ worked ∷ unlock_asked ∷ client_released ∷ []

-- The lock was acquired at some poll: it was held elsewhere at all those before.
unfoldable pub is_acquired : List Poll → Bool
is_acquired [] = false
is_acquired (busy ∷ polls) = is_acquired polls
is_acquired (acquired ∷ polls) = true
is_acquired (_ ∷ polls) = false

poll_lock-is_acquired :
    (polls : List Poll) (got : Outcome (Unit {0}))
    → poll_lock polls ≡ some got
    → is_ok got ≡ is_acquired polls
unfolding poll_lock is_acquired
poll_lock-is_acquired [] got h = ground (arith, h)
poll_lock-is_acquired (busy ∷ polls) got h = poll_lock-is_acquired polls got h
poll_lock-is_acquired (aborted_before ∷ polls) got h = ground (arith, h)
poll_lock-is_acquired (aborted_in_delay ∷ polls) got h = ground (arith, h)
poll_lock-is_acquired (query_failed e ∷ polls) got h = ground (arith, h)
poll_lock-is_acquired (acquired ∷ polls) got h = ground (arith, h)

-- What a session does, by whether the lock was acquired and the signal aborted by then.
abbrev pub expected_events : Bool → Bool → List LockEvent
expected_events false aborted = client_released ∷ []
expected_events true true = locked ∷ unlock_asked ∷ client_released ∷ []
expected_events true false = whole_session

after_poll_lem :
    {A : Type 0} (aborted : Bool) (work : Outcome A) (reply : Unlock) (released : Bool)
    (got : Outcome (Unit {0}))
    → let (o, events) = after_poll aborted work reply released got in
      (events ≡ expected_events (is_ok got) aborted)
      × ((is_ok o ≡ true) ↔ (
          (events ≡ whole_session) × (is_ok work ≡ true) × (reply ≡ unlocked) × (released ≡ true)))
after_poll_lem aborted work reply released (ok _) = ground arith
after_poll_lem aborted work reply released (throw e) = ground arith

-- However the session ends, its client is released last. Where no poll acquired the lock nothing else was
-- done; where one did, the lock was asked to be released in the end, whatever became of the work, and the
-- work ran once, under the lock, unless the signal was aborted by then. And the session ends well exactly
-- when the work ran and ended well, Postgres released the lock, and the client was released.
pub session_lem :
    {A : Type 0} (polls : List Poll) (aborted : Bool) (work o : Outcome A) (reply : Unlock)
    (released : Bool) (events : List LockEvent)
    → with_session_reconciliation_lock polls aborted work reply released ≡ some (o, events)
    → (events ≡ expected_events (is_acquired polls) aborted)
      × ((is_ok o ≡ true) ↔ (
          (events ≡ whole_session) × (is_ok work ≡ true) × (reply ≡ unlocked) × (released ≡ true)))
unfolding with_session_reconciliation_lock
session_lem {A = A} polls aborted work o reply released events h = of_poll (poll_lock polls) refl h
  where
    of_poll :
        (x : Option (Outcome (Unit {0})))
        → poll_lock polls ≡ x
        → (elim x as (λ _. Option (Outcome A × List LockEvent)) [
          | none ↦ none
          | some got ↦ some (after_poll aborted work reply released got)
        ])
          ≡ some (o, events)
        → (events ≡ expected_events (is_acquired polls) aborted)
          × ((is_ok o ≡ true) ↔ (
              (events ≡ whole_session)
              × (is_ok work ≡ true)
              × (reply ≡ unlocked)
              × (released ≡ true)))
    of_poll none p h = absurd (ground (arith, h))
    of_poll (some got) p h = ground (
      arith,
      h,
      poll_lock-is_acquired polls got p,
      after_poll_lem aborted work reply released got,
    )
