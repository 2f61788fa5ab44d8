-- ===== src/Worker/Tests/Session.antt =====
-- The locked session of a reconciliation pass, on runs at fixed answers of Postgres.
use bookipi_technical_test.Prelude.{
  ℕ, ◌≡◌, ◌↔◌, refl, true, false, some, [], ◌∷◌, ok, throw, lifecycle_abort, aggregate_error,
}
use bookipi_technical_test.Worker.Lock.{
  busy, acquired, aborted_in_delay, unlocked, not_unlocked, locked, worked, unlock_asked,
  client_released, with_session_reconciliation_lock, poll_lock, is_ok, is_acquired, expected_events,
  whole_session, session_lem,
}

-- The lock is held elsewhere once, then acquired, and released after the work.
session_lem_example :
    (whole_session ≡ expected_events (is_acquired (busy ∷ acquired ∷ [])) false)
    × ((is_ok {A = ℕ} (ok 7) ≡ true) ↔ (
        (whole_session ≡ whole_session)
        × (is_ok {A = ℕ} (ok 7) ≡ true)
        × (unlocked ≡ unlocked)
        × (true ≡ true)))
unfolding with_session_reconciliation_lock poll_lock
session_lem_example =
    session_lem {A = ℕ} (busy ∷ acquired ∷ []) false (ok 7) (ok 7) unlocked true whole_session refl

-- An unlock that Postgres denies turns a success into an error.
denied_unlock :
    with_session_reconciliation_lock {A = ℕ} (acquired ∷ []) false (ok 7) not_unlocked true
    ≡ some (throw aggregate_error, locked ∷ worked ∷ unlock_asked ∷ client_released ∷ [])
unfolding with_session_reconciliation_lock poll_lock
denied_unlock = refl

-- A signal in the delay ends the session before the lock is asked for again.
aborted_poll :
    with_session_reconciliation_lock {A = ℕ}
      (busy ∷ aborted_in_delay ∷ [])
      false
      (ok 7)
      unlocked
      true
    ≡ some (throw lifecycle_abort, client_released ∷ [])
unfolding with_session_reconciliation_lock poll_lock
aborted_poll = refl
