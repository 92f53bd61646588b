-- ===== src/Tests/Handling.antt =====
-- Handlers with errors and timeouts, and the calls of a context.
use beast_router.Base.{ℕ, ◌≡◌, refl, Bool, true, false, [], ◌∷◌, arith, ◌⊎◌}
use beast_router.Base.Outcome.{Outcome, done}
use beast_router.Connection.{shutdown_both, Connection}
use beast_router.Timer.{expires_from_now, async_wait, cancel, expiry}
use beast_router.Session.{
  Impl, init_context, on_read, on_write, on_timer, on_handshake, recv_for, do_read, do_timer,
  do_eof, report_if, cancel_timer, run_task,
}
use beast_router.Session.Steps.{State, Step}
use beast_router.Session.Deadline.{UntimedReach, on_timer-deadline}
use beast_router.Session.Handlers.{error-cases}
use beast_router.Tests.Data.{boost, opened, some_router}

abbrev S : Type 0
S = Impl ℕ ℕ (Connection Bool) ℕ

abbrev session : (on_error : Bool) → S
session on_error = init_context boost opened some_router on_error

abbrev process : ℕ → S → Outcome S S
process m i = done i

abbrev silent : Bool
silent = false

-- 5 is an error that is neither the end of the stream nor an abort; the session has no error handler.
error-cases_example :
    ((silent ≡ true)
      × (k l : S) × (on_read boost process 5 8 (session silent) ≡ process 8 k)
      × (k.reports ≡ (5, "async_read/on_read") ∷ [])
      × (k.m_connection ≡ opened)
      × (on_write boost 5 false (session silent) ≡ done l)
      × (l.reports ≡ (5, "async_write/on_write") ∷ [])
      × (l.started ≡ [])
      × (l.m_queue ≡ [])
      × (l.m_connection ≡ opened))
    ⊎ ((silent ≡ false)
        × (on_read boost process 5 8 (session silent) ≡ on_read boost process 0 8 (session silent))
        × (on_write boost 5 false (session silent) ≡ on_write boost 0 false (session silent))
        × (on_handshake boost 5 (session silent) ≡ on_handshake boost 0 (session silent)))
unfolding init_context
error-cases_example = error-cases boost process 5 0 8 false (session silent) refl refl refl

abbrev before : State ℕ ℕ (Connection Bool) ℕ
before = record { impl = session true; completed = 0; sent = [] }

abbrev reading : S
reading = do_read boost (do_timer boost 5 (session true))

abbrev called : State ℕ ℕ (Connection Bool) ℕ
called = record { impl = reading; completed = 0; sent = [] }

-- The read has ended in time.
abbrev ended : State ℕ ℕ (Connection Bool) ℕ
ended = record { impl = cancel_timer boost reading; completed = 0; sent = [] }

ended-UntimedReach : UntimedReach boost true called ended
unfolding on_read
ended-UntimedReach = UntimedReach.then UntimedReach.here (Step.read 0 8 refl refl refl) tt

-- Its cancelled wait is handled at 7, and the timeout was 5.
on_timer-deadline_example :
    on_timer boost 2 7 ended.impl
    ≡ do_eof boost shutdown_both (report_if boost true 3 "async_timer/on_timer" ended.impl)
unfolding init_context expiry expires_from_now async_wait cancel run_task
on_timer-deadline_example =
    on_timer-deadline boost 0 (λ d t. omega arith) (λ t. refl) (λ t. refl) true (recv_for 5) 5
      before called ended 2 7 refl refl ended-UntimedReach refl
