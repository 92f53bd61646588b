-- ===== src/Session/Deadline.antt =====
-- The expiry of the one timer of a session (include/beast_router/impl/session.ipp) from a timed call to
-- the next.
use beast_router.Base.{
  ℕ, ◌+◌, ◌≡◌, refl, ap, ◌∙◌, Bool, true, false, not, ◌&&◌, Option, none, some, arith, leb,
  if◌then◌else◌, Bool-cases, inl, inr,
}
use beast_router.Base.Outcome.{done}
use beast_router.Connection.{shutdown_both}
use beast_router.ConnQueue.{push_lem, on_write_lem}
use beast_router.Timer.{expiry, expires_from_now, cancel, async_wait}
use beast_router.Session.{
  Task, recv, recv_for, send, send_for, handshake, handshake_for, Boost, Impl, do_timer, do_eof,
  do_read, do_write, do_handshake, do_handshake_for, on_timer, on_write, on_read, on_handshake,
  run_task, handshake_done, report_if, cancel_timer, as_queue,
}
use beast_router.Session.Steps.{State, Step}

-- The duration of a timed call.
abbrev pub duration_of : {Message : Type 0} → Task Message → Option ℕ
duration_of (recv_for duration) = some duration
duration_of (send_for message duration) = some duration
duration_of (handshake_for func duration) = some duration
duration_of recv = none
duration_of (send message) = none
duration_of (handshake func) = none

module _ {Message Ec C T : Type 0} (b : Boost Message Ec C T) where
  -- When the timer of a session expires.
  abbrev pub deadline : Impl Message Ec C T → ℕ
  deadline i = expiry b.timer i.m_timer

  -- The steps of a session that make no timed call, also not behind a handshake.
  abbrev pub Untimed : (server : Bool) {s t : State Message Ec C T} → Step b server s t → Type 0
  Untimed server (Step.call task e c n) = duration_of task ≡ none
  Untimed server (Step.shake ec func e c n) = duration_of func ≡ none
  Untimed server (Step.read ec message e c n) = Unit
  Untimed server (Step.write m close rest ec d e c n) = Unit
  Untimed server (Step.time ec now e c n) = Unit

  pub data UntimedReach (server : Bool) (s : State Message Ec C T)
      : State Message Ec C T → Type 0 where
    here : UntimedReach server s s
    then :
        {t u : State Message Ec C T}
        → UntimedReach server s t
        → (step : Step b server t u) → Untimed server step
        → UntimedReach server s u

  module _ (clock : ℕ)
      (expires : (d : ℕ) (t : T) → expiry b.timer (expires_from_now b.timer d t).1 ≡ clock + d)
      (waits : (t : T) → expiry b.timer (async_wait b.timer t) ≡ expiry b.timer t) where
    -- A timed call at the time `clock`.
    run_task-deadline :
        (server : Bool) (task : Task Message) (d : ℕ) (i j : Impl Message Ec C T)
        → duration_of task ≡ some d
        → run_task b server task i ≡ done j
        → deadline j ≡ clock + d
    unfolding run_task do_timer do_read do_write do_handshake do_handshake_for
    run_task-deadline server recv d i j f e = absurd (ground arith)
    run_task-deadline server (send m) d i j f e = absurd (ground arith)
    run_task-deadline server (handshake func) d i j f e = absurd (ground arith)
    run_task-deadline server (recv_for x) d i j f e =
        ground (arith, expires x i.m_timer, waits (expires_from_now b.timer x i.m_timer).1)
    run_task-deadline server (send_for m x) d i j f e = ground (
      arith,
      expires x i.m_timer,
      waits (expires_from_now b.timer x i.m_timer).1,
      push_lem (do_write b) m (as_queue b (do_timer b x i)),
    )
    run_task-deadline server (handshake_for func x) d i j f e = ground (arith, expires x i.m_timer)

  run_task-keeps :
      (server : Bool) (task : Task Message) (i j : Impl Message Ec C T)
      → duration_of task ≡ none
      → run_task b server task i ≡ done j
      → j.m_timer ≡ i.m_timer
  unfolding run_task do_read do_write do_handshake
  run_task-keeps server recv i j f e = ground arith
  run_task-keeps server (send m) i j f e = ground (arith, push_lem (do_write b) m (as_queue b i))
  run_task-keeps server (handshake func) i j f e = ground arith
  run_task-keeps server (recv_for x) i j f e = absurd (ground arith)
  run_task-keeps server (send_for m x) i j f e = absurd (ground arith)
  run_task-keeps server (handshake_for func x) i j f e = absurd (ground arith)

  module _ (cancels : (t : T) → expiry b.timer (cancel b.timer t).1 ≡ expiry b.timer t) where
    on_handshake-keeps :
        (ec : Ec) (i : Impl Message Ec C T) → deadline (on_handshake b ec i) ≡ deadline i
    unfolding on_handshake do_eof
    on_handshake-keeps ec i = ground (arith, cancels i.m_timer)

    Step-deadline :
        (server : Bool) {s t : State Message Ec C T} (step : Step b server s t)
        → Untimed server step
        → deadline t.impl ≡ deadline s.impl
    unfolding on_read on_write on_timer handshake_done do_eof do_write
    Step-deadline server {s} {t} (Step.call task e c n) u =
        ap (expiry b.timer) (run_task-keeps server task s.impl t.impl u e)
    Step-deadline server {s} {t} (Step.read ec message e c n) u =
        ground (arith, cancels s.impl.m_timer)
    Step-deadline server {s} {t} (Step.write m close rest ec d e c n) u = ground (
      arith,
      cancels s.impl.m_timer,
      on_write_lem (do_write b) (as_queue b (cancel_timer b s.impl)),
    )
    Step-deadline server {s} {t} (Step.time ec now e c n) u = ground arith
    Step-deadline server {s} {t} (Step.shake ec func e c n) u = elim (Bool-cases (b.failed ec)) [
      | inl failed ↦ ground (arith, on_handshake-keeps ec s.impl)
      | inr fine ↦
          let same =
            run_task-keeps server func (on_handshake b ec s.impl) t.impl u (ground arith) in
          ap (expiry b.timer) same ∙ on_handshake-keeps ec s.impl
    ]

    UntimedReach-deadline :
        (server : Bool) {s t : State Message Ec C T}
        → UntimedReach server s t
        → deadline t.impl ≡ deadline s.impl
    UntimedReach-deadline server UntimedReach.here = refl
    UntimedReach-deadline server (UntimedReach.then r step u) =
        Step-deadline server step u ∙ UntimedReach-deadline server r

  -- A timer that is set at the time `clock` expires after the duration, and waiting and cancelling leave
  -- its expiry. Then after a timed call at that time, whatever is called without a duration and whatever
  -- completes, the handler of a wait, one that has elapsed or one that was cancelled, does nothing before
  -- the deadline of that call; from then on it reports the timeout and shuts the connection down, if it
  -- is open, also where the operation that the timeout was to bound has ended in time.
  pub on_timer-deadline :
      (clock : ℕ)
      → ((d : ℕ) (t : T) → expiry b.timer (expires_from_now b.timer d t).1 ≡ clock + d)
      → ((t : T) → expiry b.timer (async_wait b.timer t) ≡ expiry b.timer t)
      → ((t : T) → expiry b.timer (cancel b.timer t).1 ≡ expiry b.timer t)
      → (server : Bool) (task : Task Message) (d : ℕ) (s t u : State Message Ec C T) (ec : Ec)
        (now : ℕ)
      → duration_of task ≡ some d
      → run_task b server task s.impl ≡ done t.impl
      → UntimedReach server t u
      → (b.failed ec && not (b.is_operation_aborted ec)) ≡ false
      → on_timer b ec now u.impl ≡ (
          if leb (clock + d) now
          then do_eof b shutdown_both (report_if b true b.timed_out "async_timer/on_timer" u.impl)
          else u.impl)
  unfolding on_timer
  on_timer-deadline clock expires waits cancels server task d s t u ec now f e r elapsed =
      let set = run_task-deadline clock expires waits server task d s.impl t.impl f e in
      let kept = UntimedReach-deadline cancels server r in rw (elapsed, kept, set) refl
