-- ===== src/Session/Steps.antt =====
-- A session as its strand runs it: the calls of the context and the handlers of the asynchronous
-- calls (include/beast_router/impl/session.ipp), one after another.
use beast_router.Base.{
  ℕ, suc, ◌≡◌, ◌∙◌, inl, inr, Bool, List, [], ◌∷◌, ◌++◌, drop, arith, if◌then◌else◌, Bool-cases,
}
use mathlib.Core.List.{append-nil}
use beast_router.Base.Outcome.{done}
use beast_router.Session.{
  Task, recv, recv_for, send, send_for, handshake, handshake_for, Boost, Impl, do_timer, on_timer,
  on_write, on_read, do_handshake_for, on_handshake, run_task, handshake_done,
}
use beast_router.Session.Flow.{Flow, FlowStep}
use beast_router.Session.Effects.{
  writes_of, sends, SameFlow, Pushed, push-Pushed, do_timer-same, do_read-same, do_handshake-same,
  on_timer-same, on_handshake-same, SameFlow-done, SameFlow-trans, do_handshake_for-same,
  on_read-same, Pushed-after, on_write-effect,
}

-- A session between two handlers, with the number of writes that have completed and the messages
-- that were sent.
pub record State (Message Ec C T : Type 0) : Type 0 where
  pub impl : Impl Message Ec C T
  pub completed : ℕ
  pub sent : List Message

module _ {Message Ec C T : Type 0} where
  abbrev pub flow_of : State Message Ec C T → Flow Message
  flow_of s = record {
    queue = s.impl.m_queue;
    written = writes_of s.impl.started;
    completed = s.completed;
    sent = s.sent;
  }

module _ {Message Ec C T : Type 0} (b : Boost Message Ec C T) where
  -- A step that leaves the queue and the writes alone.
  stays :
      (s t : State Message Ec C T)
      → SameFlow s.impl t.impl
      → t.completed ≡ s.completed
      → t.sent ≡ s.sent
      → FlowStep b.need_eof (flow_of s) (flow_of t)
  stays s t same c n = FlowStep.stay (ground arith)

  pushes :
      (m : Message) (s t : State Message Ec C T)
      → Pushed b m s.impl t.impl
      → t.completed ≡ s.completed
      → t.sent ≡ s.sent ++ m ∷ []
      → FlowStep b.need_eof (flow_of s) (flow_of t)
  pushes m s t p c n = FlowStep.send m (ground arith)

module _ {Message Ec C T : Type 0} (b : Boost Message Ec C T) (server : Bool) where
  -- The message that a finished handshake sends.
  abbrev pub sends_after : Ec → Task Message → List Message
  sends_after ec func = if b.failed ec then [] else sends func

  pub data Step (s t : State Message Ec C T) : Type 0 where
    call :
        (task : Task Message)
        → run_task b server task s.impl ≡ done t.impl
        → t.completed ≡ s.completed
        → t.sent ≡ s.sent ++ sends task
        → Step s t
    -- A read up to the call of the dispatcher. What the handlers then call are steps of their own.
    read :
        (ec : Ec) (message : Message)
        → on_read b (λ m i. done i) ec message s.impl ≡ done t.impl
        → t.completed ≡ s.completed
        → t.sent ≡ s.sent
        → Step s t
    write :
        (m : Message) (close : Bool) (rest : List (Message × Bool)) (ec : Ec)
        → drop s.completed (writes_of s.impl.started) ≡ (m, close) ∷ rest
        → on_write b ec close s.impl ≡ done t.impl
        → t.completed ≡ suc s.completed
        → t.sent ≡ s.sent
        → Step s t
    time :
        (ec : Ec) (now : ℕ)
        → t.impl ≡ on_timer b ec now s.impl
        → t.completed ≡ s.completed
        → t.sent ≡ s.sent
        → Step s t
    shake :
        (ec : Ec) (func : Task Message)
        → handshake_done b server ec func s.impl ≡ done t.impl
        → t.completed ≡ s.completed
        → t.sent ≡ s.sent ++ sends_after ec func
        → Step s t

  pub data Reach (s : State Message Ec C T) : State Message Ec C T → Type 0 where
    here : Reach s s
    then : {t u : State Message Ec C T} → Reach s t → Step t u → Reach s u

  call-FlowStep :
      (task : Task Message) (s t : State Message Ec C T)
      → run_task b server task s.impl ≡ done t.impl
      → t.completed ≡ s.completed
      → t.sent ≡ s.sent ++ sends task
      → FlowStep b.need_eof (flow_of s) (flow_of t)
  unfolding run_task do_handshake_for
  call-FlowStep recv s t e c n =
      stays b s t (SameFlow-done b s.impl _ t.impl (do_read-same b s.impl) e) c (n ∙ append-nil _)
  call-FlowStep (recv_for duration) s t e c n =
      let timed = do_timer-same b duration s.impl in
      let both = SameFlow-trans b timed (do_read-same b (do_timer b duration s.impl)) in
      stays b s t (SameFlow-done b s.impl _ t.impl both e) c (n ∙ append-nil _)
  call-FlowStep (send m) s t e c n = pushes b m s t (push-Pushed b m s.impl t.impl e) c n
  call-FlowStep (send_for m duration) s t e c n =
      let timed = do_timer-same b duration s.impl in
      let pushed = push-Pushed b m (do_timer b duration s.impl) t.impl e in
      pushes b m s t (Pushed-after b m timed pushed) c n
  call-FlowStep (handshake func) s t e c n =
      stays b s t (SameFlow-done b s.impl _ t.impl (do_handshake-same b server func s.impl) e) c
        (n ∙ append-nil _)
  call-FlowStep (handshake_for func duration) s t e c n =
      let same = do_handshake_for-same b server func duration s.impl in
      stays b s t (SameFlow-done b s.impl _ t.impl same e) c (n ∙ append-nil _)

  shake-FlowStep :
      (ec : Ec) (func : Task Message) (s t : State Message Ec C T)
      → handshake_done b server ec func s.impl ≡ done t.impl
      → t.completed ≡ s.completed
      → t.sent ≡ s.sent ++ sends_after ec func
      → FlowStep b.need_eof (flow_of s) (flow_of t)
  unfolding handshake_done
  shake-FlowStep ec func s t e c n =
      let u : State Message Ec C T = record s { impl = on_handshake b ec s.impl } in
      let same = on_handshake-same b ec s.impl in
      let before : flow_of u ≡ flow_of s = ground arith in
      elim (Bool-cases (b.failed ec)) [
        | inl failed ↦
            stays b s t (SameFlow-done b s.impl u.impl t.impl same (ground arith)) c
              (n ∙ rw failed (append-nil _))
        | inr fine ↦ rw before at (call-FlowStep func u t (ground arith) c (ground arith))
      ]

  pub Step-FlowStep :
      {s t : State Message Ec C T} → Step s t → FlowStep b.need_eof (flow_of s) (flow_of t)
  Step-FlowStep {s} {t} (call task e c n) = call-FlowStep task s t e c n
  Step-FlowStep {s} {t} (read ec message e c n) =
      stays b s t (on_read-same b ec message s.impl t.impl e) c n
  Step-FlowStep {s} {t} (write m close rest ec d e c n) =
      elim (on_write-effect b ec close s.impl t.impl e) [
        | inl same ↦ FlowStep.stop (m, close) rest d (ground arith)
        | inr next ↦ FlowStep.next (m, close) rest d (ground arith)
      ]
  Step-FlowStep {s} {t} (time ec now e c n) = stays b s t (rw e (on_timer-same b ec now s.impl)) c n
  Step-FlowStep {s} {t} (shake ec func e c n) = shake-FlowStep ec func s t e c n
