-- ===== src/Session/Delivery.antt =====
-- What becomes of the messages of a session (include/beast_router/impl/session.ipp), over every run
-- of its strand.
use beast_router.Base.{
  suc, ◌≡◌, refl, ◌≢◌, ap, ◌∙◌, Bool, true, List, [], ◌∷◌, drop, arith, ◌||◌, ◌&&◌,
}
use beast_router.Base.Outcome.{done, undefined}
use beast_router.ConnQueue.{conn_queue, push_lem, on_write_lem}
use beast_router.Router.{Router}
use beast_router.Session.{
  Task, recv, recv_for, send, send_for, handshake, handshake_for, Boost, Impl, init_context, do_eof,
  do_timer, do_write, on_write, run_task, cancel_timer, as_queue,
}
use beast_router.Session.Flow.{FlowSteps, Orderly, FlowSteps-Orderly, no_messages-Orderly}
use beast_router.Session.Flow.Halting.{FlowSteps-IsHalted, stop-IsHalted}
use beast_router.Session.Effects.{writes_of}
use beast_router.Session.Steps.{State, flow_of, Reach, Step-FlowStep}

module _ {Message Ec C T : Type 0} (b : Boost Message Ec C T) (server : Bool) where
  -- Every run of the strand is, seen by its queue, its writes and what was sent, a run of `Flow`.
  pub Reach-FlowSteps :
      {s t : State Message Ec C T}
      → Reach b server s t
      → FlowSteps b.need_eof (flow_of s) (flow_of t)
  Reach-FlowSteps Reach.here = FlowSteps.here
  Reach-FlowSteps (Reach.then r step) =
      FlowSteps.then (Reach-FlowSteps r) (Step-FlowStep b server step)

  -- A session as `init_context` makes it.
  abbrev pub fresh : C → Router → Bool → State Message Ec C T
  fresh connection router on_error = record {
    impl = init_context b connection router on_error;
    completed = 0;
    sent = [];
  }

  -- Its queue is as the queue's constructor makes it.
  init_context-conn_queue :
      (connection : C) (router : Router) (on_error : Bool)
      → let i = init_context b connection router on_error in as_queue b i ≡ conn_queue i
  unfolding init_context conn_queue
  init_context-conn_queue connection router on_error = refl

  fresh-Orderly :
      (connection : C) (router : Router) (on_error : Bool)
      → Orderly b.need_eof (flow_of (fresh connection router on_error))
  unfolding init_context
  fresh-Orderly connection router on_error = no_messages-Orderly b.need_eof

  -- In every state that a new session reaches, whatever is called on it and whichever operations
  -- complete with whatever error codes: at most one write is in flight, and it is that of the front
  -- of the queue; the messages written so far, followed by those behind the front, are the messages
  -- sent, in the order of sending, none lost and none twice; and each write was bound to the
  -- `need_eof` of its message.
  pub Reach-Orderly :
      (connection : C) (router : Router) (on_error : Bool) (t : State Message Ec C T)
      → Reach b server (fresh connection router on_error) t
      → Orderly b.need_eof (flow_of t)
  Reach-Orderly connection router on_error t r =
      FlowSteps-Orderly b.need_eof (Reach-FlowSteps r) (fresh-Orderly connection router on_error)

  -- In an orderly state, the handler of a write that is in flight does not end in undefined behaviour:
  -- it pops no empty queue.
  pub on_write-ne-undefined :
      (ec : Ec) (w : Message × Bool) (rest : List (Message × Bool)) (s : State Message Ec C T)
      → Orderly b.need_eof (flow_of s)
      → drop s.completed (writes_of s.impl.started) ≡ w ∷ rest
      → on_write b ec w.1 s.impl ≢ undefined
  unfolding on_write
  on_write-ne-undefined ec w rest s o e =
      ground (arith, on_write_lem (do_write b) (as_queue b (cancel_timer b s.impl)), o.flight)

  -- No call of the context, run by the strand in any state, is undefined.
  pub run_task-ne-undefined :
      (task : Task Message) (i : Impl Message Ec C T) → run_task b server task i ≢ undefined
  unfolding run_task
  run_task-ne-undefined recv i = ground arith
  run_task-ne-undefined (recv_for duration) i = ground arith
  run_task-ne-undefined (send m) i = ground (arith, push_lem (do_write b) m (as_queue b i))
  run_task-ne-undefined (send_for m duration) i =
      ground (arith, push_lem (do_write b) m (as_queue b (do_timer b duration i)))
  run_task-ne-undefined (handshake func) i = ground arith
  run_task-ne-undefined (handshake_for func duration) i = ground arith

  -- The writes after which `on_write` does not go on to the next message: the end of the stream, an
  -- error that is reported, a message that needs the end of the stream.
  abbrev pub ends : Ec → Bool → Impl Message Ec C T → Bool
  ends ec close i = b.is_end_of_stream ec || ((b.failed ec && i.m_on_error) || close)

  ended-same :
      (ec : Ec) (close : Bool) (i j : Impl Message Ec C T)
      → ends ec close i ≡ true
      → on_write b ec close i ≡ done j
      → (j.m_queue ≡ i.m_queue) × (j.started ≡ i.started)
  unfolding on_write do_eof
  ended-same ec close i j h e = (ground arith, ground arith)

  -- Once a write of a new session has completed with the end of the stream, with an error that is
  -- reported, or with a message that needs the end of the stream, no write is started any more,
  -- whatever is called and whatever completes later.
  pub ended-writes :
      (connection : C) (router : Router) (on_error : Bool) (ec : Ec) (m : Message) (close : Bool)
      (rest : List (Message × Bool)) (s t u : State Message Ec C T)
      → Reach b server (fresh connection router on_error) s
      → drop s.completed (writes_of s.impl.started) ≡ (m, close) ∷ rest
      → ends ec close s.impl ≡ true
      → on_write b ec close s.impl ≡ done t.impl
      → t.completed ≡ suc s.completed
      → t.sent ≡ s.sent
      → Reach b server t u
      → writes_of u.impl.started ≡ writes_of s.impl.started
  ended-writes connection router on_error ec m close rest s t u r d h e c n r' =
      let (queue, started) = ended-same ec close s.impl t.impl h e in
      let same : flow_of t ≡ record (flow_of s) { completed = suc s.completed } = ground arith in
      let halted =
        stop-IsHalted b.need_eof (flow_of s) (flow_of t) (m, close) rest d same
          (Reach-Orderly connection router on_error s r) in
      (FlowSteps-IsHalted b.need_eof (Reach-FlowSteps r') halted).1 ∙ ap writes_of started
