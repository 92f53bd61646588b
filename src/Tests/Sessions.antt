-- ===== src/Tests/Sessions.antt =====
-- A session to which two messages are sent, the first of which needs the end of the stream.
use beast_router.Base.{drop, arith, ℕ, ◌≡◌, refl, Bool, true, false, List, [], ◌∷◌, none, some}
use beast_router.Connection.{Connection, plain}
use beast_router.ConnQueue.{push, do_handle}
use beast_router.Timer.{cancel}
use beast_router.Session
use beast_router.Session.{
  Task, send, Operation, writes, Impl, init_context, run_task, do_write, do_eof,
}
use beast_router.Session.Flow.{FlowSteps, Orderly}
use beast_router.Session.Effects.{writes_of}
use beast_router.Session.Steps.{State, flow_of, Reach, Step}
use beast_router.Session.Delivery.{fresh, Reach-FlowSteps, Reach-Orderly, ended-writes}
use beast_router.Session.Lifetime.{Reach-serializer}
use beast_router.Tests.Data.{boost, opened, some_router}

abbrev start : State ℕ ℕ (Connection Bool) ℕ
start = fresh boost true opened some_router true

abbrev sent :
    Impl ℕ ℕ (Connection Bool) ℕ
    → List ℕ
    → ℕ
    → List ℕ
    → List (Operation ℕ)
    → State ℕ ℕ (Connection Bool) ℕ
sent i queue completed messages started = record {
  impl = record i {
    m_queue = queue;
    started = started;
    m_serializer = elim started [ [] ↦ none | _ ↦ some 9 ];
  };
  completed = completed;
  sent = messages;
}

-- 9 is sent, and 4 behind it.
abbrev one : State ℕ ℕ (Connection Bool) ℕ
one = sent start.impl (9 ∷ []) 0 (9 ∷ []) (writes 9 true ∷ [])

abbrev two : State ℕ ℕ (Connection Bool) ℕ
two = sent start.impl (9 ∷ 4 ∷ []) 0 (9 ∷ 4 ∷ []) (writes 9 true ∷ [])

first_sent : Step boost true start one
unfolding init_context run_task do_write push do_handle
first_sent = Step.call (send 9) refl refl refl

second_sent : Step boost true one two
unfolding init_context run_task do_write push do_handle
second_sent = Step.call (send 4) refl refl refl

two_sent : Reach boost true start two
two_sent = Reach.then (Reach.then Reach.here first_sent) second_sent

Reach-Orderly_example : Orderly boost.need_eof (flow_of two)
Reach-Orderly_example = Reach-Orderly boost true opened some_router true two two_sent

Reach-FlowSteps_example : FlowSteps boost.need_eof (flow_of start) (flow_of two)
Reach-FlowSteps_example = Reach-FlowSteps boost true two_sent

-- The write of 9 completes: the connection is shut down, and 4 stays in the queue.
abbrev closed : State ℕ ℕ (Connection Bool) ℕ
closed = record two {
  impl = record two.impl { m_connection = record { m_stream = false } };
  completed = 1;
}

ended-writes_example : writes_of closed.impl.started ≡ (9, true) ∷ []
unfolding init_context Session.on_write do_eof cancel plain
ended-writes_example =
    ended-writes boost true opened some_router true 0 9 true [] two closed closed two_sent refl refl
      refl refl refl Reach.here

Reach-serializer_example :
    (m : ℕ) × (rest : List ℕ) × (two.impl.m_queue ≡ m ∷ rest)
    × (two.impl.m_serializer ≡ some m)
    × (drop 0 (writes_of two.impl.started) ≡ (m, boost.need_eof m) ∷ [])
unfolding init_context
Reach-serializer_example =
    Reach-serializer boost true opened some_router true two two_sent (λ e. ground arith)
