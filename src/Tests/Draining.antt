-- ===== src/Tests/Draining.antt =====
-- Sessions that come to the end of their queue, that have no error handler, and that read again.
use beast_router.Base.{ℕ, zero, suc, ◌≡◌, refl, Bool, true, false, List, [], ◌∷◌, some, map, arith}
use beast_router.Base.Outcome.{Outcome, done}
use beast_router.Connection.{Connection}
use beast_router.ConnQueue.{push, do_handle}
use beast_router.Timer.{cancel}
use beast_router.Session.{send, writes, Impl, init_context, run_task, do_write, on_read}
use beast_router.Session.Effects.{writes_of}
use beast_router.Session.Steps.{State, Reach, Step}
use beast_router.Session.Delivery.{fresh}
use beast_router.Session.Progress.{complete, complete-drains}
use beast_router.Session.Silent.{Reach-silent}
use beast_router.Session.Rereading.{ParserOps, Reader, read_all, read_all-released}
use beast_router.Tests.Data.{boost, opened, some_router}

abbrev S : Type 0
S = State ℕ ℕ (Connection Bool) ℕ

abbrev start : S
start = fresh boost true opened some_router false

-- 4 is sent, and 6 behind it.
abbrev one : S
one = record {
  impl = record start.impl {
    m_queue = 4 ∷ [];
    started = writes 4 false ∷ [];
    m_serializer = some 4;
  };
  completed = 0;
  sent = 4 ∷ [];
}

abbrev two : S
two = record { impl = record one.impl { m_queue = 4 ∷ 6 ∷ [] }; completed = 0; sent = 4 ∷ 6 ∷ [] }

first_sent : Step boost true start one
unfolding init_context run_task do_write push do_handle
first_sent = Step.call (send 4) refl refl refl

second_sent : Step boost true one two
unfolding init_context run_task do_write push do_handle
second_sent = Step.call (send 6) refl refl refl

two_sent : Reach boost true start two
two_sent = Reach.then (Reach.then Reach.here first_sent) second_sent

complete-drains_example :
    (t : S) × (complete boost 2 0 two.impl ≡ done t.impl)
    × Reach boost true two t
    × (t.impl.m_queue ≡ [])
    × (map (λ w. w.0) (writes_of t.impl.started) ≡ 4 ∷ 6 ∷ [])
unfolding init_context
complete-drains_example =
    complete-drains boost true opened some_router false 0 two two_sent (λ e. ground arith)
      (refl, (refl, tt)) refl refl

-- A read fails, and nobody hears of it.
abbrev failed : S
failed = record start { impl = record start.impl { started = [] } }

read_failed : Step boost true start failed
unfolding init_context on_read cancel
read_failed = Step.read 5 8 refl refl refl

Reach-silent_example :
    (failed.impl.m_on_error ≡ false) × ((false ≡ false) → failed.impl.reports ≡ [])
unfolding init_context
Reach-silent_example =
    Reach-silent boost true opened some_router false failed (Reach.then Reach.here read_failed)

-- A parser that is new, holds a message, or is left by the move of one; the message it leaves is 0.
abbrev parser_ops : ParserOps ℕ (List ℕ) ℕ ℕ ℕ
parser_ops = record {
  parser = 0;
  buffer = [];
  async_read =
      λ input buffer p. elim p [ zero ↦ (0, buffer, suc input) | suc n ↦ (0, buffer, suc n) ];
  release = λ p. elim p [ zero ↦ (0, 1) | suc n ↦ (n, 1) ];
}

abbrev is_done : ℕ → Bool
is_done zero = false
is_done (suc n) = true

-- What is processed is sent back.
abbrev echo :
    ℕ
    → Impl ℕ ℕ (Connection Bool) ℕ
    → Outcome (Impl ℕ ℕ (Connection Bool) ℕ) (Impl ℕ ℕ (Connection Bool) ℕ)
echo m i = run_task boost true (send m) i

abbrev reading : Reader ℕ (List ℕ) ℕ ℕ (Connection Bool) ℕ
reading = record { impl = start.impl; m_buffer = []; m_parser = 0 }

-- The peer sends 7 and then 8, and what is processed is 7 and then 0.
read_all-released_example :
    read_all boost parser_ops echo (7 ∷ 8 ∷ []) reading
    ≡ done (record reading {
      impl = record start.impl {
        m_queue = 7 ∷ 0 ∷ [];
        started = writes 7 false ∷ [];
        m_serializer = some 7;
      };
      m_parser = 1;
    })
unfolding init_context run_task do_write push do_handle cancel
read_all-released_example =
    read_all-released boost parser_ops echo is_done 0 0 (λ input buffer p d. ground arith)
      (λ p d. ground arith) (λ p d. ground arith) refl refl 7 (8 ∷ []) 0 [] 8 reading refl refl refl
