-- ===== src/Tests/Following.antt =====
-- A whole run of a client of examples/: it resolves, connects, writes its request and reads a response.
use beast_router.Base.{ℕ, Bool, ◌≡◌, ◌⊎◌, refl, true, false, [], ◌∷◌, some, none, arith}
use beast_router.Base.Outcome.{Outcome, done, threw, undefined}
use beast_router.Connection.{Connection}
use beast_router.Base.Dict.{find, insert, insert_or_assign, modify}
use beast_router.Dispatcher.{handle_unknown}
use beast_router.Router.{register, add_resource}
use beast_router.Storage.{begin_execute, storage, call, callback_impl, entry_type}
use beast_router.Utility.{tuple_func_idx, index_sequence, func_traits_result}
use beast_router.EventLoop.{EventLoop, event_loop}
use beast_router.HttpUtility.{Status}
use beast_router.ConnQueue
use beast_router.ConnQueue.{push, do_handle}
use beast_router.Connector.{connect, connector, do_resolve, on_resolve, on_connect}
use beast_router.Session.{
  Impl, init_context, run_task, do_timer, do_read, do_write, on_write, on_read,
}
use beast_router.Session.Context.{dispatch, drain}
use beast_router.Session.Effects.{writes_of}
use beast_router.Examples.Client.{Stopping, request, on_response}
use beast_router.Examples.Client.Connecting.{started}
use beast_router.Examples.Client.Finishing.{CanStop, IsLeft, Reach-finishes}
use beast_router.Examples.Client.Following.{Reach-follows}
use beast_router.Examples.Client.Promises.{OnceRead, Loop}
use beast_router.Examples.Client.Reaching.{Run, Step, Reach}
use beast_router.Examples.Client.Running.{
  Main, client, start, send_request, complete_resolve, complete_connect, complete_write,
  complete_read, print_response,
}
use beast_router.Tests.Data.{some_router}
use beast_router.Tests.Programs.{ops, boost, rq, env}
use beast_router.Tests.Serving.{io_context}

abbrev S : Type 0
S = Impl Status ℕ (Connection Bool) ℕ

abbrev OneClient : Type 0
OneClient = Main Bool ℕ Status ℕ (Connection Bool) ℕ Bool

abbrev OneRun : Type 0
OneRun = Run Bool ℕ Status ℕ (Connection Bool) ℕ Bool

abbrev make : Bool → Connection Bool
make socket = record { m_stream = socket }

abbrev looping : EventLoop Bool
looping = event_loop io_context 0

abbrev or_else : Outcome OneClient OneClient → OneClient → OneClient
or_else (done m) other = m
or_else (threw m) other = other
or_else undefined other = other

abbrev session_or : OneClient → S → S
session_or m other = elim m.session [ none ↦ other | some i ↦ i ]

abbrev s0 : OneRun
s0 = started boost client false true looping

abbrev m1 : OneClient
m1 = or_else (complete_resolve boost false 0 21 s0.main) s0.main

abbrev s1 : OneRun
s1 = record s0 { main = m1; attempts = 1 }

abbrev m2 : OneClient
m2 = or_else (complete_connect boost false ops client 30 make some_router 0 m1) m1

abbrev s2 : OneRun
s2 = record s1 { main = m2; attempts = 2 }

-- The session, and what it is after the write.
abbrev i2 : S
i2 = session_or m2 (init_context boost (make true) some_router true)

abbrev m3 : OneClient
m3 = or_else (complete_write boost io_context false 0 false i2 m2) m2

abbrev s3 : OneRun
s3 = record s2 { main = m3; written = 1 }

abbrev i3 : S
i3 = session_or m3 i2

abbrev not_found : Status → ℕ → Stopping Bool → ℕ × Stopping Bool
not_found m ctx w = (ctx, w)

abbrev m4 : OneClient
m4 =
    or_else (complete_read boost io_context false (env (Stopping Bool) "/") not_found 0 rq i3 m3) m3

abbrev s4 : OneRun
s4 = record s3 { main = m4; read = 1; answered = rq ∷ [] }

abbrev OneStep : OneRun → OneRun → Type 0
OneStep s t =
    Step ops boost client 30 make some_router false io_context (env (Stopping Bool) "/") not_found s
      t

resolves-OneStep : OneStep s0 s1
unfolding start complete_resolve connect connector do_resolve on_resolve
resolves-OneStep = Step.resolved "wttr.in" "80" 0 21 m1 refl refl refl

connects-OneStep : OneStep s1 s2
unfolding start complete_resolve connect connector do_resolve on_resolve complete_connect on_connect
    send_request dispatch drain run_task init_context do_timer do_read do_write push do_handle
connects-OneStep = Step.connected 21 0 m2 refl refl refl

writes-OneStep : OneStep s2 s3
unfolding start complete_resolve connect connector do_resolve on_resolve complete_connect on_connect
    send_request dispatch drain run_task init_context do_timer do_read do_write push do_handle
    complete_write on_write ConnQueue.on_write
writes-OneStep = Step.wrote i2 (request ops) false [] 0 m3 refl refl refl refl

reads-OneStep : OneStep s3 s4
unfolding start complete_resolve connect connector do_resolve on_resolve complete_connect on_connect
    send_request dispatch drain run_task init_context do_timer do_read do_write push do_handle
    complete_write on_write ConnQueue.on_write complete_read on_read print_response handle_unknown
    find register add_resource modify insert insert_or_assign begin_execute storage tuple_func_idx
    index_sequence call callback_impl func_traits_result entry_type on_response
reads-OneStep = Step.got i3 0 rq m4 refl (omega arith) refl refl

-- The event loop has been stopped by the response.
Reach-follows_example :
    ((m4.session ≡ none)
      × (m4.connector.connected ≡ [])
      × (m4.event_loop ≡ looping)
      × (rq ∷ [] ≡ []))
    ⊎ ((i : S) × (m4.session ≡ some i)
        × (m4.connector.connected ≡ true ∷ [])
        × ((writes_of i.started ≡ []) ⊎ (writes_of i.started ≡ (request ops, false) ∷ []))
        × OnceRead 1 (rq ∷ [])
        × Loop io_context looping i (rq ∷ []) m4.event_loop)
Reach-follows_example =
    Reach-follows ops boost client 30 make some_router false io_context (env (Stopping Bool) "/")
      not_found (λ c. refl) true looping s4
      (Reach.then
        (Reach.then (Reach.then (Reach.then Reach.here resolves-OneStep) connects-OneStep)
          writes-OneStep)
        reads-OneStep)

-- Where only resolving has completed.
Reach-finishes_example :
    CanStop ops boost client 30 make some_router false io_context
      (env (Stopping Bool) "/")
      not_found
      (λ c. refl)
      true
      looping
      0
      refl
      refl
      s1
    ⊎ IsLeft ops boost client 30 make some_router false io_context
        (env (Stopping Bool) "/")
        not_found
        (λ c. refl)
        true
        looping
        0
        refl
        refl
        s1
Reach-finishes_example =
    Reach-finishes ops boost client 30 make some_router false io_context (env (Stopping Bool) "/")
      not_found (λ c. refl) true looping 0 refl refl rq 21 s1
      (Reach.then Reach.here resolves-OneStep)
