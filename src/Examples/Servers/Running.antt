-- ===== src/Examples/Servers/Running.antt =====
-- The runs of the servers of examples/: what completes and what the strands run, in any order.
use beast_router.Base.{
  ◌⊎◌, inl, inr, ℕ, ◌≡◌, refl, sym, Bool, true, false, String, List, [], ◌∷◌, ◌++◌, Option, none,
  some, arith, if◌then◌else◌,
}
use beast_router.Base.Outcome.{Outcome, done, threw}
use beast_router.Listener.{AcceptorOps, launch, listener, on_spawn_connect}
use beast_router.Listener.Setup.{stages, run_stages, loop-stages}
use beast_router.Router.{Router}
use beast_router.Session.{
  Task, recv_for, handshake, Boost, Impl, init_context, run_task, do_read, do_timer, do_handshake,
}
use beast_router.Session.Context.{dispatch}
use beast_router.Session.Effects.{sends}
use beast_router.Session.Steps
use beast_router.Session.Steps.{State, flow_of}
use beast_router.Session.Delivery.{fresh}
use beast_router.Examples.Servers.{
  Program, time_counter, hello_world, ssl_hello_world, Live, Server, start, complete_accept,
  recv_socket, run_posted,
}

module _ {Message Ec C T : Type 0} (b : Boost Message Ec C T) where
  -- A session goes on: what waits for its strand runs, or any step of the session is made. A report of an
  -- error is thrown, which would end the program.
  pub data Move {S : Type 0} (l l' : Live S Message Ec C T) : Type 0 where
    queued :
        (task : Task Message)
        → l.tasks ≡ task ∷ l'.tasks
        → run_task b true task l.state.impl ≡ done l'.state.impl
        → l'.state.completed ≡ l.state.completed
        → l'.state.sent ≡ l.state.sent ++ sends task
        → l'.state.impl.reports ≡ l.state.impl.reports
        → l'.socket ≡ l.socket
        → Move l l'
    works :
        Steps.Step b true l.state l'.state
        → l'.tasks ≡ l.tasks
        → l'.state.impl.reports ≡ l.state.impl.reports
        → l'.socket ≡ l.socket
        → Move l l'

  pub Move-Step :
      {S : Type 0} {l l' : Live S Message Ec C T} → Move l l' → Steps.Step b true l.state l'.state
  Move-Step (Move.queued task t e c n r k) = Steps.Step.call task e c n
  Move-Step (Move.works step t r k) = step

  pub Move-tasks :
      {S : Type 0} {l l' : Live S Message Ec C T}
      → Move l l'
      → (l'.tasks ≡ l.tasks) ⊎ ((task : Task Message) × (l.tasks ≡ task ∷ l'.tasks))
  Move-tasks (Move.queued task t e c n r k) = inr (task, t)
  Move-tasks (Move.works step t r k) = inl t

  pub Move-reports :
      {S : Type 0} {l l' : Live S Message Ec C T}
      → Move l l'
      → (l'.state.impl.reports ≡ l.state.impl.reports) × (l'.socket ≡ l.socket)
  Move-reports (Move.queued task t e c n r k) = (r, k)
  Move-reports (Move.works step t r k) = (r, k)

module _ {A S E Ec : Type 0} (ops : AcceptorOps A E Ec) where
  -- `main` before `exec`, by the first of the four calls that fails, if one does.
  abbrev pub started :
      {Message C T : Type 0}
      → Option (Ec × String)
      → A
      → E
      → Outcome (Server A S E Message Ec C T) (Server A S E Message Ec C T)
  started none a endpoint = done (record {
    listener = record (listener ops a true) { m_endpoint = some endpoint; accepts = 1 };
    sessions = [];
  })
  started (some (ec, msg)) a endpoint = threw (record {
    listener = record (listener ops a true) { reports = (ec, msg) ∷ [] };
    sessions = [];
  })

  -- `main` gets to `exec` just where none of the calls that set the acceptor up fails. Otherwise it
  -- throws what the first of them that fails reports.
  pub start-stages :
      {Message C T : Type 0} (acceptor : A) (endpoint : E)
      → let (failure, a) = run_stages ops (stages ops endpoint) acceptor in
        start {S = S} {Message = Message} {C = C} {T = T} ops acceptor endpoint
        ≡ started failure a endpoint
  unfolding start launch listener
  start-stages acceptor endpoint =
      ground (arith, loop-stages ops endpoint (listener ops acceptor true))

-- The first call of a session.
abbrev pub first_task : {Message : Type 0} → Program → (one_second : ℕ) → Task Message
first_task time_counter one_second = recv_for one_second
first_task hello_world one_second = recv_for one_second
first_task ssl_hello_world one_second = handshake (recv_for one_second)

module _ {Message Ec C T : Type 0} (b : Boost Message Ec C T) where
  -- The session after its first call.
  abbrev pub after_first : Program → (one_second : ℕ) → Impl Message Ec C T → Impl Message Ec C T
  after_first time_counter one_second i = do_read b (do_timer b one_second i)
  after_first hello_world one_second i = do_read b (do_timer b one_second i)
  after_first ssl_hello_world one_second i = do_handshake b true (recv_for one_second) i

  pub run_task-first_task :
      (program : Program) (one_second : ℕ) (i : Impl Message Ec C T)
      → (run_task b true (first_task program one_second) i
          ≡ done (after_first program one_second i))
        × ((after_first program one_second i).reports ≡ i.reports)
        × (sends {Message = Message} (first_task program one_second) ≡ [])
  unfolding run_task do_read do_timer do_handshake
  run_task-first_task time_counter one_second i = (refl, refl, refl)
  run_task-first_task hello_world one_second i = (refl, refl, refl)
  run_task-first_task ssl_hello_world one_second i = (refl, refl, refl)

module _ {S Message Ec C T : Type 0} (b : Boost Message Ec C T) (program : Program) (one_second : ℕ)
    (make : S → C) (router : Router) where
  -- A session that has just been made.
  abbrev pub made : (on_error at_once : Bool) → S → Live S Message Ec C T
  made on_error at_once socket =
      let new = fresh b true (make socket) router on_error in
      record {
        socket = socket;
        state =
            if at_once
            then record {
              impl = after_first b program one_second new.impl;
              completed = new.completed;
              sent = new.sent;
            }
            else new;
        tasks = if at_once then [] else first_task program one_second ∷ [];
      }

  pub made-Reach :
      (on_error at_once : Bool) (socket : S)
      → Steps.Reach b true
          (fresh b true (make socket) router on_error)
          (made on_error at_once socket).state
        × ((made on_error at_once socket).state.impl.reports ≡ [])
        × (((made on_error at_once socket).tasks ≡ first_task program one_second ∷ [])
            ⊎ ((made on_error at_once socket).tasks ≡ []))
  unfolding init_context
  made-Reach on_error false socket = (Steps.Reach.here, refl, inl refl)
  made-Reach on_error true socket =
      let (ran, reports, sent) =
        run_task-first_task b program one_second (init_context b (make socket) router on_error) in
      (
        Steps.Reach.then Steps.Reach.here
            (Steps.Step.call (first_task program one_second) ran refl (sym sent)),
        reports,
        inr refl,
      )

recv_socket-made :
    {A S E Message Ec C T : Type 0} (ops : AcceptorOps A E Ec) (b : Boost Message Ec C T)
    (program : Program) (one_second : ℕ) (make : S → C) (router : Router) (on_error at_once : Bool)
    (socket : S)
    → recv_socket ops b program one_second make router on_error at_once socket
      ≡ done (record {
        impl = (made b program one_second make router on_error at_once socket).state.impl;
        tasks = (made b program one_second make router on_error at_once socket).tasks;
      })
unfolding recv_socket dispatch run_task
recv_socket-made ops b time_counter one_second make router on_error true socket = refl
recv_socket-made ops b hello_world one_second make router on_error true socket = refl
recv_socket-made ops b ssl_hello_world one_second make router on_error true socket = refl
recv_socket-made ops b time_counter one_second make router on_error false socket = refl
recv_socket-made ops b hello_world one_second make router on_error false socket = refl
recv_socket-made ops b ssl_hello_world one_second make router on_error false socket = refl

module _ {A S E Message Ec C T : Type 0} (ops : AcceptorOps A E Ec) (b : Boost Message Ec C T)
    (program : Program) (one_second : ℕ) (make : S → C) (router : Router)
    (on_error at_once : Bool) where
  -- An accept completes, the strand of the listener runs, or one session goes on.
  pub data Step (s t : Server A S E Message Ec C T) : Type 0 where
    completes : (ec : Ec) (socket : S) → t ≡ complete_accept ops ec socket s → Step s t
    runs : run_posted ops b program one_second make router on_error at_once s ≡ done t → Step s t
    moves :
        (front rest : List (Live S Message Ec C T)) (l l' : Live S Message Ec C T)
        → s.sessions ≡ front ++ l ∷ rest
        → Move b l l'
        → t ≡ record s { sessions = front ++ l' ∷ rest }
        → Step s t

  pub data Reach (s : Server A S E Message Ec C T) : Server A S E Message Ec C T → Type 0 where
    here : Reach s s
    then : {t u : Server A S E Message Ec C T} → Reach s t → Step t u → Reach s u

  -- The server after a connection was handed over.
  abbrev pub served : S → List (Ec × S) → Server A S E Message Ec C T → Server A S E Message Ec C T
  served socket rest s = record {
    listener = record s.listener { posted = rest; connected = s.listener.connected ++ socket ∷ [] };
    sessions = s.sessions ++ made b program one_second make router on_error at_once socket ∷ [];
  }

  pub run_posted-nil :
      (s : Server A S E Message Ec C T)
      → s.listener.posted ≡ []
      → run_posted ops b program one_second make router on_error at_once s ≡ done s
  unfolding run_posted
  run_posted-nil s e = ground arith

  pub run_posted-cons :
      (s : Server A S E Message Ec C T) (ec : Ec) (socket : S) (rest : List (Ec × S))
      → s.listener.m_on_error ≡ true
      → s.listener.posted ≡ (ec, socket) ∷ rest
      → run_posted ops b program one_second make router on_error at_once s ≡ (
          if ops.failed ec
          then threw (record s {
            listener = record s.listener {
              posted = rest;
              reports = s.listener.reports ++ (ec, "accept/loop") ∷ [];
            };
          })
          else done (served socket rest s))
  unfolding run_posted on_spawn_connect
  run_posted-cons s ec socket rest h e =
      ground (arith, recv_socket-made ops b program one_second make router on_error at_once socket)
