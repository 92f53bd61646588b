-- ===== src/Examples/Servers.antt =====
-- `main` of the servers: examples/hello-world/main.cpp, examples/ssl/hello-world/main.cpp and
-- examples/time-counter/main.cpp. A listener and the sessions of the connections that it accepts run on
-- one event loop. An error of the listener is thrown, out of `exec` and out of `main`.
pub mod Failing
pub mod Running
pub mod Sessions
use beast_router.Base.{ℕ, Bool, true, false, String, List, [], ◌∷◌, ◌++◌, if◌then◌else◌}
use beast_router.Base.Outcome.{Outcome, done, threw, undefined}
use beast_router.Listener.{AcceptorOps, Listener, launch, on_accept, on_spawn_connect}
use beast_router.Router.{Router}
use beast_router.Session.{Task, Boost, Impl}
use beast_router.Session.Context.{Strand}
use beast_router.Session.Steps.{State}
use beast_router.Examples.HelloWorld
use beast_router.Examples.TimeCounter

pub data Program : Type 0 where
  time_counter hello_world ssl_hello_world : Program

-- A session with the socket that it was made from and what waits for its strand.
pub record Live (S Message Ec C T : Type 0) : Type 0 where
  pub socket : S
  pub state : State Message Ec C T
  pub tasks : List (Task Message)

pub record Server (A S E Message Ec C T : Type 0) : Type 0 where
  pub listener : Listener A S E Ec
  pub sessions : List (Live S Message Ec C T)

module _ {A S E Message Ec C T : Type 0} (ops : AcceptorOps A E Ec) where
  -- The first calls of `main` up to `exec`. `on_error` throws what it is told.
  unfoldable pub start : A → E → Outcome (Server A S E Message Ec C T) (Server A S E Message Ec C T)
  unfolding launch
  start acceptor endpoint =
      let s : Server A S E Message Ec C T = record {
        listener = launch ops acceptor endpoint true;
        sessions = [];
      } in
      elim s.listener.reports [ [] ↦ done s | report ∷ more ↦ threw s ]

  unfoldable pub complete_accept :
      Ec → S → Server A S E Message Ec C T → Server A S E Message Ec C T
  unfolding on_accept
  complete_accept ec socket s = record s { listener = on_accept ops ec socket s.listener }

-- `make` is the connection of a socket, over TLS with the context of the program. `on_error` tells
-- whether the handler that `main` has moved into the listener still holds a function: `on_accept` keeps a
-- reference to it and copies it for each session.
module _ {A S E Message Ec C T : Type 0} (ops : AcceptorOps A E Ec) (b : Boost Message Ec C T)
    (program : Program) (one_second : ℕ) (make : S → C) (router : Router)
    (on_error at_once : Bool) where
  -- `on_accept`. It runs in the strand of the listener, on a thread of the event loop. That of the session
  -- is idle then, so Boost runs the first call `at_once`.
  unfoldable pub recv_socket : S → Outcome (Strand Message Ec C T) (Impl Message Ec C T)
  unfolding TimeCounter.accept_socket HelloWorld.accept_socket HelloWorld.ssl_accept_socket
  recv_socket socket = elim program [
    | time_counter ↦ TimeCounter.accept_socket b one_second at_once (make socket) router on_error
    | hello_world ↦ HelloWorld.accept_socket b one_second at_once (make socket) router on_error
    | ssl_hello_world ↦
        HelloWorld.ssl_accept_socket b one_second at_once (make socket) router on_error
  ]

  unfoldable pub add_session :
      S
      → Server A S E Message Ec C T
      → Outcome (Server A S E Message Ec C T) (Server A S E Message Ec C T)
  unfolding recv_socket
  add_session socket s = elim (recv_socket socket) [
    | done strand ↦ done (record s {
      sessions =
          s.sessions
          ++ record {
            socket = socket;
            state = record { impl = strand.impl; completed = 0; sent = [] };
            tasks = strand.tasks;
          }
            ∷ [];
    })
    | threw i ↦ threw s
    | undefined ↦ undefined
  ]

  -- The strand of the listener runs what was posted first.
  unfoldable pub run_posted :
      Server A S E Message Ec C T
      → Outcome (Server A S E Message Ec C T) (Server A S E Message Ec C T)
  unfolding add_session on_spawn_connect
  run_posted s = elim s.listener.posted [
    | [] ↦ done s
    | (ec, socket) ∷ rest ↦
        let s' : Server A S E Message Ec C T = record s {
          listener = on_spawn_connect ops ec socket (record s.listener { posted = rest });
        } in
        if ops.failed ec
        then if s.listener.m_on_error then threw s' else done s'
        else add_session socket s'
  ]
