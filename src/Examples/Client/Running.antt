-- ===== src/Examples/Client/Running.antt =====
-- `main` of examples/client/main.cpp and examples/ssl/client/main.cpp: the connector, then the session
-- of the connection, on one event loop. An error of the connector is thrown, out of `exec` and out of
-- `main`; one of the session stops the event loop.
use beast_router.Base.{
  ℕ, Bool, true, false, String, List, [], ◌∷◌, Option, none, some, if◌then◌else◌, length, drop,
  ◌&&◌,
}
use beast_router.Base.Outcome.{Outcome, done, threw, undefined, ◌>>=◌}
use beast_router.Connector
use beast_router.Connector.{Connector, connect}
use beast_router.Dispatcher.{Env, process_response}
use beast_router.EventLoop.{IoContext, EventLoop}
use beast_router.HttpUtility.{MessageOps}
use beast_router.Router.{Verb, Router, register_all, initial}
use beast_router.Session.{Boost, Impl, on_read, on_write, on_timer, handshake_done, Task}
use beast_router.Session.Context.{Strand}
use beast_router.Examples.Client.{Stopping, on_connect, ssl_on_connect, on_error, routes}

pub data Program : Type 0 where
  client ssl_client : Program

pub record Main (S R Message Ec C T L : Type 0) : Type 0 where
  pub connector : Connector S R Ec
  pub session : Option (Impl Message Ec C T)
  pub event_loop : EventLoop L

module _ {Message File Ec C T S : Type 0} (ops : MessageOps Message Verb File Ec)
    (b : Boost Message Ec C T) (program : Program) (one_second : ℕ) (make : S → C)
    (router : Router) where
  -- `on_connect`, which runs on a thread of the event loop. The strand of the new session is idle then, so
  -- both calls run at once; here no operation of the first completes before the second.
  -- `make` is the connection of a socket, over TLS with the context of the program.
  unfoldable pub send_request : S → Outcome (Strand Message Ec C T) (Impl Message Ec C T)
  unfolding on_connect ssl_on_connect
  send_request socket = elim program [
    | client ↦ on_connect ops b one_second true (make socket) router
    | ssl_client ↦ ssl_on_connect ops b one_second true (make socket) router
  ]

module _ {S R Message Ec C T L : Type 0} where
  -- What was done to the event loop becomes part of the state.
  abbrev pub with_loop :
      Stopping L
      → Main S R Message Ec C T L
      → Outcome (Main S R Message Ec C T L) (Main S R Message Ec C T L)
  with_loop (done l) m = done (record m { event_loop = l })
  with_loop (threw l) m = threw (record m { event_loop = l })
  with_loop undefined m = undefined

module _ {Ec L Code : Type 0} (io : IoContext L Ec Code) (in_group : Bool) where
  -- The handler of the session's errors, for each that was reported.
  abbrev pub told : List (Ec × String) → EventLoop L → Stopping L
  told [] l = done l
  told ((ec, msg) ∷ more) l = on_error io in_group ec msg l >>= told more

  module _ {S R Message C T : Type 0} where
    -- The session becomes `j`.
    abbrev pub after :
        (i j : Impl Message Ec C T)
        → Main S R Message Ec C T L
        → Outcome (Main S R Message Ec C T L) (Main S R Message Ec C T L)
    after i j m =
        with_loop (told (drop (length i.reports) j.reports) m.event_loop)
          (record m { session = some j })

    abbrev pub goes_on :
        (i : Impl Message Ec C T)
        → Outcome (Impl Message Ec C T) (Impl Message Ec C T)
        → Main S R Message Ec C T L
        → Outcome (Main S R Message Ec C T L) (Main S R Message Ec C T L)
    goes_on i (done j) m = after i j m
    goes_on i (threw j) m = after i j m >>= threw
    goes_on i undefined m = undefined

unfoldable pub port : Program → String
port client = "80"
port ssl_client = "443"

module _ {S R Message Ec C T L : Type 0} (b : Boost Message Ec C T) (moved_from : S) where
  -- `main` up to `exec`.
  unfoldable pub start : Program → S → EventLoop L → Main S R Message Ec C T L
  unfolding connect port
  start program socket event_loop = record {
    connector = connect b.failed moved_from "wttr.in" (port program) socket true;
    session = none;
    event_loop = event_loop;
  }

  -- The handler of the connector's errors throws. `moved_from` is the socket that a move leaves behind.
  unfoldable pub complete_resolve :
      Ec
      → R
      → Main S R Message Ec C T L
      → Outcome (Main S R Message Ec C T L) (Main S R Message Ec C T L)
  unfolding Connector.on_resolve
  complete_resolve ec results m =
      let m' : Main S R Message Ec C T L = record m {
        connector = Connector.on_resolve b.failed moved_from ec results m.connector;
      } in
      if b.failed ec && m.connector.m_on_error then threw m' else done m'

  module _ {File : Type 0} (ops : MessageOps Message Verb File Ec) (program : Program)
      (one_second : ℕ) (make : S → C) (router : Router) where
    unfoldable pub complete_connect :
        Ec
        → Main S R Message Ec C T L
        → Outcome (Main S R Message Ec C T L) (Main S R Message Ec C T L)
    unfolding Connector.on_connect send_request
    complete_connect ec m =
        let m' : Main S R Message Ec C T L = record m {
          connector = Connector.on_connect b.failed moved_from ec m.connector;
        } in
        if b.failed ec
        then if m.connector.m_on_error then threw m' else done m'
        else elim (send_request ops b program one_second make router
            m.connector.m_connection.m_stream) [
              | done strand ↦ done (record m' { session = some strand.impl })
              | threw i ↦ threw (record m' { session = some i })
              | undefined ↦ undefined
            ]

module _ {S R Message Ec C T L Code : Type 0} (b : Boost Message Ec C T) (io : IoContext L Ec Code)
    (in_group : Bool) where
  unfoldable pub complete_handshake :
      Ec
      → Task Message
      → (i : Impl Message Ec C T) → Main S R Message Ec C T L
      → Outcome (Main S R Message Ec C T L) (Main S R Message Ec C T L)
  unfolding handshake_done
  complete_handshake ec func i m = goes_on io in_group i (handshake_done b false ec func i) m

  unfoldable pub complete_write :
      Ec
      → (close : Bool) → (i : Impl Message Ec C T) → Main S R Message Ec C T L
      → Outcome (Main S R Message Ec C T L) (Main S R Message Ec C T L)
  unfolding on_write
  complete_write ec close i m = goes_on io in_group i (on_write b ec close i) m

  unfoldable pub complete_time :
      Ec
      → (now : ℕ) → (i : Impl Message Ec C T) → Main S R Message Ec C T L
      → Outcome (Main S R Message Ec C T L) (Main S R Message Ec C T L)
  unfolding on_timer
  complete_time ec now i m = goes_on io in_group i (done (on_timer b ec now i)) m

  module _ {Ctx Match Regex : Type 0} (env : Env Message Ctx Match (Stopping L) Regex)
      (send_not_found : Message → Ctx → Stopping L → Ctx × Stopping L) where
    -- What the dispatcher does, on the event loop. A client sends no message for what is not found.
    unfoldable pub print_response :
        Message
        → Main S R Message Ec C T L
        → Outcome (Main S R Message Ec C T L) (Main S R Message Ec C T L)
    unfolding process_response register_all initial routes
    print_response message m =
        let table = register_all (routes io in_group) (initial send_not_found false) in
        elim (process_response env table message (done m.event_loop)) [
          | done w ↦ with_loop w m
          | threw w ↦ with_loop w m >>= threw
          | undefined ↦ undefined
        ]

    -- The read of the response. At the end of the stream the dispatcher is not called.
    unfoldable pub complete_read :
        Ec
        → Message
        → (i : Impl Message Ec C T) → Main S R Message Ec C T L
        → Outcome (Main S R Message Ec C T L) (Main S R Message Ec C T L)
    complete_read ec message i m =
        let read = goes_on io in_group i (on_read b (λ message j. done j) ec message i) m in
        if b.is_end_of_stream ec then read else read >>= print_response message
