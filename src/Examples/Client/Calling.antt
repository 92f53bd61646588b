-- ===== src/Examples/Client/Calling.antt =====
-- How the clients of examples/ get to their request.
use beast_router.Base.{
  List, false, ℕ, ◌≡◌, refl, true, false, List, [], ◌∷◌, some, if◌then◌else◌, arith,
}
use beast_router.Base.Outcome.{done, threw, ◌>>=◌}
use beast_router.Base.Dict.{string_eq}
use beast_router.ConnQueue.{push, do_handle}
use beast_router.Connector.{connector, do_resolve, resolves, connects}
use beast_router.EventLoop.{EventLoop}
use beast_router.HttpUtility.{MessageOps}
use beast_router.Router.{Verb, Router}
use beast_router.Session.{
  Boost, Impl, send, reads, writes, waits, handshakes, init_context, do_read, do_timer, do_write,
  do_handshake, do_eof, on_read, report_if, run_task, cancel_timer,
}
use beast_router.Session.Context.{dispatch, drain}
use beast_router.Session
use beast_router.Examples.Client.{request}
use beast_router.Examples.Client.Running.{
  Program, client, ssl_client, Main, port, start, send_request, complete_resolve, complete_connect,
}

module _ {Message File Ec C T : Type 0} (ops : MessageOps Message Verb File Ec)
    (b : Boost Message Ec C T) where
  -- What the two calls start.
  abbrev pub called : Program → List (Session.Operation Message)
  called client = waits ∷ writes (request ops) (b.need_eof (request ops)) ∷ waits ∷ reads ∷ []
  called ssl_client = handshakes false (send (request ops)) ∷ waits ∷ reads ∷ []

module _ {Message File Ec C T S : Type 0} (ops : MessageOps Message Verb File Ec)
    (b : Boost Message Ec C T) (one_second : ℕ) (make : S → C) (router : Router) where
  send_request-called :
      (program : Program) (socket : S)
      → (i : Impl Message Ec C T) × (send_request ops b program one_second make router socket
          ≡ done (record { impl = i; tasks = [] }))
        × (i.started ≡ called ops b program)
        × (i.m_on_error ≡ true)
        × (i.reports ≡ [])
  unfolding send_request dispatch drain run_task init_context do_handshake do_timer do_read do_write
      push do_handle
  send_request-called client socket = (_, refl, refl, refl, refl)
  send_request-called ssl_client socket = (_, refl, refl, refl, refl)

module _ {S R Message File Ec C T L : Type 0} (b : Boost Message Ec C T) (moved_from : S)
    (ops : MessageOps Message Verb File Ec) (program : Program) (one_second : ℕ) (make : S → C)
    (router : Router) where
  -- The connector resolves "wttr.in" at the port of the program. If resolving fails, or connecting to what
  -- it gave, that error is reported and thrown, and no session is made. Otherwise the socket is handed
  -- over and one session is made: without TLS the request is being written and the response read, with
  -- two waits for the timer; over TLS the handshake is in flight beside the read, with one wait. The event
  -- loop is left as it was.
  pub start-called :
      (socket : S) (l : EventLoop L) (ec connected : Ec) (results : R)
      → let s : Main S R Message Ec C T L = start b moved_from program socket l in
        (i : Impl Message Ec C T) × ((complete_resolve b moved_from ec results s
            >>= complete_connect b moved_from ops program one_second make router connected)
          ≡ (if b.failed ec
              then threw (record s {
                connector = record s.connector { reports = (ec, "on_resovle") ∷ [] };
              })
              else if b.failed connected
              then threw (record s {
                connector = record s.connector {
                  started = resolves "wttr.in" (port program) ∷ connects results ∷ [];
                  reports = (connected, "on_connect") ∷ [];
                };
              })
              else done (record s {
                connector = record s.connector {
                  m_connection = record { m_stream = moved_from };
                  started = resolves "wttr.in" (port program) ∷ connects results ∷ [];
                  connected = socket ∷ [];
                };
                session = some i;
              })))
        × (s.connector.started ≡ resolves "wttr.in" (port program) ∷ [])
        × (i.started ≡ called ops b program)
        × (i.m_on_error ≡ true)
  unfolding start connector do_resolve complete_resolve complete_connect
  start-called socket l ec connected results =
      let (i, sent, started, handler, reports) =
        send_request-called ops b one_second make router program socket in
      (i, ground (arith, sent), refl, started, handler)
