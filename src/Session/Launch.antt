-- ===== src/Session/Launch.antt =====
-- The static functions `session::recv` and `session::send` (include/beast_router/session.hpp): a new
-- session with its first call. Over TLS that call is the handshake, and the function's own call is
-- its continuation.
use beast_router.Base.{ℕ, ◌≡◌, Bool, true, false, [], ◌∷◌, ◌++◌, arith, if◌then◌else◌}
use beast_router.Base.Outcome.{Outcome, done}
use beast_router.Router.{Router}
use beast_router.Session.{
  Task, recv, recv_for, send, send_for, handshake, reads, waits, handshakes, Boost, Impl,
  init_context, do_eof, do_timer, do_read, do_handshake, on_handshake, run_task, handshake_done,
}
use beast_router.Session.Context.{Strand, dispatch}

module _ {Message Ec C T : Type 0} (b : Boost Message Ec C T) where
  -- `init_context` and one call of the context from the thread of the caller.
  unfoldable pub launch :
      (server at_once : Bool)
      → Task Message
      → C
      → Router
      → (on_error : Bool) → Outcome (Strand Message Ec C T) (Impl Message Ec C T)
  launch server at_once task connection router on_error =
      dispatch b server at_once task
        (record { impl = init_context b connection router on_error; tasks = [] })

  on_handshake-started :
      (ec : Ec) (i : Impl Message Ec C T) → (on_handshake b ec i).started ≡ i.started
  unfolding on_handshake do_eof
  on_handshake-started ec i = ground arith

  module _ (at_once : Bool) (connection : C) (router : Router) (on_error : Bool) where
    -- `recv` is for servers, `send` for clients.
    unfoldable pub session_recv : Outcome (Strand Message Ec C T) (Impl Message Ec C T)
    unfolding launch
    session_recv = launch true at_once recv connection router on_error

    unfoldable pub session_recv_for :
        (duration : ℕ) → Outcome (Strand Message Ec C T) (Impl Message Ec C T)
    unfolding launch
    session_recv_for duration = launch true at_once (recv_for duration) connection router on_error

    unfoldable pub session_send : Message → Outcome (Strand Message Ec C T) (Impl Message Ec C T)
    unfolding launch
    session_send request = launch false at_once (send request) connection router on_error

    unfoldable pub session_send_for :
        Message → (duration : ℕ) → Outcome (Strand Message Ec C T) (Impl Message Ec C T)
    unfolding launch
    session_send_for request duration =
        launch false at_once (send_for request duration) connection router on_error

    unfoldable pub ssl_recv : Outcome (Strand Message Ec C T) (Impl Message Ec C T)
    unfolding launch
    ssl_recv = launch true at_once (handshake recv) connection router on_error

    unfoldable pub ssl_recv_for :
        (duration : ℕ) → Outcome (Strand Message Ec C T) (Impl Message Ec C T)
    unfolding launch
    ssl_recv_for duration =
        launch true at_once (handshake (recv_for duration)) connection router on_error

    unfoldable pub ssl_send : Message → Outcome (Strand Message Ec C T) (Impl Message Ec C T)
    unfolding launch
    ssl_send request = launch false at_once (handshake (send request)) connection router on_error

  -- A TLS server whose first call runs at once starts the handshake and nothing else. Once the
  -- handshake is over: if it has failed, nothing more was started; if it has succeeded, what a plain
  -- server starts at once, the wait for the timer and the read.
  pub ssl_recv_for-started :
      (connection : C) (router : Router) (on_error : Bool) (duration : ℕ) (ec : Ec)
      (s p : Strand Message Ec C T) (i : Impl Message Ec C T)
      → ssl_recv_for true connection router on_error duration ≡ done s
      → session_recv_for true connection router on_error duration ≡ done p
      → handshake_done b true ec (recv_for duration) s.impl ≡ done i
      → (s.impl.started ≡ handshakes true (recv_for duration) ∷ [])
        × (p.impl.started ≡ waits ∷ reads ∷ [])
        × (i.started ≡ (if b.failed ec then s.impl.started else s.impl.started ++ p.impl.started))
  unfolding ssl_recv_for session_recv_for dispatch run_task init_context do_handshake do_timer
      do_read handshake_done
  ssl_recv_for-started connection router on_error duration ec s p i e f h =
      let kept = on_handshake-started ec s.impl in
      (ground arith, ground arith, ground (arith, kept))
