-- ===== src/Examples/Client.antt =====
-- examples/client/main.cpp and examples/ssl/client/main.cpp: a request is sent, and the event loop is
-- stopped by the response or by an error.
pub mod Answering
pub mod Connecting
pub mod Finishing
pub mod Following
pub mod Promises
pub mod Calling
pub mod Ending
pub mod Reaching
pub mod Running
pub mod Told
pub mod Waiting
pub mod Handshaking
use beast_router.Base.{ℕ, Bool, true, false, String, List, [], ◌∷◌}
use beast_router.Base.Outcome.{Outcome, ◌>>=◌}
use beast_router.EventLoop.{IoContext, EventLoop, stop_by}
use beast_router.Utility.{closure, void_type}
use beast_router.HttpUtility.{MessageOps, host, user_agent, accept}
use beast_router.Storage.{Handler, on_message}
use beast_router.Router.{Verb, get, Registration, handles_response, Router}
use beast_router.Session.{Boost, Impl, recv_for}
use beast_router.Session.Context.{Strand, dispatch}
use beast_router.Session.Launch.{session_send_for, ssl_send}

module _ {Message File Ec : Type 0} (ops : MessageOps Message Verb File Ec) where
  unfoldable pub request : Message
  request =
      ops.set accept "*/*"
        (ops.set user_agent "curl" (ops.set host "wttr.in" (ops.request get 11 "/")))

  -- The handler of the connection, `on_connect`. The router is that of the call of `handle_response`.
  unfoldable pub on_connect :
      {C T : Type 0}
      → Boost Message Ec C T
      → (one_second : ℕ) → (at_once : Bool) → C
      → Router
      → Outcome (Strand Message Ec C T) (Impl Message Ec C T)
  unfolding session_send_for dispatch
  on_connect b one_second at_once connection router =
      session_send_for b at_once connection router true request one_second
      >>= dispatch b false at_once (recv_for one_second)

  -- The same over TLS.
  unfoldable pub ssl_on_connect :
      {C T : Type 0}
      → Boost Message Ec C T
      → (one_second : ℕ) → (at_once : Bool) → C
      → Router
      → Outcome (Strand Message Ec C T) (Impl Message Ec C T)
  unfolding ssl_send dispatch
  ssl_on_connect b one_second at_once connection router =
      ssl_send b at_once connection router true request
      >>= dispatch b false at_once (recv_for one_second)

-- An event loop that was stopped, or on which stopping it has failed.
abbrev pub Stopping : (L : Type 0) → Type 0
Stopping L = Outcome (EventLoop L) (EventLoop L)

-- `in_group` tells whether the handler runs on a thread of the event loop's group, and not on the one
-- that has called `exec`. The programs make event loops without such threads.
module _ {L Ec Code : Type 0} (io : IoContext L Ec Code) (in_group : Bool) where
  -- The two handlers, which print and stop the event loop.
  unfoldable pub on_response :
      {Message Ctx : Type 0} → Message → Ctx → Stopping L → Bool × Ctx × Stopping L
  unfolding stop_by
  on_response rp ctx w = (true, ctx, w >>= stop_by io in_group)

  unfoldable pub on_error : {Message : Type 0} → Ec → Message → EventLoop L → Stopping L
  unfolding stop_by
  on_error ec msg l = stop_by io in_group l

  unfoldable pub routes :
      {Message Ctx Match : Type 0} → List (Registration Message Ctx Match (Stopping L))
  routes =
      handles_response (record { callable = closure void_type; func = on_message on_response } ∷ [])
      ∷ []
