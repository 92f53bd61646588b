-- ===== src/Examples/HelloWorld.antt =====
-- examples/hello-world/main.cpp and examples/ssl/hello-world/main.cpp: a server that counts its requests.
pub mod Connections
pub mod Counting
use Prim.Native.Nat.{◌%◌, ◌^◌}
use Prim.Native.String.{◌++◌}
use beast_router.Base.{ℕ, ◌+◌, Bool, true, String, List, [], ◌∷◌}
use beast_router.Base.Outcome.{Outcome, done, threw, undefined, ◌>>=◌}
use beast_router.Utility.{closure, void_type}
use beast_router.HttpUtility.{MessageOps, ok, make_string_response}
use beast_router.Storage.{Handler, on_message}
use beast_router.Router.{Verb, Registration, gets, MethodMap, Router}
use beast_router.Dispatcher.{Env, process_request}
use beast_router.Session.{Boost, Impl, send, run_task}
use beast_router.Session.Serving.{Served, send_not_found}
use beast_router.Session.Context.{Strand}
use beast_router.Session.Launch.{session_recv_for, ssl_recv_for}

-- The counter is one for the program. `S` is what else the handlers change: the session.
pub record World (S : Type 0) : Type 0 where
  pub counter : ℕ
  pub session : S

module _ {Message File Ec C T Ctx : Type 0} (b : Boost Message Ec C T)
    (ops : MessageOps Message Verb File Ec) (version : Message → ℕ) where
  -- The handler of the router's constructor, which leaves the counter alone.
  unfoldable pub not_found_of :
      Message → Ctx → World (Served Message Ec C T) → Ctx × World (Served Message Ec C T)
  unfolding send_not_found
  not_found_of rq ctx w =
      let (ctx', session) = send_not_found b ops version rq ctx w.session in
      (ctx', record w { session = session })

module _ {Message Ec C T : Type 0} where
  -- The session, for which the program's counter is of no account.
  abbrev pub served_session :
      Outcome (World (Served Message Ec C T)) (World (Served Message Ec C T))
      → Served Message Ec C T
  served_session (done w) = w.session
  served_session (threw w) = w.session >>= threw
  served_session undefined = undefined

  -- `session::impl::do_process_request` in a program that has counted `count` requests.
  unfoldable pub serve_counting :
      {Ctx Match Regex : Type 0}
      → Env Message Ctx Match (World (Served Message Ec C T)) Regex
      → MethodMap Message Ctx Match (World (Served Message Ec C T))
      → (count : ℕ) → Message
      → Impl Message Ec C T
      → Served Message Ec C T
  serve_counting env m count message i =
      served_session (process_request env m message (record { counter = count; session = done i }))

-- `keep_alive` and `version` read a request, `set_keep_alive` changes a response, and `show` writes a
-- number.
module _ {Message File Ec : Type 0} (ops : MessageOps Message Verb File Ec) (version : Message → ℕ)
    (keep_alive : Message → Bool) (set_keep_alive : Bool → Message → Message)
    (show : ℕ → String) where
  unfoldable pub hello : (count : ℕ) → Message → Message
  unfolding make_string_response
  hello count rq = set_keep_alive (keep_alive rq) (
      make_string_response ops ok (version rq)
        ("Hello World: the request was triggered [" ++ show count ++ "] times") "text/html")

  module _ {C T Ctx : Type 0} (b : Boost Message Ec C T) where
    -- The handler. The counter is a `uint64_t`.
    unfoldable pub on_index :
        Message → Ctx → World (Served Message Ec C T) → Bool × Ctx × World (Served Message Ec C T)
    on_index rq ctx w =
        let count = (w.counter + 1) % 2 ^ 64 in
        (
          true,
          ctx,
          record {
            counter = count;
            session = w.session >>= run_task b true (send (hello count rq));
          },
        )

    unfoldable pub routes :
        {Match : Type 0} → List (Registration Message Ctx Match (World (Served Message Ec C T)))
    routes =
        gets "^/$" (record { callable = closure void_type; func = on_message on_index } ∷ []) ∷ []

module _ {Message Ec C T : Type 0} (b : Boost Message Ec C T) where
  -- The handlers of a connection, `on_accept`. `one_second` is `1s`.
  unfoldable pub accept_socket :
      (one_second : ℕ) (at_once : Bool)
      → C
      → Router
      → (on_error : Bool) → Outcome (Strand Message Ec C T) (Impl Message Ec C T)
  unfolding session_recv_for
  accept_socket one_second at_once socket router on_error =
      session_recv_for b at_once socket router on_error one_second

  -- `socket` is the connection that is made of the socket and the TLS context.
  unfoldable pub ssl_accept_socket :
      (one_second : ℕ) (at_once : Bool)
      → C
      → Router
      → (on_error : Bool) → Outcome (Strand Message Ec C T) (Impl Message Ec C T)
  unfolding ssl_recv_for
  ssl_accept_socket one_second at_once socket router on_error =
      ssl_recv_for b at_once socket router on_error one_second
