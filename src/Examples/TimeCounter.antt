-- ===== src/Examples/TimeCounter.antt =====
-- examples/time-counter/main.cpp: a server of files below a directory, with a page that tells the time.
pub mod Targets
pub mod Files
pub mod Pages
pub mod Connections
use Prim.Native.String.{◌++◌}
use beast_router.Base.{ℕ, Bool, true, false, String, List, [], ◌∷◌, ◌||◌, not, if◌then◌else◌}
use beast_router.Base.Outcome.{Outcome, ◌>>=◌}
use beast_router.Utility.{ReturnType, closure, void_type, other_type}
use beast_router.HttpUtility.{
  MessageOps, Status, ok, not_found, bad_request, make_string_response, make_file_response,
  make_moved_response,
}
use beast_router.Storage.{Handler, on_message}
use beast_router.Router.{Verb, Registration, gets, Router}
use beast_router.Session.{Boost, Impl, send, run_task}
use beast_router.Session.Context.{Strand}
use beast_router.Session.Launch.{session_recv_for}
use beast_router.Session.Serving.{Served}
use beast_router.Examples.TimeCounter.Targets.{is_illegal}

abbrev pub is_ok : Status → Bool
is_ok ok = true
is_ok _ = false

module _ {Message Ec C T Ctx Match : Type 0} (b : Boost Message Ec C T) where
  -- A handler that sends the response `f` makes. The first returns what `send` returns, a context, and
  -- the others nothing.
  abbrev pub sends_back :
      ReturnType → (f : Message → Message) → Handler Message Ctx Match (Served Message Ec C T)
  sends_back type f = record {
    callable = closure type;
    func = on_message (λ rq ctx w. (true, ctx, w >>= run_task b true (send (f rq))));
  }

-- `version` and `target` read a request, `result` the status of a response. `doc_base_path` is set by
-- the build.
module _ {Message File Ec : Type 0} (ops : MessageOps Message Verb File Ec)
    (version : Message → ℕ) where
  unfoldable pub move_to_index : Message → Message
  move_to_index rq = make_moved_response ops (version rq) "/index.html"

  -- `now` is what the clock says, as text.
  unfoldable pub tell_time : (now : String) → Message → Message
  tell_time now rq = make_string_response ops ok (version rq) now "text/html"

  module _ (result : Message → Status) (target : Message → String) (doc_base_path : String) where
    -- The response of the first handler. An empty target does not start with a slash.
    unfoldable pub serve_file : Message → Message
    serve_file rq =
        if is_illegal (target rq)
        then make_string_response ops bad_request (version rq) "Illegal request-target" "text/html"
        else let rp = make_file_response ops (version rq) (doc_base_path ++ target rq) in
          if is_ok (result rp)
          then rp
          else make_string_response ops not_found (version rq) "Not Found" "text/html"

    -- The three calls of `router.get`.
    unfoldable pub routes :
        {C T Ctx Match : Type 0}
        → (b : Boost Message Ec C T) → (now : String)
        → List (Registration Message Ctx Match (Served Message Ec C T))
    routes b now =
        gets "^.*\\.(js|html|css)$" (sends_back b other_type serve_file ∷ [])
        ∷ gets "^/$" (sends_back b void_type move_to_index ∷ [])
        ∷ gets "^/update$" (sends_back b void_type (tell_time now) ∷ [])
        ∷ []

module _ {Message Ec C T : Type 0} (b : Boost Message Ec C T) where
  -- `main`'s handler of a connection, `on_accept`. `one_second` is `1s`.
  unfoldable pub accept_socket :
      (one_second : ℕ) (at_once : Bool)
      → C
      → Router
      → (on_error : Bool) → Outcome (Strand Message Ec C T) (Impl Message Ec C T)
  unfolding session_recv_for
  accept_socket one_second at_once socket router on_error =
      session_recv_for b at_once socket router on_error one_second
