-- ===== src/Examples/TimeCounter/Connections.antt =====
-- A connection of examples/time-counter/main.cpp from its start to its last operation.
use beast_router.Base.{ℕ, ◌≡◌, ◌≢◌, refl, Bool, true, false, String, [], ◌∷◌, ◌++◌, some, none}
use beast_router.Base.Outcome.{done, ◌>>=◌}
use beast_router.HttpUtility.{MessageOps, Status}
use beast_router.Router.{Verb, get, Router}
use beast_router.Dispatcher.{Env}
use beast_router.Dispatcher.Requests.{IsWalk}
use beast_router.Session.{
  Boost, Impl, reads, writes, waits, init_context, do_read, do_timer, do_write, on_read, on_write,
  run_task, cancel_timer,
}
use beast_router.Session.Context.{dispatch, drain}
use beast_router.Session.Launch.{session_recv_for}
use beast_router.Session.Progress.{on_write-continued}
use beast_router.Session.Serving.{Served, serve}
use beast_router.Examples.TimeCounter.{accept_socket}
use beast_router.Examples.TimeCounter.Pages.{Page, pattern, respond, table, on_read-respond}

module _ {Message File Ec C T Ctx Match Regex : Type 0} (b : Boost Message Ec C T)
    (ops : MessageOps Message Verb File Ec) (version : Message → ℕ) (result : Message → Status)
    (doc_base_path : String) (env : Env Message Ctx Match (Served Message Ec C T) Regex)
    (now : String) where
  accept_socket-run :
      (at_once : Bool) (one_second : ℕ) (socket : C) (router : Router) (on_error : Bool)
      → (accept_socket b one_second at_once socket router on_error >>= drain b true)
        ≡ done (record {
          impl = do_read b (do_timer b one_second (init_context b socket router on_error));
          tasks = [];
        })
  unfolding accept_socket session_recv_for dispatch drain run_task
  accept_socket-run true one_second socket router on_error = refl
  accept_socket-run false one_second socket router on_error = refl

  -- The three patterns compile, and the walk over the resources visits each once. A new connection has
  -- a read in flight, with a wait for the timer. If that read gives, without an error, a GET request
  -- whose target one of the patterns matches and the others do not, the one write that is then started is
  -- that of the response of that page, and once it has completed without an error, if the response does
  -- not need the end of the stream, the queue is empty, nothing was reported and nothing new is started:
  -- a connection serves one request.
  pub accept_socket-serves_one :
      (at_once : Bool) (one_second : ℕ) (socket : C) (router : Router) (on_error : Bool)
      (re : Page → Regex) (p : Page) (rq : Message) (m : Match) (ec written : Ec)
      → IsWalk env
      → ((q : Page) → env.regex (pattern q) ≡ some (re q))
      → env.method rq ≡ get
      → env.regex_match (env.target rq) (re p) ≡ some m
      → ((q : Page) → q ≢ p → env.regex_match (env.target rq) (re q) ≡ none)
      → b.failed ec ≡ false
      → b.is_end_of_stream ec ≡ false
      → b.failed written ≡ false
      → b.is_end_of_stream written ≡ false
      → b.need_eof (respond b ops version result doc_base_path env now p rq) ≡ false
      → let rp = respond b ops version result doc_base_path env now p rq in
        (i : Impl Message Ec C T) × (j : Impl Message Ec C T) × (k : Impl Message Ec C T)
        × ((accept_socket b one_second at_once socket router on_error >>= drain b true)
            ≡ done (record { impl = i; tasks = [] }))
        × (i.started ≡ waits ∷ reads ∷ [])
        × (on_read b
              (serve b ops version env (table b ops version result doc_base_path env now))
              ec
              rq
              i
            ≡ done j)
        × (j.started ≡ i.started ++ writes rp false ∷ [])
        × (on_write b written false j ≡ done k)
        × (k.started ≡ j.started)
        × (k.m_queue ≡ [])
        × (k.reports ≡ [])
  unfolding init_context do_read do_timer do_write
  accept_socket-serves_one at_once one_second socket router on_error re p rq m ec written walk c g e
        f fine no_end fine' no_end' plain =
      let rp = respond b ops version result doc_base_path env now p rq in
      let i = do_read b (do_timer b one_second (init_context b socket router on_error)) in
      let j : Impl Message Ec C T = record (do_write b rp (cancel_timer b i)) {
        m_queue = rp ∷ [];
      } in
      (
        i,
        j,
        record (cancel_timer b j) { m_queue = [] },
        accept_socket-run at_once one_second socket router on_error,
        refl,
        on_read-respond b ops version result doc_base_path env now re p rq m ec i walk c g e f fine
            no_end,
        rw plain refl,
        on_write-continued b written j rp [] refl fine' no_end',
        refl,
        refl,
        refl,
      )
