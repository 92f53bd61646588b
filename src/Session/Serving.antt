-- ===== src/Session/Serving.antt =====
-- A session with its dispatcher: `do_process_request` (include/beast_router/impl/session.ipp), with
-- the handlers' effects on the session that serves the request, and `not_found_handler`
-- (include/beast_router/router.hpp) sending through its context.
use beast_router.Base.{
  ◌≢◌, refl, ℕ, ◌≡◌, ap, ◌∙◌, true, false, List, [], ◌∷◌, ◌++◌, none, some, arith,
}
use beast_router.Base.Outcome.{Outcome, done, threw, undefined, ◌>>=◌}
use beast_router.Base.Dict.{string_eq}
use beast_router.HttpUtility.{MessageOps, not_found, make_string_response}
use beast_router.Storage.{storage}
use beast_router.Storage.Laws.{begin_execute-storage}
use beast_router.Router.{
  Verb, unknown, verb_eq, MethodMap, Registration, register_all, initial, default_not_found,
  not_founds, not_found_handler,
}
use beast_router.Router.Tables.{
  resources, registered, last_for, registered-register_all, register_all-initial-IsServer,
}
use beast_router.Dispatcher.{Env, process_request}
use beast_router.Dispatcher.Matching.{is_nonempty, run_hits, Compile, hits}
use beast_router.Dispatcher.Requests.{IsWalk, run_unknown, process_request-hits}
use beast_router.ConnQueue
use beast_router.ConnQueue.{push_lem}
use beast_router.Session.{
  report_if, send, Boost, Impl, do_write, run_task, on_read, cancel_timer, as_queue, lift_queue,
}

ne-nil-is_nonempty : {A : Type 0} (l : List A) → l ≢ [] → is_nonempty l ≡ true
ne-nil-is_nonempty [] h = absurd (h refl)
ne-nil-is_nonempty (x ∷ l) h = refl

-- What the handlers of a session's request change: the session.
abbrev pub Served : (Message Ec C T : Type 0) → Type 0
Served Message Ec C T = Outcome (Impl Message Ec C T) (Impl Message Ec C T)

module _ {Message Ec C T : Type 0} where
  -- An exception of the dispatcher leaves the session as the handlers before it did.
  abbrev pub served :
      Outcome (Served Message Ec C T) (Served Message Ec C T) → Served Message Ec C T
  served (done w) = w
  served (threw w) = w >>= threw
  served undefined = undefined

module _ {Message File Ec C T : Type 0} (b : Boost Message Ec C T)
    (ops : MessageOps Message Verb File Ec) (version : Message → ℕ) where
  unfoldable pub not_found_response : Message → Message
  unfolding make_string_response
  not_found_response rq = make_string_response ops not_found (version rq) "Not Found" "text/html"

  -- `ctx.send(...)` from the strand of the session.
  unfoldable pub send_not_found :
      {Ctx : Type 0} → Message → Ctx → Served Message Ec C T → Ctx × Served Message Ec C T
  unfolding not_found_response run_task
  send_not_found rq ctx w = (ctx, w >>= run_task b true (send (not_found_response rq)))

  module _ {Ctx Match Regex : Type 0}
      (env : Env Message Ctx Match (Served Message Ec C T) Regex) where
    -- `session::impl::do_process_request` of a server with the table `m`.
    unfoldable pub serve :
        MethodMap Message Ctx Match (Served Message Ec C T)
        → Message
        → Impl Message Ec C T
        → Served Message Ec C T
    unfolding process_request
    serve m message i = served (process_request env m message (done i))

    -- The table of a server on which the program has called `rs`.
    abbrev pub server_table :
        List (Registration Message Ctx Match (Served Message Ec C T))
        → MethodMap Message Ctx Match (Served Message Ec C T)
    server_table rs = register_all rs (initial send_not_found true)

    initial-registered :
        registered unknown "" (server_table []) ≡ some (storage (default_not_found send_not_found))
    unfolding initial register_all
    initial-registered =
        registered-register_all (not_founds (default_not_found send_not_found) ∷ []) unknown "" []

    -- The chain for what is not found, where the program has registered none of its own.
    run_unknown-default :
        (rs : List (Registration Message Ctx Match (Served Message Ec C T))) (message : Message)
        (w : Served Message Ec C T)
        → last_for unknown "" rs ≡ none
        → run_unknown env (server_table rs) message w ≡ (send_not_found message env.fresh w).1
    unfolding not_found_handler register_all
    run_unknown-default rs message w e =
        let chain : registered unknown "" (server_table rs)
            ≡ some (storage (default_not_found send_not_found)) =
          registered-register_all rs unknown "" (initial send_not_found true)
          ∙ rw e initial-registered in
        rw (run_unknown, chain)
          (ap (λ r. r.2)
            (begin_execute-storage (default_not_found send_not_found) message env.fresh env.no_match
              w))

    serve-not_found :
        (rs : List (Registration Message Ctx Match (Served Message Ec C T))) (message : Message)
        (i : Impl Message Ec C T)
        → IsWalk env
        → last_for unknown "" rs ≡ none
        → Compile env (resources (env.method message) (server_table rs))
        → hits env message (resources (env.method message) (server_table rs)) ≡ []
        → serve (server_table rs) message i
          ≡ lift_queue b (ConnQueue.push (do_write b) (not_found_response message) (as_queue b i))
    unfolding serve send_not_found run_task
    serve-not_found rs message i walk own c none_hit =
        let answer =
          process_request-hits env walk (server_table rs)
            (register_all-initial-IsServer send_not_found rs) message (done i) c in
        let same : process_request env (server_table rs) message (done i)
            ≡ done (run_unknown env (server_table rs) message (done i)) =
          ground (arith, answer.0, none_hit) in
        ap served same ∙ run_unknown-default rs message (done i) own

    -- A request that a server has read without an error, and for which no resource of its method
    -- matches, is answered: the response 404 is put behind the messages that wait in the session's
    -- queue, and is written at once if there are none. The patterns of the method's resources compile,
    -- the walk visits each resource once, and the program has registered no handler of its own for
    -- this case.
    pub on_read-not_found :
        (rs : List (Registration Message Ctx Match (Served Message Ec C T))) (ec : Ec)
        (message : Message) (i : Impl Message Ec C T)
        → IsWalk env
        → last_for unknown "" rs ≡ none
        → Compile env (resources (env.method message) (server_table rs))
        → hits env message (resources (env.method message) (server_table rs)) ≡ []
        → b.failed ec ≡ false
        → b.is_end_of_stream ec ≡ false
        → let c = cancel_timer b i in
          on_read b (serve (server_table rs)) ec message i ≡ elim i.m_queue [
            | [] ↦ done (record (do_write b (not_found_response message) c) {
              m_queue = not_found_response message ∷ [];
            })
            | m ∷ rest ↦ done (record c { m_queue = m ∷ (rest ++ not_found_response message ∷ []) })
          ]
    unfolding on_read
    on_read-not_found rs ec message i walk own c none_hit f e =
        let c' = cancel_timer b i in
        let answer = serve-not_found rs message c' walk own c none_hit in
        let pushed = push_lem (do_write b) (not_found_response message) (as_queue b c') in
        ground (arith, answer, pushed)

    -- A request that a server has read, on a table whose patterns for its method compile, and that some
    -- resource of its method matches: the session that results is what the chains that match make, in
    -- the order of the walk, of the session with its timer cancelled. They also run after a read that has
    -- failed, unless at the end of the stream, behind the report of the error to a handler that is set.
    pub on_read-hits :
        (rs : List (Registration Message Ctx Match (Served Message Ec C T))) (ec : Ec)
        (message : Message) (i : Impl Message Ec C T)
        → IsWalk env
        → Compile env (resources (env.method message) (server_table rs))
        → hits env message (resources (env.method message) (server_table rs)) ≢ []
        → b.is_end_of_stream ec ≡ false
        → on_read b (serve (server_table rs)) ec message i
          ≡ run_hits env message
              (hits env message (env.iterate (resources (env.method message) (server_table rs))))
              (done (report_if b (b.failed ec) ec "async_read/on_read" (cancel_timer b i)))
    unfolding on_read serve
    on_read-hits rs ec message i walk c some_hit e =
        let before = report_if b (b.failed ec) ec "async_read/on_read" (cancel_timer b i) in
        let answer =
          process_request-hits env walk (server_table rs)
            (register_all-initial-IsServer send_not_found rs) message (done before) c in
        let hit =
          ne-nil-is_nonempty (hits env message (resources (env.method message) (server_table rs)))
            some_hit in
        ground (arith, answer.0, hit)
