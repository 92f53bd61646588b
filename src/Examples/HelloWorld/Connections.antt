-- ===== src/Examples/HelloWorld/Connections.antt =====
-- A connection of examples/ssl/hello-world/main.cpp from its start to its last operation.
use Prim.Native.Nat.{◌%◌, ◌^◌}
use beast_router.Base.{
  ℕ, suc, ◌+◌, ◌<◌, ◌≡◌, refl, ap, ◌∙◌, Bool, true, false, String, [], ◌∷◌, ◌++◌, some, arith,
}
use beast_router.Base.Outcome.{done, ◌>>=◌}
use beast_router.HttpUtility.{MessageOps}
use beast_router.Router.{Verb, Router}
use beast_router.ConnQueue.{push_lem}
use beast_router.Dispatcher.{Env}
use beast_router.Dispatcher.Requests.{IsWalk}
use beast_router.Session.{
  Boost, Impl, send, recv_for, reads, writes, waits, handshakes, init_context, do_read, do_timer,
  do_write, do_handshake, on_handshake, on_read, on_write, run_task, cancel_timer, handshake_done,
  as_queue,
}
use beast_router.Session.Context.{dispatch, drain}
use beast_router.Session.Progress.{on_write-continued}
use beast_router.Session.Serving.{Served}
use beast_router.Examples.HelloWorld.{
  World, hello, on_index, served_session, serve_counting, ssl_accept_socket,
}
use beast_router.Examples.HelloWorld.Counting.{table, IsIndex, process_request-index}

module _ {Message File Ec C T Ctx Match Regex : Type 0} (b : Boost Message Ec C T)
    (ops : MessageOps Message Verb File Ec) (version : Message → ℕ) (keep_alive : Message → Bool)
    (set_keep_alive : Bool → Message → Message) (show : ℕ → String)
    (env : Env Message Ctx Match (World (Served Message Ec C T)) Regex) where
  -- The greeting that follows `count` others.
  abbrev pub greeting : (count : ℕ) → Message → Message
  greeting count rq = hello ops version keep_alive set_keep_alive show (suc count) rq

  abbrev pub respond : (count : ℕ) → Message → Impl Message Ec C T → Served Message Ec C T
  respond count = serve_counting env (table b ops version keep_alive set_keep_alive show env) count

  respond-greeting :
      (re : Regex) (count : ℕ) (rq : Message) (i : Impl Message Ec C T)
      → IsWalk env
      → env.regex "^/$" ≡ some re
      → IsIndex b ops version keep_alive set_keep_alive show env re rq
      → suc count < 2 ^ 64
      → respond count rq i ≡ run_task b true (send (greeting count rq)) i
  unfolding serve_counting on_index
  respond-greeting re count rq i walk c index below =
      let next : (count + 1) % 2 ^ 64 ≡ suc count = omega arith in
      ap served_session (
        process_request-index b ops version keep_alive set_keep_alive show env re rq
          (record { counter = count; session = done i }) walk c index)
      ∙ ap (λ n. run_task b true (send (hello ops version keep_alive set_keep_alive show n rq)) i)
          next

  on_read-greeting :
      (re : Regex) (count : ℕ) (rq : Message) (ec : Ec) (i : Impl Message Ec C T)
      → IsWalk env
      → env.regex "^/$" ≡ some re
      → IsIndex b ops version keep_alive set_keep_alive show env re rq
      → suc count < 2 ^ 64
      → b.failed ec ≡ false
      → b.is_end_of_stream ec ≡ false
      → i.m_queue ≡ []
      → on_read b (respond count) ec rq i
        ≡ done (record (do_write b (greeting count rq) (cancel_timer b i)) {
          m_queue = greeting count rq ∷ [];
        })
  unfolding on_read run_task
  on_read-greeting re count rq ec i walk c index below fine no_end empty = ground (
    arith,
    respond-greeting re count rq (cancel_timer b i) walk c index below,
    push_lem (do_write b) (greeting count rq) (as_queue b (cancel_timer b i)),
  )

  ssl_accept_socket-run :
      (at_once : Bool) (one_second : ℕ) (socket : C) (router : Router) (on_error : Bool)
      → (ssl_accept_socket b one_second at_once socket router on_error >>= drain b true)
        ≡ done (record {
          impl = do_handshake b true (recv_for one_second) (init_context b socket router on_error);
          tasks = [];
        })
  unfolding ssl_accept_socket dispatch drain run_task
  ssl_accept_socket-run true one_second socket router on_error = refl
  ssl_accept_socket-run false one_second socket router on_error = refl

  -- The pattern compiles, and the walk over the resources visits each once. A new connection has the
  -- handshake in flight and nothing else. If it completes without an error, a read is started with a wait
  -- for the timer. If that read gives, without an error, a GET request for the page, the one write that is
  -- then started is that of the greeting with the number that follows the counter, which is not about to
  -- wrap; and once it has completed without an error, if the greeting does not need the end of the
  -- stream, the queue is empty, nothing was reported and nothing new is started.
  pub ssl_accept_socket-greets :
      (at_once : Bool) (one_second : ℕ) (socket : C) (router : Router) (on_error : Bool)
      (re : Regex) (count : ℕ) (rq : Message) (shaken ec written : Ec)
      → IsWalk env
      → env.regex "^/$" ≡ some re
      → IsIndex b ops version keep_alive set_keep_alive show env re rq
      → suc count < 2 ^ 64
      → b.failed shaken ≡ false
      → b.is_end_of_stream shaken ≡ false
      → b.failed ec ≡ false
      → b.is_end_of_stream ec ≡ false
      → b.failed written ≡ false
      → b.is_end_of_stream written ≡ false
      → b.need_eof (greeting count rq) ≡ false
      → (i : Impl Message Ec C T) × (j : Impl Message Ec C T) × (k : Impl Message Ec C T)
        × (l : Impl Message Ec C T) × ((ssl_accept_socket b one_second at_once socket router
                on_error
              >>= drain b true)
            ≡ done (record { impl = i; tasks = [] }))
        × (i.started ≡ handshakes true (recv_for one_second) ∷ [])
        × (handshake_done b true shaken (recv_for one_second) i ≡ done j)
        × (j.started ≡ i.started ++ waits ∷ reads ∷ [])
        × (on_read b (respond count) ec rq j ≡ done k)
        × (k.started ≡ j.started ++ writes (greeting count rq) false ∷ [])
        × (on_write b written false k ≡ done l)
        × (l.started ≡ k.started)
        × (l.m_queue ≡ [])
        × (l.reports ≡ [])
  unfolding run_task init_context do_handshake do_read do_timer do_write handshake_done on_handshake
  ssl_accept_socket-greets at_once one_second socket router on_error re count rq shaken ec written
        walk c index below shook shook_on fine no_end fine' no_end' plain =
      let rp = greeting count rq in
      let i = do_handshake b true (recv_for one_second) (init_context b socket router on_error) in
      let j = do_read b (do_timer b one_second (cancel_timer b i)) in
      let k : Impl Message Ec C T = record (do_write b rp (cancel_timer b j)) {
        m_queue = rp ∷ [];
      } in
      (
        i,
        j,
        k,
        record (cancel_timer b k) { m_queue = [] },
        ssl_accept_socket-run at_once one_second socket router on_error,
        refl,
        rw (shook, shook_on) refl,
        refl,
        on_read-greeting re count rq ec j walk c index below fine no_end refl,
        rw plain refl,
        on_write-continued b written k rp [] refl fine' no_end',
        refl,
        refl,
        refl,
      )
