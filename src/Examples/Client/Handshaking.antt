-- ===== src/Examples/Client/Handshaking.antt =====
-- The order in which examples/ssl/client/main.cpp starts its operations.
use beast_router.Base.{Bool, ℕ, ◌≡◌, refl, false, true, [], ◌∷◌, ◌++◌, arith}
use beast_router.Base.Outcome.{done, ◌>>=◌}
use beast_router.ConnQueue.{push_lem}
use beast_router.HttpUtility.{MessageOps}
use beast_router.Router.{Verb, Router}
use beast_router.Timer.{cancel}
use beast_router.Session.{
  Boost, Impl, send, reads, writes, waits, handshakes, init_context, do_handshake, do_timer,
  do_read, do_write, run_task, on_handshake, handshake_done, cancel_timer, as_queue,
}
use beast_router.Session.Context.{dispatch, drain}
use beast_router.Session.Launch.{ssl_send}
use beast_router.Examples.Client.{request, ssl_on_connect}

module _ {Message File Ec C T : Type 0} (ops : MessageOps Message Verb File Ec)
    (b : Boost Message Ec C T) where
  ssl_on_connect-run :
      (at_once : Bool) (one_second : ℕ) (connection : C) (router : Router)
      → (ssl_on_connect ops b one_second at_once connection router >>= drain b false)
        ≡ done (record {
          impl = do_read b (
              do_timer b one_second (
                do_handshake b false (send (request ops)) (init_context b connection router true)));
          tasks = [];
        })
  unfolding ssl_on_connect ssl_send dispatch drain run_task
  ssl_on_connect-run true one_second connection router = refl
  ssl_on_connect-run false one_second connection router = refl

  -- Once the strand has run the two calls, the read of the response is in flight beside the handshake,
  -- and nothing is written. When the handshake is over without an error, the write of the request is
  -- started behind the read, and the timer that the read was given is cancelled.
  pub ssl_on_connect-reads_first :
      (at_once : Bool) (one_second : ℕ) (connection : C) (router : Router) (ec : Ec)
      → b.failed ec ≡ false
      → b.is_end_of_stream ec ≡ false
      → (j : Impl Message Ec C T) × (k : Impl Message Ec C T) × ((ssl_on_connect ops b one_second
              at_once connection router
            >>= drain b false)
          ≡ done (record { impl = j; tasks = [] }))
        × (j.started ≡ handshakes false (send (request ops)) ∷ waits ∷ reads ∷ [])
        × (handshake_done b false ec (send (request ops)) j ≡ done k)
        × (k.started ≡ j.started ++ writes (request ops) (b.need_eof (request ops)) ∷ [])
        × (k.m_timer ≡ (cancel b.timer j.m_timer).1)
  unfolding ssl_on_connect ssl_send dispatch drain run_task init_context do_handshake do_timer
      do_read do_write on_handshake handshake_done
  ssl_on_connect-reads_first at_once one_second connection router ec f n =
      let j = do_read b (
        do_timer b one_second
          (do_handshake b false (send (request ops)) (init_context b connection router true))) in
      let c = cancel_timer b j in
      let pushed = push_lem (do_write b) (request ops) (as_queue b c) in
      (
        j,
        record (do_write b (request ops) c) { m_queue = request ops ∷ [] },
        ssl_on_connect-run at_once one_second connection router,
        refl,
        ground (arith, pushed),
        refl,
        refl,
      )
