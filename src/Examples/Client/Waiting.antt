-- ===== src/Examples/Client/Waiting.antt =====
-- How examples/client/main.cpp waits for its response.
use beast_router.Base.{Bool, ℕ, suc, ◌≡◌, refl, ◌∙◌, sym, ap, true, false, [], ◌∷◌}
use beast_router.Base.Outcome.{Outcome, done, ◌>>=◌, bind_assoc}
use beast_router.Base.Dict.{string_eq}
use beast_router.HttpUtility.{MessageOps}
use beast_router.Router.{Verb, Router}
use beast_router.Timer.{expires_from_now, async_wait, cancel}
use beast_router.Session.{
  Boost, Impl, send_for, recv_for, reads, writes, waits, on_write, init_context, run_task, do_timer,
  do_write, do_read,
}
use beast_router.ConnQueue.{push, do_handle}
use beast_router.Session.Context.{Strand, dispatch, drain}
use beast_router.Session.Launch.{session_send_for}
use beast_router.Session.Timeouts.{send_for-recv_for}
use beast_router.Examples.Client.{request, on_connect}

module _ {Message File Ec C T : Type 0} (ops : MessageOps Message Verb File Ec)
    (b : Boost Message Ec C T) where
  -- What the strand makes of the two calls, whether they run at once or are queued.
  on_connect-run :
      (at_once : Bool) (one_second : ℕ) (connection : C) (router : Router)
      → (on_connect ops b one_second at_once connection router >>= drain b false) ≡ (
          run_task b false
            (send_for (request ops) one_second)
            (init_context b connection router true)
          >>= λ i. run_task b false (recv_for one_second) i >>= λ j.
              done (record { impl = j; tasks = [] }))
  unfolding on_connect session_send_for dispatch drain run_task init_context do_timer do_write
      do_read push do_handle
  on_connect-run true one_second connection router = refl
  on_connect-run false one_second connection router = refl

  -- `pending` counts the waits of the timer that have not ended. If a wait adds to them, and setting the
  -- expiry or cancelling ends them all, then the client's session, once its strand has run the two
  -- calls, has its write and its read in flight with one wait pending. When the write completes without
  -- an error, of a request that does not need the end of the stream, no wait is pending any more and
  -- nothing new is started: the read is left without its timeout.
  pub on_connect-unbounded :
      (pending : T → ℕ) (at_once : Bool) (one_second : ℕ) (connection : C) (router : Router)
      (ec : Ec)
      → ((t : T) → pending (async_wait b.timer t) ≡ suc (pending t))
      → ((d : ℕ) (t : T) → pending (expires_from_now b.timer d t).1 ≡ 0)
      → ((t : T) → pending (cancel b.timer t).1 ≡ 0)
      → b.need_eof (request ops) ≡ false
      → b.failed ec ≡ false
      → b.is_end_of_stream ec ≡ false
      → (j : Impl Message Ec C T) × (k : Impl Message Ec C T) × ((on_connect ops b one_second
              at_once connection router
            >>= drain b false)
          ≡ done (record { impl = j; tasks = [] }))
        × (j.started ≡ waits ∷ writes (request ops) false ∷ waits ∷ reads ∷ [])
        × (pending j.m_timer ≡ 1)
        × (on_write b ec false j ≡ done k)
        × (k.started ≡ j.started)
        × (pending k.m_timer ≡ 0)
  unfolding init_context
  on_connect-unbounded pending at_once one_second connection router ec wait expire ends plain f n =
      let i = init_context b connection router true in
      let finished : Impl Message Ec C T → Outcome (Strand Message Ec C T) (Impl Message Ec C T) =
        λ j. done (record { impl = j; tasks = [] }) in
      let (j, k, both, started, one, written, same, empty, zero_left) =
        send_for-recv_for b pending false (request ops) one_second one_second ec i wait expire ends
          refl f n in
      (
        j,
        k,
        on_connect-run at_once one_second connection router
            ∙ sym (bind_assoc (run_task b false (send_for (request ops) one_second) i) _ _)
            ∙ ap (λ o. o >>= finished) both,
        started ∙ rw plain refl,
        one,
        written,
        same,
        zero_left,
      )
