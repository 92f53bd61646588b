-- ===== src/Session/Timeouts.antt =====
-- The one timer of a session (include/beast_router/impl/session.ipp) under calls that overlap: a timed
-- send and a timed receive, as in examples/client/main.cpp.
use beast_router.Base.{ℕ, suc, ◌≡◌, refl, ap, ◌∙◌, Bool, false, [], ◌∷◌, ◌++◌, arith}
use beast_router.Base.Outcome.{done, ◌>>=◌}
use mathlib.Core.List.{append_assoc}
use beast_router.ConnQueue.{push_lem}
use beast_router.Session.Progress.{on_write-continued}
use beast_router.Timer.{expires_from_now, async_wait, cancel}
use beast_router.Session.{
  send_for, recv_for, reads, writes, waits, Boost, Impl, do_write, do_timer, do_read, on_write,
  run_task, cancel_timer, as_queue,
}

module _ {Message Ec C T : Type 0} (b : Boost Message Ec C T) where
  -- The session without messages after both calls.
  abbrev both_called : Message → (first second : ℕ) → Impl Message Ec C T → Impl Message Ec C T
  both_called m first second i =
      do_read b
        (do_timer b second (record (do_write b m (do_timer b first i)) { m_queue = m ∷ [] }))

  send_for-recv_for-both_called :
      (server : Bool) (m : Message) (first second : ℕ) (i : Impl Message Ec C T)
      → i.m_queue ≡ []
      → (run_task b server (send_for m first) i >>= run_task b server (recv_for second))
        ≡ done (both_called m first second i)
  unfolding run_task do_timer
  send_for-recv_for-both_called server m first second i e =
      ground (arith, push_lem (do_write b) m (as_queue b (do_timer b first i)))

  -- `pending` counts the waits of the timer that have not ended. If a wait adds to them, and setting the
  -- expiry or cancelling ends them all, then a session without messages on which a timed send and a
  -- timed receive are called has its write and its read in flight with one wait pending, that of the
  -- receive. When the write completes without an error, of a message that does not need the end of the
  -- stream, no wait is pending any more, and the read is left without its timeout.
  pub send_for-recv_for :
      (pending : T → ℕ) (server : Bool) (m : Message) (first second : ℕ) (ec : Ec)
      (i : Impl Message Ec C T)
      → ((t : T) → pending (async_wait b.timer t) ≡ suc (pending t))
      → ((d : ℕ) (t : T) → pending (expires_from_now b.timer d t).1 ≡ 0)
      → ((t : T) → pending (cancel b.timer t).1 ≡ 0)
      → i.m_queue ≡ []
      → b.failed ec ≡ false
      → b.is_end_of_stream ec ≡ false
      → (j : Impl Message Ec C T) × (k : Impl Message Ec C T) × ((run_task b server
              (send_for m first)
              i
            >>= run_task b server (recv_for second))
          ≡ done j)
        × (j.started ≡ i.started ++ waits ∷ writes m (b.need_eof m) ∷ waits ∷ reads ∷ [])
        × (pending j.m_timer ≡ 1)
        × (on_write b ec false j ≡ done k)
        × (k.started ≡ j.started)
        × (k.m_queue ≡ [])
        × (pending k.m_timer ≡ 0)
  unfolding do_timer do_read do_write
  send_for-recv_for pending server m first second ec i wait expire ends e f n =
      let j = both_called m first second i in
      (
        j,
        record (cancel_timer b j) { m_queue = [] },
        send_for-recv_for-both_called server m first second i e,
        simp (append_assoc) refl,
        wait _ ∙ ap suc (expire second _),
        on_write-continued b ec j m [] refl f n,
        refl,
        refl,
        ends j.m_timer,
      )
