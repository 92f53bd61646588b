-- ===== src/Examples/Client/Following.antt =====
-- Every run of the clients of examples/ (examples/client/main.cpp, examples/ssl/client/main.cpp).
use beast_router.Base.{
  ℕ, ◌≡◌, refl, ◌⊎◌, inl, inr, Bool, true, false, List, [], ◌∷◌, ◌++◌, some, none, map, All, arith,
}
use beast_router.Dispatcher.{Env}
use beast_router.EventLoop.{IoContext, EventLoop}
use beast_router.HttpUtility.{MessageOps}
use beast_router.Router.{Verb, Router}
use beast_router.Session.{Boost, Impl, on_timer}
use beast_router.Session.Delivery.{Reach-Orderly}
use beast_router.Session.Effects.{writes_of}
use beast_router.Session.Flow.{Flow, Orderly, behind_front}
use beast_router.Examples.Client.{Stopping, request}
use beast_router.Examples.Client.Reaching.{Run, Step, Reach}
use beast_router.Examples.Client.Running.{Program}
use beast_router.Examples.Client.Promises.{
  HasSent-cases, get_elem?-length, OnceRead, Loop, IsClient, at-Answering,
}
use beast_router.Examples.Client.Connecting.{
  started, started-Calling, resolved-Calling, connected-Answering,
}
use beast_router.Examples.Client.Answering.{
  wrote-Answering, timed-Answering, shook-Answering, got-Answering,
}

module _ {Message : Type 0} (need_eof : Message → Bool) where
  written-one :
      (m : Message) (ws : List (Message × Bool)) (sent rest : List Message)
      → map (λ w. w.0) ws ++ rest ≡ sent
      → All (λ w. w.1 ≡ need_eof w.0) ws
      → (sent ≡ []) ⊎ (sent ≡ m ∷ [])
      → (ws ≡ []) ⊎ (ws ≡ (m, need_eof m) ∷ [])
  written-one m [] sent rest e a h = inl refl
  written-one m ((k, c) ∷ []) sent rest e (flag, _) (inl none_sent) = absurd (ground arith)
  written-one m ((k, c) ∷ []) sent rest e (flag, _) (inr one_sent) =
      let same : k ≡ m = ground arith in inr (ground arith)
  written-one m (w ∷ x ∷ ws) sent rest e a (inl none_sent) = absurd (ground arith)
  written-one m (w ∷ x ∷ ws) sent rest e a (inr one_sent) = absurd (ground arith)

  -- Of at most one message that was sent there is at most one write.
  Orderly-one :
      (m : Message) (f : Flow Message)
      → Orderly need_eof f
      → (f.sent ≡ []) ⊎ (f.sent ≡ m ∷ [])
      → (f.written ≡ []) ⊎ (f.written ≡ (m, need_eof m) ∷ [])
  Orderly-one m f o h = written-one m f.written f.sent (behind_front f.queue) o.order o.flags h

module _ {S R Message File Ec C T L Code : Type 0} (ops : MessageOps Message Verb File Ec)
    (b : Boost Message Ec C T) (program : Program) (one_second : ℕ) (make : S → C) (router : Router)
    (moved_from : S) (io : IoContext L Ec Code) {Ctx Match Regex : Type 0}
    (env : Env Message Ctx Match (Stopping L) Regex)
    (send_not_found : Message → Ctx → Stopping L → Ctx × Stopping L)
    (stops : (c : L) → io.stopped (io.stop c) ≡ true) (socket : S) (l : EventLoop L) where
  Step-IsClient :
      {s t : Run S R Message Ec C T L}
      → Step ops b program one_second make router moved_from io env send_not_found s t
      → IsClient ops b program make router io socket l s
      → IsClient ops b program make router io socket l t
  Step-IsClient {s} (Step.resolved address port' ec results m now e made) (inl h) = inl (
      rw made (
        resolved-Calling ops b program one_second make router moved_from io socket l s address port'
          ec results m h now e))
  Step-IsClient {s} (Step.connected endpoints ec m now e made) (inl h) = inr (
      rw made (
        connected-Answering ops b program one_second make router moved_from io socket l s endpoints
          ec m h now e))
  Step-IsClient {s} (Step.resolved address port' ec results m now e made) (inr (i, h)) =
      absurd (ground (arith, h.over, get_elem?-length s.main.connector.started))
  Step-IsClient {s} (Step.connected endpoints ec m now e made) (inr (i, h)) =
      absurd (ground (arith, h.over, get_elem?-length s.main.connector.started))
  Step-IsClient {s} (Step.shook k server func rest ec m at d e made) h =
      let a = at-Answering ops b program make router io socket l k s at h in
      inr (
        rw made (
          shook-Answering ops b program make router io stops socket l s k server func rest ec m a d
            e))
  Step-IsClient {s} (Step.wrote k message close rest ec m at d e made) h =
      let a = at-Answering ops b program make router io socket l k s at h in
      inr (
        rw made (
          wrote-Answering ops b program make router io stops socket l s k message close rest ec m a
            d e))
  Step-IsClient {s} (Step.timed k ec now m at e made) h =
      let a = at-Answering ops b program make router io socket l k s at h in
      inr (
        rw made (
          on_timer b ec now k,
          timed-Answering ops b program make router io stops socket l s k ec now m a e,
        ))
  Step-IsClient {s} (Step.got k ec message m at lt e made) h =
      let a = at-Answering ops b program make router io socket l k s at h in
      inr (
        rw made (
          got-Answering ops b program make router io stops socket l env send_not_found s k ec
            message m a lt e))

  pub Reach-IsClient :
      {s t : Run S R Message Ec C T L}
      → Reach ops b program one_second make router moved_from io env send_not_found s t
      → IsClient ops b program make router io socket l s
      → IsClient ops b program make router io socket l t
  Reach-IsClient Reach.here h = h
  Reach-IsClient (Reach.then r step) h = Step-IsClient step (Reach-IsClient r h)

  -- Stopping stops, and nothing was thrown. Then, in every state that a client reaches, whichever of its
  -- calls complete and however: it has no session and an event loop as it was at the start, or it has
  -- the one session of the socket that was connected. The request was written at most once, and nothing
  -- else; at most one read has ended, and at most one response was handed to the dispatcher. The event
  -- loop is as it was as long as the session has reported no error and no response was handed on, and
  -- otherwise it has been stopped.
  pub Reach-follows :
      (t : Run S R Message Ec C T L)
      → Reach ops b program one_second make router moved_from io env send_not_found
          (started b program moved_from socket l)
          t
      → ((t.main.session ≡ none)
          × (t.main.connector.connected ≡ [])
          × (t.main.event_loop ≡ l)
          × (t.answered ≡ []))
        ⊎ ((i : Impl Message Ec C T) × (t.main.session ≡ some i)
            × (t.main.connector.connected ≡ socket ∷ [])
            × ((writes_of i.started ≡ [])
                ⊎ (writes_of i.started ≡ (request ops, b.need_eof (request ops)) ∷ []))
            × OnceRead t.read t.answered
            × Loop io l i t.answered t.main.event_loop)
  Reach-follows t r =
      elim (Reach-IsClient r
        (inl (started-Calling ops b program one_second make router moved_from io socket l))) [
          | inl h ↦ inl (h.none_yet, h.unconnected, h.loop, h.idle.3)
          | inr (i, h) ↦
              let (sent, has, reached) = h.reached in
              let orderly = Reach-Orderly b false (make socket) router true _ reached in
              inr (
                i,
                h.one,
                h.connected,
                Orderly-one b.need_eof (request ops) _ orderly
                    (HasSent-cases ops program t.shaken sent has),
                h.once,
                h.loop,
              )
        ]
