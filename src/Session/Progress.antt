-- ===== src/Session/Progress.antt =====
-- That a session (include/beast_router/impl/session.ipp) comes to the end of its queue: what the
-- handlers of writes do that complete one after another without an error.
use beast_router.Base.{
  ℕ, zero, suc, ◌≡◌, ◌≢◌, refl, ap, ◌∙◌, inl, inr, Bool, false, List, [], ◌∷◌, map, drop, arith,
  All, length, drop-append, drop-suc,
}
use mathlib.Core.List.{append-nil}
use beast_router.Base.Outcome.{Outcome, done, ◌>>=◌}
use beast_router.ConnQueue.{on_write_lem}
use beast_router.Router.{Router}
use beast_router.Session.{writes, Boost, Impl, do_write, on_write, cancel_timer, as_queue}
use beast_router.Session.Flow.{write_next, Orderly}
use beast_router.Session.Effects.{writes_of, writes_of-append}
use beast_router.Session.Steps.{State, flow_of, Step, Reach}
use beast_router.Session.Delivery.{fresh, Reach-Orderly}

module _ {Message Ec C T : Type 0} (b : Boost Message Ec C T) where
  -- `rounds` writes complete one after another with `ec`, of messages that do not need the end of the
  -- stream.
  abbrev pub complete :
      (rounds : ℕ) (ec : Ec)
      → Impl Message Ec C T
      → Outcome (Impl Message Ec C T) (Impl Message Ec C T)
  complete zero ec i = done i
  complete (suc rounds) ec i = on_write b ec false i >>= complete rounds ec

  -- The session after the front of its queue was written; `rest` is what stands behind it.
  abbrev pub continued : List Message → Impl Message Ec C T → Impl Message Ec C T
  continued [] i = record (cancel_timer b i) { m_queue = [] }
  continued (n ∷ more) i = record (do_write b n (cancel_timer b i)) { m_queue = n ∷ more }

  pub on_write-continued :
      (ec : Ec) (i : Impl Message Ec C T) (m : Message) (rest : List Message)
      → i.m_queue ≡ m ∷ rest
      → b.failed ec ≡ false
      → b.is_end_of_stream ec ≡ false
      → on_write b ec false i ≡ done (continued rest i)
  unfolding on_write
  on_write-continued ec i m [] e f n =
      ground (arith, on_write_lem (do_write b) (as_queue b (cancel_timer b i)))
  on_write-continued ec i m (x ∷ rest) e f n =
      ground (arith, on_write_lem (do_write b) (as_queue b (cancel_timer b i)))

  continued-queue :
      (rest : List Message) (i : Impl Message Ec C T) → (continued rest i).m_queue ≡ rest
  continued-queue [] i = refl
  continued-queue (n ∷ more) i = refl

  continued-written :
      (rest : List Message) (i : Impl Message Ec C T)
      → writes_of (continued rest i).started ≡ write_next b.need_eof rest (writes_of i.started)
  unfolding do_write
  continued-written [] i = refl
  continued-written (n ∷ more) i = writes_of-append i.started (writes n (b.need_eof n) ∷ [])

module _ {Message Ec C T : Type 0} (b : Boost Message Ec C T) (server : Bool) where
  then-Reach :
      {s t u : State Message Ec C T} → Step b server s t → Reach b server t u → Reach b server s u
  then-Reach step Reach.here = Reach.then Reach.here step
  then-Reach step (Reach.then r last) = Reach.then (then-Reach step r) last

  Reach-trans :
      {s t u : State Message Ec C T} → Reach b server s t → Reach b server t u → Reach b server s u
  Reach-trans r Reach.here = r
  Reach-trans r (Reach.then r' step) = Reach.then (Reach-trans r r') step

  -- A state in which everything that was sent was written.
  pub record Drained (ec : Ec) (rounds : ℕ) (s t : State Message Ec C T) : Type 0 where
    pub runs : complete b rounds ec s.impl ≡ done t.impl
    pub reached : Reach b server s t
    pub emptied : t.impl.m_queue ≡ []
    pub sent : t.sent ≡ s.sent

  -- The write of the front of the queue `q` is in flight, if there is one.
  abbrev pub FrontInFlight : List Message → State Message Ec C T → Type 0
  FrontInFlight [] s = Unit
  FrontInFlight (m ∷ rest) s = drop s.completed (writes_of s.impl.started) ≡ (m, b.need_eof m) ∷ []

  continued-FrontInFlight :
      (m : Message) (rest : List Message) (s : State Message Ec C T)
      → FrontInFlight (m ∷ rest) s
      → FrontInFlight rest
          (record { impl = continued b rest s.impl; completed = suc s.completed; sent = s.sent })
  continued-FrontInFlight m [] s fl = tt
  continued-FrontInFlight m (n ∷ more) s fl =
      let (gone, within) =
        drop-suc s.completed (writes_of s.impl.started) [] (m, b.need_eof m) fl in
      rw (continued-written b (n ∷ more) s.impl) (
        drop-append (suc s.completed) (writes_of s.impl.started) ((n, b.need_eof n) ∷ []) within
        ∙ rw gone refl)

  drains :
      (ec : Ec) (q : List Message) (s : State Message Ec C T)
      → b.failed ec ≡ false
      → b.is_end_of_stream ec ≡ false
      → s.impl.m_queue ≡ q
      → FrontInFlight q s
      → All (λ m. b.need_eof m ≡ false) q
      → (t : State Message Ec C T) × Drained ec (length q) s t
  drains ec [] s f n e fl a =
      (s, record { runs = refl; reached = Reach.here; emptied = e; sent = refl })
  drains ec (m ∷ rest) s f n e fl a =
      let i = continued b rest s.impl in
      let s' : State Message Ec C T = record {
        impl = i;
        completed = suc s.completed;
        sent = s.sent;
      } in
      let runs = on_write-continued b ec s.impl m rest e f n in
      let (t, d) =
        drains ec rest s' f n (continued-queue b rest s.impl) (continued-FrontInFlight m rest s fl)
          a.1 in
      (
        t,
        record {
          runs = rw runs d.runs;
          reached =
              then-Reach
                (Step.write m false [] ec (fl ∙ ap (λ close. (m, close) ∷ []) a.0) runs refl refl)
                d.reached;
          emptied = d.emptied;
          sent = d.sent;
        },
      )

  Orderly-FrontInFlight :
      (s : State Message Ec C T)
      → Orderly b.need_eof (flow_of s)
      → drop s.completed (writes_of s.impl.started) ≢ []
      → FrontInFlight s.impl.m_queue s
  Orderly-FrontInFlight s o h = elim o.flight [
    | inl none_left ↦ absurd (h none_left)
    | inr (m, rest, e, fl) ↦ rw e fl
  ]

  -- From every state of a new session in which a write is in flight and no message in the queue needs
  -- the end of the stream: if as many writes complete without an error as there are messages in the
  -- queue, one after another, the queue is empty then, and what was written is what was sent, in order.
  pub complete-drains :
      (connection : C) (router : Router) (on_error : Bool) (ec : Ec) (s : State Message Ec C T)
      → Reach b server (fresh b server connection router on_error) s
      → drop s.completed (writes_of s.impl.started) ≢ []
      → All (λ m. b.need_eof m ≡ false) s.impl.m_queue
      → b.failed ec ≡ false
      → b.is_end_of_stream ec ≡ false
      → (t : State Message Ec C T) × (complete b (length s.impl.m_queue) ec s.impl ≡ done t.impl)
        × Reach b server s t
        × (t.impl.m_queue ≡ [])
        × (map (λ w. w.0) (writes_of t.impl.started) ≡ s.sent)
  complete-drains connection router on_error ec s r busy plain f n =
      let o = Reach-Orderly b server connection router on_error s r in
      let (t, d) = drains ec s.impl.m_queue s f n refl (Orderly-FrontInFlight s o busy) plain in
      let o' = Reach-Orderly b server connection router on_error t (Reach-trans r d.reached) in
      (
        t,
        d.runs,
        d.reached,
        d.emptied,
        ground (
          arith,
          o'.order,
          append-nil (map (λ (w : Message × Bool). w.0) (writes_of t.impl.started)),
          d.emptied,
          d.sent,
        ),
      )
