-- ===== src/Examples/Servers/Sessions.antt =====
-- What the servers of examples/ keep to, over every run of a listener and its sessions.
use beast_router.Base.{
  ◌⊎◌, ℕ, suc, ◌+◌, ◌≡◌, refl, sym, ap, ◌∙◌, Bool, true, String, List, [], ◌∷◌, ◌++◌, Option, none,
  some, map, length, length-append, All, All-append_one, All-replace, All-mono, map-replace,
  length-replace, arith, Bool-cases, inl, inr,
}
use mathlib.Core.List.{map-append}
use mathlib.Core.Path.{subst}
use beast_router.Base.Outcome.{done}
use beast_router.Listener.{AcceptorOps, listener, do_accept}
use beast_router.Listener.Setup.{stages, run_stages}
use beast_router.Router.{Router}
use beast_router.Session.{Task, Boost}
use beast_router.Session.Flow.{Orderly}
use beast_router.Session.Steps
use beast_router.Session.Steps.{State, flow_of}
use beast_router.Session.Delivery.{fresh, Reach-Orderly}
use beast_router.Session.Silent.{Reach-silent}
use beast_router.Examples.Servers.{Program, Live, Server, start, complete_accept, run_posted}
use beast_router.Examples.Servers.Running.{
  Move, Move-Step, Move-reports, Move-tasks, first_task, started, start-stages, made, made-Reach,
  Step, Reach, served, run_posted-nil, run_posted-cons,
}

module _ {A S E Message Ec C T : Type 0} (ops : AcceptorOps A E Ec) (b : Boost Message Ec C T)
    (program : Program) (one_second : ℕ) (make : S → C) (router : Router)
    (on_error at_once : Bool) where
  -- What waits for the strand of a session.
  abbrev pub FirstWaits : List (Task Message) → Type 0
  FirstWaits tasks = (tasks ≡ first_task program one_second ∷ []) ⊎ (tasks ≡ [])

  -- A session of a server is a new session after some steps, and has reported nothing. Its first call
  -- waits, or nothing does.
  abbrev pub IsLive : Live S Message Ec C T → Type 0
  IsLive l =
      Steps.Reach b true (fresh b true (make l.socket) router on_error) l.state
      × (l.state.impl.reports ≡ [])
      × FirstWaits l.tasks

  pub record IsServing (s : Server A S E Message Ec C T) : Type 0 where
    pub handled : s.listener.m_on_error ≡ true
    pub unreported : s.listener.reports ≡ []
    pub sockets : map (λ l. l.socket) s.sessions ≡ s.listener.connected
    pub accepts : s.listener.accepts ≡ suc (length s.sessions + length s.listener.posted)
    pub lives : All IsLive s.sessions

  made-IsLive :
      (socket : S) → IsLive (made b program one_second make router on_error at_once socket)
  made-IsLive socket = made-Reach b program one_second make router on_error at_once socket

  Move-FirstWaits :
      (l l' : Live S Message Ec C T) → Move b l l' → FirstWaits l.tasks → FirstWaits l'.tasks
  Move-FirstWaits l l' m h = elim (Move-tasks b m) [
    | inl same ↦ subst FirstWaits (sym same) h
    | inr (task, e) ↦ elim h [
      | inl waits ↦ inr (ground arith)
      | inr nothing ↦ absurd (ground arith)
    ]
  ]

  Move-IsLive : (l l' : Live S Message Ec C T) → Move b l l' → IsLive l → IsLive l'
  Move-IsLive l l' m h =
      let (reports, socket) = Move-reports b m in
      (
        subst (λ k. Steps.Reach b true (fresh b true (make k) router on_error) l'.state)
            (sym socket) (Steps.Reach.then h.0 (Move-Step b m)),
        reports ∙ h.1,
        Move-FirstWaits l l' m h.2,
      )

  complete_accept-IsServing :
      (ec : Ec) (socket : S) (s : Server A S E Message Ec C T)
      → IsServing s
      → IsServing (complete_accept ops ec socket s)
  unfolding complete_accept do_accept
  complete_accept-IsServing ec socket s h = record {
    handled = h.handled;
    unreported = h.unreported;
    sockets = h.sockets;
    accepts = omega (arith, h.accepts, length-append s.listener.posted ((ec, socket) ∷ []));
    lives = h.lives;
  }

  served-IsServing :
      (ec : Ec) (socket : S) (rest : List (Ec × S)) (s : Server A S E Message Ec C T)
      → s.listener.posted ≡ (ec, socket) ∷ rest
      → IsServing s
      → IsServing (served ops b program one_second make router on_error at_once socket rest s)
  served-IsServing ec socket rest s e h = record {
    handled = h.handled;
    unreported = h.unreported;
    sockets =
        map-append (λ l. l.socket) s.sessions
          (made b program one_second make router on_error at_once socket ∷ [])
        ∙ ap (λ xs. xs ++ socket ∷ []) h.sockets;
    accepts = omega (
      arith,
      h.accepts,
      ap length e,
      length-append s.sessions (made b program one_second make router on_error at_once socket ∷ []),
    );
    lives = All-append_one IsLive s.sessions _ h.lives (made-IsLive socket);
  }

  run_posted-IsServing :
      (p : List (Ec × S)) (s t : Server A S E Message Ec C T)
      → s.listener.posted ≡ p
      → run_posted ops b program one_second make router on_error at_once s ≡ done t
      → IsServing s
      → IsServing t
  run_posted-IsServing [] s t e r h =
      let same : s ≡ t =
        ground (arith, run_posted-nil ops b program one_second make router on_error at_once s) in
      subst IsServing same h
  run_posted-IsServing ((ec, socket) ∷ rest) s t e r h =
      let step =
        run_posted-cons ops b program one_second make router on_error at_once s ec socket rest
          h.handled e in
      elim (Bool-cases (ops.failed ec)) [
        | inl failed ↦ absurd (ground (arith, step))
        | inr fine ↦
            let same : served ops b program one_second make router on_error at_once socket rest s
                ≡ t =
              ground (arith, step) in
            subst IsServing same (served-IsServing ec socket rest s e h)
      ]

  Step-IsServing :
      {s t : Server A S E Message Ec C T}
      → Step ops b program one_second make router on_error at_once s t
      → IsServing s
      → IsServing t
  Step-IsServing {s} (Step.completes ec socket e) h =
      subst IsServing (sym e) (complete_accept-IsServing ec socket s h)
  Step-IsServing {s} {t} (Step.runs e) h = run_posted-IsServing s.listener.posted s t refl e h
  Step-IsServing {s} (Step.moves front rest l l' e m f) h = subst IsServing (sym f) (record {
    handled = h.handled;
    unreported = h.unreported;
    sockets =
        map-replace (λ k. k.socket) front rest l l' (Move-reports b m).1
        ∙ ap (map (λ k. k.socket)) (sym e)
        ∙ h.sockets;
    accepts = omega (arith, h.accepts, ap length e, length-replace front rest l l');
    lives = All-replace IsLive front rest l l' (Move-IsLive l l' m) (subst (All IsLive) e h.lives);
  })

  pub Reach-IsServing :
      {s t : Server A S E Message Ec C T}
      → Reach ops b program one_second make router on_error at_once s t
      → IsServing s
      → IsServing t
  Reach-IsServing Reach.here h = h
  Reach-IsServing (Reach.then r step) h = Step-IsServing step (Reach-IsServing r h)

  started-IsServing :
      (failure : Option (Ec × String)) (a : A) (endpoint : E) (s : Server A S E Message Ec C T)
      → started ops failure a endpoint ≡ done s
      → IsServing s
  unfolding listener
  started-IsServing none a endpoint s e =
      let s' : Server A S E Message Ec C T = record {
        listener = record (listener ops a true) { m_endpoint = some endpoint; accepts = 1 };
        sessions = [];
      } in
      let same : s' ≡ s = ground arith in
      subst IsServing same
        (record { handled = refl; unreported = refl; sockets = refl; accepts = refl; lives = tt })
  started-IsServing (some (ec, msg)) a endpoint s e = absurd (ground arith)

  pub start-IsServing :
      (acceptor : A) (endpoint : E) (s : Server A S E Message Ec C T)
      → start ops acceptor endpoint ≡ done s
      → IsServing s
  start-IsServing acceptor endpoint s e =
      let (failure, a) = run_stages ops (stages ops endpoint) acceptor in
      started-IsServing failure a endpoint s (sym (start-stages ops acceptor endpoint) ∙ e)

  -- The four calls that set the acceptor up go well. Then, in every state that one of the three servers
  -- reaches, whichever accepts complete, in whatever order the strands run, and as long as nothing was
  -- thrown: the sessions are one for each connection that was handed over, in that order; one accept is in
  -- flight beyond those that were handed over and those that wait for the strand; no accept was reported.
  -- Of each session, the writes are in the order of the sends and at most one is in flight (`Orderly`), it
  -- has an error handler just if `on_error` holds a function after the move, it has reported nothing, and
  -- only its first call, the read with its timeout or the handshake before it, ever waits for its strand.
  pub Reach-served :
      (acceptor : A) (endpoint : E) (s t : Server A S E Message Ec C T)
      → start ops acceptor endpoint ≡ done s
      → Reach ops b program one_second make router on_error at_once s t
      → (map (λ l. l.socket) t.sessions ≡ t.listener.connected)
        × (t.listener.accepts ≡ suc (length t.sessions + length t.listener.posted))
        × (t.listener.reports ≡ [])
        × All
            (λ l.
              Orderly b.need_eof (flow_of l.state)
              × (l.state.impl.m_on_error ≡ on_error)
              × (l.state.impl.reports ≡ [])
              × FirstWaits l.tasks)
            t.sessions
  Reach-served acceptor endpoint s t e r =
      let h = Reach-IsServing r (start-IsServing acceptor endpoint s e) in
      (
        h.sockets,
        h.accepts,
        h.unreported,
        All-mono
            (λ l live. (
              Reach-Orderly b true (make l.socket) router on_error l.state live.0,
              (Reach-silent b true (make l.socket) router on_error l.state live.0).0,
              live.1,
              live.2,
            ))
            t.sessions h.lives,
      )
