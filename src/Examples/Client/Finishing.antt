-- ===== src/Examples/Client/Finishing.antt =====
-- That a client of examples/ (examples/client/main.cpp, examples/ssl/client/main.cpp) can still come to
-- its end, from every state of every run.
use beast_router.Base.{
  ℕ, suc, ◌≡◌, refl, ap, ◌∙◌, ◌⊎◌, inl, inr, true, false, [], some, get_elem?, arith,
}
use beast_router.Base.Outcome.{done}
use beast_router.Connector.{resolves, connects, on_resolve, on_connect}
use beast_router.Dispatcher.{Env}
use beast_router.EventLoop.{IoContext, EventLoop, is_running}
use beast_router.HttpUtility.{MessageOps}
use beast_router.Router.{Verb, Router}
use beast_router.Session.{Boost, Impl}
use beast_router.Examples.Client.{Stopping}
use beast_router.Examples.Client.Connecting.{
  started, started-Calling, resolved-Calling, connected-Answering,
}
use beast_router.Examples.Client.Ending.{read_by, read_outside, complete_read-other}
use beast_router.Examples.Client.Following.{Reach-IsClient}
use beast_router.Examples.Client.Promises.{Calling, Answering, count_reads-inputs}
use beast_router.Examples.Client.Reaching.{
  Run, Step, Reach, count_reads, count_reads-inputs_of, send_request-Reach,
}
use beast_router.Examples.Client.Running.{Program, Main, port, complete_resolve, complete_connect}
use beast_router.Examples.Client.Told.{complete_read-stopped}

module _ {S R Message File Ec C T L Code : Type 0} (ops : MessageOps Message Verb File Ec)
    (b : Boost Message Ec C T) (program : Program) (one_second : ℕ) (make : S → C) (router : Router)
    (moved_from : S) (io : IoContext L Ec Code) {Ctx Match Regex : Type 0}
    (env : Env Message Ctx Match (Stopping L) Regex)
    (send_not_found : Message → Ctx → Stopping L → Ctx × Stopping L)
    (stops : (c : L) → io.stopped (io.stop c) ≡ true) (socket : S) (l : EventLoop L) (fine : Ec)
    (succeeds : b.failed fine ≡ false) (goes_on : b.is_end_of_stream fine ≡ false) where
  resolve-done :
      (m : Main S R Message Ec C T L) (results : R)
      → (m' : Main S R Message Ec C T L) × (complete_resolve b moved_from fine results m ≡ done m')
  unfolding complete_resolve
  resolve-done m results = (
    record m { connector = on_resolve b.failed moved_from fine results m.connector },
    rw succeeds refl,
  )

  connect-done :
      (m : Main S R Message Ec C T L)
      → (m' : Main S R Message Ec C T L) × (complete_connect b moved_from ops program one_second
            make router fine m
          ≡ done m')
  unfolding complete_connect
  connect-done m =
      let (i, sent, reached, inputs_so, quiet) =
        send_request-Reach ops b one_second make router program m.connector.m_connection.m_stream in
      (
        record m { connector = on_connect b.failed moved_from fine m.connector; session = some i },
        ground (arith, sent, succeeds),
      )

  -- A state in which the event loop has been stopped can be reached.
  abbrev pub CanStop : Run S R Message Ec C T L → Type 0
  CanStop t =
      (u : Run S R Message Ec C T L) × Reach ops b program one_second make router moved_from io env
        send_not_found t u
      × (is_running io u.main.event_loop ≡ false)

  -- The one read has ended, and nobody was told.
  abbrev pub IsLeft : Run S R Message Ec C T L → Type 0
  IsLeft t =
      (i : Impl Message Ec C T) × (t.main.session ≡ some i)
      × (i.reports ≡ [])
      × (t.read ≡ 1)
      × (t.answered ≡ [])
      × (t.main.event_loop ≡ l)

  read-CanStop :
      (message : Message) (s : Run S R Message Ec C T L) (i : Impl Message Ec C T)
      → Answering ops b program make router io socket l i s
      → s.read ≡ 0
      → CanStop s
  read-CanStop message s i h first =
      let reads =
        count_reads-inputs_of i.started
        ∙ ap count_reads h.inputs_so
        ∙ count_reads-inputs ops program in
      let (l', outside) =
        read_outside b io env send_not_found message i (read_by b fine i) s.main in
      let ended =
        complete_read-other b io false env send_not_found fine message i s.main goes_on ∙ outside in
      let (j, ran, one, same, off) =
        complete_read-stopped io stops b env send_not_found fine message i s.main _ goes_on ended in
      (
        _,
        Reach.then Reach.here
            (Step.got i fine message _ h.one (omega (arith, reads, first)) ended refl),
        off,
      )

  Answering-cases :
      (message : Message) (s : Run S R Message Ec C T L) (i : Impl Message Ec C T)
      → Answering ops b program make router io socket l i s
      → CanStop s ⊎ IsLeft s
  Answering-cases message s i h = elim h.loop [
    | inr (off, why) ↦ inl (s, Reach.here, off)
    | inl (on, quiet, unanswered) ↦ elim h.once [
      | inl (unread, _) ↦ inl (read-CanStop message s i h unread)
      | inr (over, _) ↦ inr (i, h.one, quiet, over, unanswered, on)
    ]
  ]

  -- One step first.
  step_first :
      {s t u : Run S R Message Ec C T L}
      → Step ops b program one_second make router moved_from io env send_not_found s t
      → Reach ops b program one_second make router moved_from io env send_not_found t u
      → Reach ops b program one_second make router moved_from io env send_not_found s u
  step_first step Reach.here = Reach.then Reach.here step
  step_first step (Reach.then r next) = Reach.then (step_first step r) next

  CanStop-step :
      {s t : Run S R Message Ec C T L}
      → Step ops b program one_second make router moved_from io env send_not_found s t
      → CanStop t
      → CanStop s
  CanStop-step step (u, r, off) = (u, step_first step r, off)

  connecting-CanStop :
      (message : Message) (s : Run S R Message Ec C T L) (endpoints : R)
      → Calling ops b program make router io socket l s
      → get_elem? s.main.connector.started s.attempts ≡ some (connects endpoints)
      → CanStop s
  connecting-CanStop message s endpoints h now =
      let (m, e) = connect-done s.main in
      let (i, a) =
        connected-Answering ops b program one_second make router moved_from io socket l s endpoints
          fine m h now e in
      CanStop-step (Step.connected endpoints fine m now e refl)
        (read-CanStop message (record s { main = m; attempts = suc s.attempts }) i a h.idle.2)

  Calling-CanStop :
      (message : Message) (results : R) (s : Run S R Message Ec C T L)
      → Calling ops b program make router io socket l s
      → CanStop s
  Calling-CanStop message results s h = elim h.progress [
    | inr (endpoints, two, at) ↦ connecting-CanStop message s endpoints h (ground arith)
    | inl (one, at) ↦
        let (m, e) = resolve-done s.main results in
        let now : get_elem? s.main.connector.started s.attempts
            ≡ some (resolves "wttr.in" (port program)) =
          ground arith in
        let t : Run S R Message Ec C T L = record s { main = m; attempts = suc s.attempts } in
        let h' =
          resolved-Calling ops b program one_second make router moved_from io socket l s "wttr.in"
            (port program) fine results m h now e in
        CanStop-step (Step.resolved "wttr.in" (port program) fine results m now e refl)
          (elim h'.progress [
            | inr (endpoints, two, at') ↦ connecting-CanStop message t endpoints h' (ground arith)
            | inl (one', at') ↦ absurd (omega (arith, at, at'))
          ])
  ]

  -- Stopping stops, some error code is neither a failure nor the end of the stream, the resolver can give
  -- results and the parser a message. Then from every state that a client reaches it can reach one in
  -- which its event loop has been stopped, or its one read has ended, nothing was reported, no response
  -- was handed to the dispatcher, and the event loop goes on as at the start.
  pub Reach-finishes :
      (message : Message) (results : R) (t : Run S R Message Ec C T L)
      → Reach ops b program one_second make router moved_from io env send_not_found
          (started b program moved_from socket l)
          t
      → CanStop t ⊎ IsLeft t
  Reach-finishes message results t r =
      elim (Reach-IsClient ops b program one_second make router moved_from io env send_not_found
        stops socket l r
        (inl (started-Calling ops b program one_second make router moved_from io socket l))) [
          | inl h ↦ inl (Calling-CanStop message results t h)
          | inr (i, h) ↦ Answering-cases message t i h
        ]
