-- ===== src/Examples/Client/Connecting.antt =====
-- The clients of examples/ up to their session, over the completions of the connector.
use mathlib.Core.Path.{subst}
use beast_router.Base.{
  ℕ, suc, ◌≡◌, refl, sym, ap, ◌∙◌, inl, inr, true, false, [], ◌∷◌, ◌++◌, some, arith, get_elem?,
  Bool-cases, length, String,
}
use beast_router.Base.Outcome.{done}
use beast_router.Connector.{
  connector, do_resolve, resolves, connects, on_resolve, on_connect, connect,
}
use beast_router.EventLoop.{IoContext, EventLoop}
use beast_router.HttpUtility.{MessageOps}
use beast_router.Router.{Verb, Router}
use beast_router.Session.{Boost, Impl}
use beast_router.Session.Delivery.{fresh}
use beast_router.Session.Steps
use beast_router.Session.Steps.{State, flow_of}
use beast_router.Examples.Client.Reaching.{Run, sent_at_once, send_request-Reach}
use beast_router.Examples.Client.Running.{Program, Main, start, complete_resolve, complete_connect}
use beast_router.Examples.Client.Promises.{HasSent, HasSent-sent_at_once, Calling, Answering}

module _ {S R Message Ec C T L : Type 0} (b : Boost Message Ec C T) (program : Program)
    (moved_from socket : S) (l : EventLoop L) where
  -- `main` before `exec`.
  abbrev pub started : Run S R Message Ec C T L
  started = record {
    main = start b moved_from program socket l;
    attempts = 0;
    shaken = 0;
    written = 0;
    read = 0;
    answered = [];
  }

module _ {S R Message File Ec C T L Code : Type 0} (ops : MessageOps Message Verb File Ec)
    (b : Boost Message Ec C T) (program : Program) (one_second : ℕ) (make : S → C) (router : Router)
    (moved_from : S) (io : IoContext L Ec Code) (socket : S) (l : EventLoop L) where
  pub started-Calling :
      Calling {R = R} ops b program make router io socket l
        (started {R = R} b program moved_from socket l)
  unfolding start connector do_resolve connect
  started-Calling = record {
    none_yet = refl;
    loop = refl;
    handled = refl;
    stream = refl;
    unconnected = refl;
    progress = inl (refl, refl);
    idle = (refl, refl, refl, refl);
  }

  pub resolved-Calling :
      (s : Run S R Message Ec C T L) (address port' : String) (ec : Ec) (results : R)
      (m : Main S R Message Ec C T L)
      → Calling ops b program make router io socket l s
      → get_elem? s.main.connector.started s.attempts ≡ some (resolves address port')
      → complete_resolve b moved_from ec results s.main ≡ done m
      → Calling ops b program make router io socket l
          (record s { main = m; attempts = suc s.attempts })
  unfolding complete_resolve on_resolve
  resolved-Calling s address port' ec results m h now e = elim h.progress [
    | inr (r, two, at) ↦ absurd (ground arith)
    | inl (one, at) ↦ elim (Bool-cases (b.failed ec)) [
      | inl failed ↦ absurd (ground (arith, h.handled))
      | inr fine ↦
          let made : m ≡ record s.main {
            connector = record s.main.connector {
              started = s.main.connector.started ++ connects results ∷ [];
            };
          } =
            ground arith in
          record {
            none_yet = ap (λ x. x.session) made ∙ h.none_yet;
            loop = ap (λ x. x.event_loop) made ∙ h.loop;
            handled = ap (λ x. x.connector.m_on_error) made ∙ h.handled;
            stream = ap (λ x. x.connector.m_connection.m_stream) made ∙ h.stream;
            unconnected = ap (λ x. x.connector.connected) made ∙ h.unconnected;
            progress = inr (
              results,
              ap (λ x. x.connector.started) made ∙ ap (λ l. l ++ connects results ∷ []) one,
              ap suc at,
            );
            idle = h.idle;
          }
    ]
  ]

  pub connected-Answering :
      (s : Run S R Message Ec C T L) (endpoints : R) (ec : Ec) (m : Main S R Message Ec C T L)
      → Calling ops b program make router io socket l s
      → get_elem? s.main.connector.started s.attempts ≡ some (connects endpoints)
      → complete_connect b moved_from ops program one_second make router ec s.main ≡ done m
      → (i : Impl Message Ec C T) × Answering ops b program make router io socket l i
          (record s { main = m; attempts = suc s.attempts })
  unfolding complete_connect on_connect
  connected-Answering s endpoints ec m h now e = elim h.progress [
    | inl (one, at) ↦ absurd (ground arith)
    | inr (r, two, at) ↦ elim (Bool-cases (b.failed ec)) [
      | inl failed ↦ absurd (ground (arith, h.handled))
      | inr fine ↦
          let (i, sent, reached, inputs_so, quiet) =
            send_request-Reach ops b one_second make router program socket in
          let made : m ≡ record s.main {
            connector = record s.main.connector {
              m_connection = record { m_stream = moved_from };
              connected = s.main.connector.connected ++ socket ∷ [];
            };
            session = some i;
          } =
            ground (arith, sent, h.stream) in
          let (unshaken, unwritten, unread, unanswered) = h.idle in
          (
            i,
            record {
              one = ap (λ x. x.session) made;
              over = ap suc at ∙ sym (ap (λ x. length x.connector.started) made ∙ ap length two);
              connected =
                  ap (λ x. x.connector.connected) made ∙ ap (λ l. l ++ socket ∷ []) h.unconnected;
              reached = (
                sent_at_once ops program,
                subst (λ n. HasSent ops program n (sent_at_once ops program)) (sym unshaken)
                    (HasSent-sent_at_once ops program),
                subst
                    (λ n.
                      Steps.Reach b false (fresh b false (make socket) router true)
                        (record { impl = i; completed = n; sent = sent_at_once ops program }))
                    (sym unwritten) reached,
              );
              inputs_so = inputs_so;
              once = inl (unread, unanswered);
              loop = inl (ap (λ x. x.event_loop) made ∙ h.loop, quiet, unanswered);
            },
          )
    ]
  ]
