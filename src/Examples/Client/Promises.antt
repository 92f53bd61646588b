-- ===== src/Examples/Client/Promises.antt =====
-- What the clients of examples/ (examples/client/main.cpp, examples/ssl/client/main.cpp) keep to.
use mathlib.Core.Path.{subst}
use beast_router.Base.{
  ℕ, zero, suc, ◌≡◌, ◌≢◌, refl, sym, ap, ◌∙◌, ◌⊎◌, inl, inr, Bool, true, false, List, [], ◌∷◌, ◌++◌,
  some, none, arith, drop, get_elem?, length, if◌then◌else◌,
}
use beast_router.Connector.{resolves, connects}
use beast_router.EventLoop.{IoContext, EventLoop, is_running}
use beast_router.HttpUtility.{MessageOps}
use beast_router.Router.{Verb, Router}
use beast_router.Session.{Task, send, Boost, Impl}
use beast_router.Session.Calls.{inputs_of}
use beast_router.Session.Delivery.{fresh}
use beast_router.Session.Steps
use beast_router.Session.Steps.{State, flow_of}
use beast_router.Examples.Client.{request}
use beast_router.Examples.Client.Reaching.{Run, handshakes_of, count_reads, inputs, sent_at_once}
use beast_router.Examples.Client.Running.{Program, client, ssl_client, Main, port}
use beast_router.Examples.Client.Told.{Told}

pub get_elem?-length : {A : Type 0} (xs : List A) → get_elem? xs (length xs) ≡ none
get_elem?-length [] = refl
get_elem?-length (x ∷ xs) = get_elem?-length xs

module _ {Message File Ec : Type 0} (ops : MessageOps Message Verb File Ec) where
  -- What was sent, by the number of handshakes that are over.
  abbrev pub HasSent : Program → (shaken : ℕ) → List Message → Type 0
  HasSent client n sent = sent ≡ request ops ∷ []
  HasSent ssl_client zero sent = sent ≡ []
  HasSent ssl_client (suc n) sent = (sent ≡ []) ⊎ (sent ≡ request ops ∷ [])

  pub HasSent-sent_at_once : (program : Program) → HasSent program 0 (sent_at_once ops program)
  HasSent-sent_at_once client = refl
  HasSent-sent_at_once ssl_client = refl

  pub HasSent-cases :
      (program : Program) (n : ℕ) (sent : List Message)
      → HasSent program n sent
      → (sent ≡ []) ⊎ (sent ≡ request ops ∷ [])
  HasSent-cases client n sent h = inr h
  HasSent-cases ssl_client zero sent h = inl h
  HasSent-cases ssl_client (suc n) sent h = h

  -- A handshake that is in flight is that of the request, and the first.
  pub handshakes_of-inputs :
      (program : Program) (n : ℕ) (server : Bool) (func : Task Message)
      (rest : List (Bool × Task Message))
      → drop n (handshakes_of (inputs ops program)) ≡ (server, func) ∷ rest
      → (program ≡ ssl_client) × (n ≡ 0) × (func ≡ send (request ops))
  handshakes_of-inputs client zero server func rest e = absurd (ground arith)
  handshakes_of-inputs client (suc n) server func rest e = absurd (ground arith)
  handshakes_of-inputs ssl_client zero server func rest e = (refl, refl, ground arith)
  handshakes_of-inputs ssl_client (suc zero) server func rest e = absurd (ground arith)
  handshakes_of-inputs ssl_client (suc (suc n)) server func rest e = absurd (ground arith)

  pub count_reads-inputs : (program : Program) → count_reads (inputs ops program) ≡ 1
  count_reads-inputs client = refl
  count_reads-inputs ssl_client = refl

  -- What is sent when the handshake is over.
  pub HasSent-shook :
      (program : Program) (n : ℕ) (sent : List Message) (failed : Bool)
      → program ≡ ssl_client
      → n ≡ 0
      → HasSent program n sent
      → HasSent program (suc n) (sent ++ (if failed then [] else request ops ∷ []))
  HasSent-shook client n sent failed p z h = absurd (ground arith)
  HasSent-shook ssl_client (suc n) sent failed p z h = absurd (ground arith)
  HasSent-shook ssl_client zero sent true p z h = inl (rw h refl)
  HasSent-shook ssl_client zero sent false p z h = inr (rw h refl)

-- At most one read has ended, and at most one response was handed to the dispatcher.
abbrev pub OnceRead : {Message : Type 0} → (read : ℕ) (answered : List Message) → Type 0
OnceRead {Message} read answered =
    ((read ≡ 0) × (answered ≡ []))
    ⊎ ((read ≡ 1) × ((answered ≡ []) ⊎ ((m : Message) × (answered ≡ m ∷ []))))

module _ {Message : Type 0} where
  pub OnceRead-first :
      (read : ℕ) (answered : List Message) → OnceRead read answered → read ≡ 0 → answered ≡ []
  OnceRead-first read answered (inl (zero_read, none_answered)) z = none_answered
  OnceRead-first read answered (inr (one_read, h)) z = absurd (omega arith)

module _ {Message Ec C T L Code : Type 0} (io : IoContext L Ec Code) (l : EventLoop L) where
  -- The event loop goes on as it was, or has been stopped by an error that was reported or by a response
  -- that was handed to the dispatcher.
  abbrev pub Loop :
      (i : Impl Message Ec C T) (answered : List Message) (event_loop : EventLoop L) → Type 0
  Loop i answered event_loop =
      ((event_loop ≡ l) × (i.reports ≡ []) × (answered ≡ []))
      ⊎ ((is_running io event_loop ≡ false) × ((i.reports ≢ []) ⊎ (answered ≢ [])))

  -- A handler of the session that hands no response on.
  pub Loop-Told :
      {S R : Type 0} (stops : (c : L) → io.stopped (io.stop c) ≡ true) (i j : Impl Message Ec C T)
      (m m' : Main S R Message Ec C T L) (answered : List Message)
      → Told io stops i j m m'
      → Loop i answered m.event_loop
      → Loop j answered m'.event_loop
  Loop-Told stops i j m m' answered (inr (told, stopped)) h = inr (stopped, inl told)
  Loop-Told stops i j m m' answered (inl (quiet, same)) (inl (on, none_told, none_answered)) =
      inl (same ∙ on, quiet ∙ none_told, none_answered)
  Loop-Told stops i j m m' answered (inl (quiet, same)) (inr (off, inl told)) =
      inr (ap (is_running io) same ∙ off, inl (λ e. told (sym quiet ∙ e)))
  Loop-Told stops i j m m' answered (inl (quiet, same)) (inr (off, inr some_answered)) =
      inr (ap (is_running io) same ∙ off, inr some_answered)

module _ {S R Message File Ec C T L Code : Type 0} (ops : MessageOps Message Verb File Ec)
    (b : Boost Message Ec C T) (program : Program) (make : S → C) (router : Router)
    (io : IoContext L Ec Code) (socket : S) (l : EventLoop L) where
  -- No session yet.
  pub record Calling (s : Run S R Message Ec C T L) : Type 0 where
    pub none_yet : s.main.session ≡ none
    pub loop : s.main.event_loop ≡ l
    pub handled : s.main.connector.m_on_error ≡ true
    pub stream : s.main.connector.m_connection.m_stream ≡ socket
    pub unconnected : s.main.connector.connected ≡ []
    pub progress :
        ((s.main.connector.started ≡ resolves "wttr.in" (port program) ∷ []) × (s.attempts ≡ 0))
        ⊎ ((results : R) × (s.main.connector.started
              ≡ resolves "wttr.in" (port program) ∷ connects results ∷ [])
            × (s.attempts ≡ 1))
    pub idle : (s.shaken ≡ 0) × (s.written ≡ 0) × (s.read ≡ 0) × (s.answered ≡ [])

  -- One session.
  pub record Answering (i : Impl Message Ec C T) (s : Run S R Message Ec C T L) : Type 0 where
    pub one : s.main.session ≡ some i
    pub over : s.attempts ≡ length s.main.connector.started
    pub connected : s.main.connector.connected ≡ socket ∷ []
    pub reached :
        (sent : List Message) × HasSent ops program s.shaken sent
        × Steps.Reach b false
            (fresh b false (make socket) router true)
            (record { impl = i; completed = s.written; sent = sent })
    pub inputs_so : inputs_of i.started ≡ inputs ops program
    pub once : OnceRead s.read s.answered
    pub loop : Loop io l i s.answered s.main.event_loop

  abbrev pub IsClient : Run S R Message Ec C T L → Type 0
  IsClient s = Calling s ⊎ ((i : Impl Message Ec C T) × Answering i s)

  -- The session of a client is the one that it answers with.
  pub at-Answering :
      (k : Impl Message Ec C T) (s : Run S R Message Ec C T L)
      → s.main.session ≡ some k
      → IsClient s
      → Answering k s
  at-Answering k s at (inl h) = absurd (ground (arith, h.none_yet))
  at-Answering k s at (inr (i, h)) =
      let same : i ≡ k = ground (arith, h.one) in subst (λ x. Answering x s) same h
