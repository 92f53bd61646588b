-- ===== src/Examples/Client/Reaching.antt =====
-- The runs of the clients of examples/: what completes, in any order, as long as nothing is thrown.
-- The programs make event loops without threads of their own.
use beast_router.Base.{
  ℕ, suc, ◌<◌, ◌≡◌, refl, ap, Bool, String, true, false, List, [], ◌∷◌, ◌++◌, some, drop, get_elem?,
  if◌then◌else◌,
}
use beast_router.Base.Outcome.{done}
use beast_router.ConnQueue.{push, do_handle}
use beast_router.Connector.{resolves, connects}
use beast_router.Dispatcher.{Env}
use beast_router.EventLoop.{IoContext}
use beast_router.HttpUtility.{MessageOps}
use beast_router.Router.{Verb, Router}
use beast_router.Session
use beast_router.Session.{
  Task, recv_for, send, send_for, reads, writes, waits, handshakes, Boost, Impl, init_context,
  do_handshake, do_timer, do_read, do_write, run_task,
}
use beast_router.Session.Calls.{inputs_of}
use beast_router.Session.Context.{dispatch, drain}
use beast_router.Session.Delivery.{fresh}
use beast_router.Session.Effects.{writes_of}
use beast_router.Session.Steps
use beast_router.Session.Steps.{State}
use beast_router.Examples.Client.{Stopping, request}
use beast_router.Examples.Client.Running.{
  Program, client, ssl_client, Main, send_request, complete_resolve, complete_connect,
  complete_handshake, complete_write, complete_time, complete_read,
}

module _ {Message : Type 0} where
  -- The handshakes and the number of reads among the asynchronous calls.
  abbrev pub handshakes_of : List (Session.Operation Message) → List (Bool × Task Message)
  handshakes_of [] = []
  handshakes_of (handshakes server func ∷ ops) = (server, func) ∷ handshakes_of ops
  handshakes_of (reads ∷ ops) = handshakes_of ops
  handshakes_of (writes m close ∷ ops) = handshakes_of ops
  handshakes_of (waits ∷ ops) = handshakes_of ops

  abbrev pub count_reads : List (Session.Operation Message) → ℕ
  count_reads [] = 0
  count_reads (reads ∷ ops) = suc (count_reads ops)
  count_reads (handshakes server func ∷ ops) = count_reads ops
  count_reads (writes m close ∷ ops) = count_reads ops
  count_reads (waits ∷ ops) = count_reads ops

  pub handshakes_of-inputs_of :
      (ops : List (Session.Operation Message)) → handshakes_of ops ≡ handshakes_of (inputs_of ops)
  handshakes_of-inputs_of [] = refl
  handshakes_of-inputs_of (handshakes server func ∷ ops) =
      ap (λ l. (server, func) ∷ l) (handshakes_of-inputs_of ops)
  handshakes_of-inputs_of (reads ∷ ops) = handshakes_of-inputs_of ops
  handshakes_of-inputs_of (writes m close ∷ ops) = handshakes_of-inputs_of ops
  handshakes_of-inputs_of (waits ∷ ops) = handshakes_of-inputs_of ops

  pub count_reads-inputs_of :
      (ops : List (Session.Operation Message)) → count_reads ops ≡ count_reads (inputs_of ops)
  count_reads-inputs_of [] = refl
  count_reads-inputs_of (reads ∷ ops) = ap suc (count_reads-inputs_of ops)
  count_reads-inputs_of (handshakes server func ∷ ops) = count_reads-inputs_of ops
  count_reads-inputs_of (writes m close ∷ ops) = count_reads-inputs_of ops
  count_reads-inputs_of (waits ∷ ops) = count_reads-inputs_of ops

-- A client between two handlers, with the numbers of completed calls of the connector, and of completed
-- handshakes, writes and reads of the session, and the responses that were handed to the dispatcher.
pub record Run (S R Message Ec C T L : Type 0) : Type 0 where
  pub main : Main S R Message Ec C T L
  pub attempts : ℕ
  pub shaken : ℕ
  pub written : ℕ
  pub read : ℕ
  pub answered : List Message

module _ {S R Message File Ec C T L Code : Type 0} (ops : MessageOps Message Verb File Ec)
    (b : Boost Message Ec C T) (program : Program) (one_second : ℕ) (make : S → C) (router : Router)
    (moved_from : S) (io : IoContext L Ec Code) {Ctx Match Regex : Type 0}
    (env : Env Message Ctx Match (Stopping L) Regex)
    (send_not_found : Message → Ctx → Stopping L → Ctx × Stopping L) where
  -- A call that is in flight completes; the calls of a kind complete in the order in which they started.
  -- The handler of the timer runs at any time.
  pub data Step (s t : Run S R Message Ec C T L) : Type 0 where
    resolved :
        (address port : String) (ec : Ec) (results : R) (m : Main S R Message Ec C T L)
        → get_elem? s.main.connector.started s.attempts ≡ some (resolves address port)
        → complete_resolve b moved_from ec results s.main ≡ done m
        → t ≡ record s { main = m; attempts = suc s.attempts }
        → Step s t
    connected :
        (endpoints : R) (ec : Ec) (m : Main S R Message Ec C T L)
        → get_elem? s.main.connector.started s.attempts ≡ some (connects endpoints)
        → complete_connect b moved_from ops program one_second make router ec s.main ≡ done m
        → t ≡ record s { main = m; attempts = suc s.attempts }
        → Step s t
    shook :
        (i : Impl Message Ec C T) (server : Bool) (func : Task Message)
        (rest : List (Bool × Task Message)) (ec : Ec) (m : Main S R Message Ec C T L)
        → s.main.session ≡ some i
        → drop s.shaken (handshakes_of i.started) ≡ (server, func) ∷ rest
        → complete_handshake b io false ec func i s.main ≡ done m
        → t ≡ record s { main = m; shaken = suc s.shaken }
        → Step s t
    wrote :
        (i : Impl Message Ec C T) (message : Message) (close : Bool) (rest : List (Message × Bool))
        (ec : Ec) (m : Main S R Message Ec C T L)
        → s.main.session ≡ some i
        → drop s.written (writes_of i.started) ≡ (message, close) ∷ rest
        → complete_write b io false ec close i s.main ≡ done m
        → t ≡ record s { main = m; written = suc s.written }
        → Step s t
    timed :
        (i : Impl Message Ec C T) (ec : Ec) (now : ℕ) (m : Main S R Message Ec C T L)
        → s.main.session ≡ some i
        → complete_time b io false ec now i s.main ≡ done m
        → t ≡ record s { main = m }
        → Step s t
    got :
        (i : Impl Message Ec C T) (ec : Ec) (message : Message) (m : Main S R Message Ec C T L)
        → s.main.session ≡ some i
        → s.read < count_reads i.started
        → complete_read b io false env send_not_found ec message i s.main ≡ done m
        → t ≡ record s {
          main = m;
          read = suc s.read;
          answered = s.answered ++ (if b.is_end_of_stream ec then [] else message ∷ []);
        }
        → Step s t

  pub data Reach (s : Run S R Message Ec C T L) : Run S R Message Ec C T L → Type 0 where
    here : Reach s s
    then : {t u : Run S R Message Ec C T L} → Reach s t → Step t u → Reach s u

-- The reads and the handshakes of the session, once the strand has run the two calls, and what was sent.
module _ {Message File Ec : Type 0} (ops : MessageOps Message Verb File Ec) where
  abbrev pub inputs : Program → List (Session.Operation Message)
  inputs client = reads ∷ []
  inputs ssl_client = handshakes false (send (request ops)) ∷ reads ∷ []

  abbrev pub sent_at_once : Program → List Message
  sent_at_once client = request ops ∷ []
  sent_at_once ssl_client = []

module _ {Message Ec C T : Type 0} (b : Boost Message Ec C T) where
  two_steps :
      (s t u : State Message Ec C T)
      → Steps.Step b false s t
      → Steps.Step b false t u
      → Steps.Reach b false s u
  two_steps s t u p q = Steps.Reach.then (Steps.Reach.then Steps.Reach.here p) q

module _ {Message File Ec C T S : Type 0} (ops : MessageOps Message Verb File Ec)
    (b : Boost Message Ec C T) (one_second : ℕ) (make : S → C) (router : Router) where
  -- The session of a socket after the first of the two calls.
  abbrev called_once : Program → S → Impl Message Ec C T
  called_once client socket =
      record (do_write b (request ops)
        (do_timer b one_second (init_context b (make socket) router true))) {
          m_queue = request ops ∷ [];
        }
  called_once ssl_client socket =
      do_handshake b false (send (request ops)) (init_context b (make socket) router true)

  abbrev called_twice : Program → S → Impl Message Ec C T
  called_twice program socket = do_read b (do_timer b one_second (called_once program socket))

  -- The session that is made is a new one after some steps.
  pub send_request-Reach :
      (program : Program) (socket : S)
      → (i : Impl Message Ec C T) × (send_request ops b program one_second make router socket
          ≡ done (record { impl = i; tasks = [] }))
        × Steps.Reach b false
            (fresh b false (make socket) router true)
            (record { impl = i; completed = 0; sent = sent_at_once ops program })
        × (inputs_of i.started ≡ inputs ops program)
        × (i.reports ≡ [])
  unfolding send_request dispatch drain run_task init_context do_handshake do_timer do_read do_write
      push do_handle
  send_request-Reach client socket = (
    called_twice client socket,
    refl,
    two_steps b (fresh b false (make socket) router true)
        (record { impl = called_once client socket; completed = 0; sent = request ops ∷ [] })
        (record { impl = called_twice client socket; completed = 0; sent = request ops ∷ [] })
        (Steps.Step.call (send_for (request ops) one_second) refl refl refl)
        (Steps.Step.call (recv_for one_second) refl refl refl),
    refl,
    refl,
  )
  send_request-Reach ssl_client socket = (
    called_twice ssl_client socket,
    refl,
    two_steps b (fresh b false (make socket) router true)
        (record { impl = called_once ssl_client socket; completed = 0; sent = [] })
        (record { impl = called_twice ssl_client socket; completed = 0; sent = [] })
        (Steps.Step.call (Task.handshake (send (request ops))) refl refl refl)
        (Steps.Step.call (recv_for one_second) refl refl refl),
    refl,
    refl,
  )
