-- ===== src/Session.antt =====
-- include/beast_router/session.hpp and impl/session.ipp: one connection with its timer, its queue of
-- messages and its dispatcher. The asynchronous calls are recorded in the order in which they start.
pub mod Flow
pub mod Handlers
pub mod Effects
pub mod Steps
pub mod Deadline
pub mod Delivery
pub mod Calls
pub mod Context
pub mod Progress
pub mod Rereading
pub mod Timeouts
pub mod Silent
pub mod Lifetime
pub mod Launch
pub mod Serving
pub mod Overloads
use beast_router.Base.{
  ℕ, Bool, true, not, ◌&&◌, String, List, [], ◌∷◌, ◌++◌, Option, none, some, leb, if◌then◌else◌,
}
use beast_router.Base.Outcome.{Outcome, done, ◌>>=◌}
use beast_router.Connection.{ShutdownType, shutdown_both, ConnectionOps}
use beast_router.Timer.{AsioTimer, timer, expires_from_now, expiry, cancel, async_wait}
use beast_router.ConnQueue
use beast_router.ConnQueue.{Queue}
use beast_router.Router.{Router}
use beast_router.Dispatcher.{Dispatcher, dispatcher}

-- What `context` sends to the strand.
pub data Task (Message : Type 0) : Type 0 where
  recv : Task Message
  recv_for : (duration : ℕ) → Task Message
  send : Message → Task Message
  send_for : Message → (duration : ℕ) → Task Message
  handshake : Task Message → Task Message
  handshake_for : Task Message → (duration : ℕ) → Task Message

-- The asynchronous calls, with what their handlers were bound to.
pub data Operation (Message : Type 0) : Type 0 where
  reads : Operation Message
  writes : Message → (close : Bool) → Operation Message
  waits : Operation Message
  handshakes : (server : Bool) → Task Message → Operation Message

-- Boost as the session uses it: how it reads an error code, the two error codes that it compares
-- with, the one that it makes, and `need_eof` of a message.
pub record Boost (Message Ec C T : Type 0) : Type 0 where
  pub connection : ConnectionOps C Ec
  pub timer : AsioTimer T Ec
  pub failed : Ec → Bool
  pub is_end_of_stream : Ec → Bool
  pub is_operation_aborted : Ec → Bool
  pub timed_out : Ec
  pub need_eof : Message → Bool

-- `session::impl`. Of `m_on_error` it is kept whether it holds a function, and `reports` are its
-- calls, the oldest first.
pub record Impl (Message Ec C T : Type 0) : Type 0 where
  pub m_connection : C
  pub m_timer : T
  pub m_on_error : Bool
  pub m_queue : List Message
  pub m_serializer : Option Message
  pub m_dispatcher : Dispatcher
  pub started : List (Operation Message)
  pub reports : List (Ec × String)

module _ {Message Ec C T : Type 0} (b : Boost Message Ec C T) where
  -- `init_context`: the constructor of `impl`.
  unfoldable pub init_context : C → Router → (on_error : Bool) → Impl Message Ec C T
  unfolding timer dispatcher
  init_context connection router on_error = record {
    m_connection = connection;
    m_timer = timer b.timer;
    m_on_error = on_error;
    m_queue = [];
    m_serializer = none;
    m_dispatcher = dispatcher router;
    started = [];
    reports = [];
  }

  abbrev pub start : Operation Message → Impl Message Ec C T → Impl Message Ec C T
  start op i = record i { started = i.started ++ op ∷ [] }

  -- `if (ec && m_on_error) { m_on_error(ec, where); }`.
  abbrev pub report_if : Bool → Ec → String → Impl Message Ec C T → Impl Message Ec C T
  report_if failed ec place i =
      if failed && i.m_on_error then record i { reports = i.reports ++ (ec, place) ∷ [] } else i

  abbrev pub cancel_timer : Impl Message Ec C T → Impl Message Ec C T
  cancel_timer i = record i { m_timer = (cancel b.timer i.m_timer).1 }

  unfoldable pub do_timer : (duration : ℕ) → Impl Message Ec C T → Impl Message Ec C T
  do_timer duration i =
      let t = (expires_from_now b.timer duration i.m_timer).1 in
      start waits (record i { m_timer = async_wait b.timer t })

  unfoldable pub do_read : Impl Message Ec C T → Impl Message Ec C T
  do_read i = start reads i

  unfoldable pub do_eof : ShutdownType → Impl Message Ec C T → Impl Message Ec C T
  do_eof type i =
      let (ec, connection) = b.connection.shutdown type i.m_connection in
      if not (b.connection.is_open i.m_connection)
      then i
      else report_if (b.failed ec) ec "shutdown/eof" (record i { m_connection = connection })

  -- `now` is what the clock says when the handler runs.
  unfoldable pub on_timer : (ec : Ec) (now : ℕ) → Impl Message Ec C T → Impl Message Ec C T
  unfolding do_eof
  on_timer ec now i =
      if b.failed ec && not (b.is_operation_aborted ec)
      then report_if true ec "async_timer/on_timer" i
      else if leb (expiry b.timer i.m_timer) now
      then do_eof shutdown_both (report_if true b.timed_out "async_timer/on_timer" i)
      else i

  unfoldable pub do_write : Message → Impl Message Ec C T → Impl Message Ec C T
  do_write message i =
      start (writes message (b.need_eof message)) (record i { m_serializer = some message })

  -- The queue is a member that refers back to its owner.
  abbrev pub as_queue : Impl Message Ec C T → Queue Message (Impl Message Ec C T)
  as_queue i = record { m_impl = i; m_items = i.m_queue }

  abbrev pub from_queue : Queue Message (Impl Message Ec C T) → Impl Message Ec C T
  from_queue q = record q.m_impl { m_queue = q.m_items }

  abbrev pub lift_queue :
      Outcome (Queue Message (Impl Message Ec C T)) (Impl Message Ec C T)
      → Outcome (Impl Message Ec C T) (Impl Message Ec C T)
  lift_queue o = o >>= λ q. done (from_queue q)

  unfoldable pub on_write :
      (ec : Ec) (close : Bool)
      → Impl Message Ec C T
      → Outcome (Impl Message Ec C T) (Impl Message Ec C T)
  on_write ec close i =
      let c = cancel_timer i in
      if b.is_end_of_stream ec
      then done (do_eof shutdown_both c)
      else if b.failed ec && c.m_on_error
      then done (report_if true ec "async_write/on_write" c)
      else if close
      then done (do_eof shutdown_both c)
      else lift_queue (ConnQueue.on_write do_write (as_queue c))

  -- `process` is `do_process_request`, and `message` what the parser releases.
  unfoldable pub on_read :
      (process : Message
        → Impl Message Ec C T
        → Outcome (Impl Message Ec C T) (Impl Message Ec C T))
      (ec : Ec) (message : Message)
      → Impl Message Ec C T
      → Outcome (Impl Message Ec C T) (Impl Message Ec C T)
  on_read process ec message i =
      let c = cancel_timer i in
      if b.is_end_of_stream ec
      then done (do_eof shutdown_both c)
      else process message (report_if (b.failed ec) ec "async_read/on_read" c)

  unfoldable pub do_handshake :
      (server : Bool) → Task Message → Impl Message Ec C T → Impl Message Ec C T
  do_handshake server func i = start (handshakes server func) i

  unfoldable pub do_handshake_for :
      (server : Bool) → Task Message → (duration : ℕ) → Impl Message Ec C T → Impl Message Ec C T
  unfolding do_handshake
  do_handshake_for server func duration i =
      do_handshake server func
        (record i { m_timer = (expires_from_now b.timer duration i.m_timer).1 })

  unfoldable pub on_handshake : (ec : Ec) → Impl Message Ec C T → Impl Message Ec C T
  on_handshake ec i =
      let c = cancel_timer i in
      if b.is_end_of_stream ec
      then do_eof shutdown_both c
      else report_if (b.failed ec) ec "async_handshake/on_handshake" c

  -- What the strand runs for each call of the context.
  unfoldable pub run_task :
      (server : Bool)
      → Task Message
      → Impl Message Ec C T
      → Outcome (Impl Message Ec C T) (Impl Message Ec C T)
  run_task server recv i = done (do_read i)
  run_task server (recv_for duration) i = done (do_read (do_timer duration i))
  run_task server (send message) i = lift_queue (ConnQueue.push do_write message (as_queue i))
  run_task server (send_for message duration) i =
      lift_queue (ConnQueue.push do_write message (as_queue (do_timer duration i)))
  run_task server (handshake func) i = done (do_handshake server func i)
  run_task server (handshake_for func duration) i = done (do_handshake_for server func duration i)

  -- The handler of the handshake: on success the continuation's call of the context.
  unfoldable pub handshake_done :
      (server : Bool) (ec : Ec) (func : Task Message)
      → Impl Message Ec C T
      → Outcome (Impl Message Ec C T) (Impl Message Ec C T)
  handshake_done server ec func i =
      let h = on_handshake ec i in if b.failed ec then done h else run_task server func h
