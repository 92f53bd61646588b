-- ===== src/Session/Handlers.antt =====
-- How the handlers of a session (include/beast_router/impl/session.ipp) treat errors and timeouts.
use beast_router.Base.{
  ℕ, suc, ◌+◌, ◌≤◌, ◌≡◌, refl, sym, ◌∙◌, Bool, true, false, ◌&&◌, List, [], ◌∷◌, ◌++◌, arith, leb,
  if◌then◌else◌, Bool-cases, ◌⊎◌, inl, inr,
}
use beast_router.Base.Outcome.{Outcome, done}
use beast_router.Connection.{shutdown_both}
use beast_router.Timer.{expiry, cancel, async_wait}
use beast_router.Session.{
  Task, Operation, reads, writes, waits, handshakes, Boost, Impl, do_timer, do_eof, on_timer,
  on_write, on_read, do_handshake, do_handshake_for, on_handshake, report_if, cancel_timer,
}

module _ {Message : Type 0} where
  -- The waits for the timer among the asynchronous calls.
  abbrev pub count_waits : List (Operation Message) → ℕ
  count_waits [] = 0
  count_waits (waits ∷ ops) = suc (count_waits ops)
  count_waits (reads ∷ ops) = count_waits ops
  count_waits (writes m close ∷ ops) = count_waits ops
  count_waits (handshakes server func ∷ ops) = count_waits ops

  count_waits-append :
      (ops more : List (Operation Message))
      → count_waits (ops ++ more) ≡ count_waits ops + count_waits more
  count_waits-append [] more = omega arith
  count_waits-append (waits ∷ ops) more = omega (arith, count_waits-append ops more)
  count_waits-append (reads ∷ ops) more = count_waits-append ops more
  count_waits-append (writes m close ∷ ops) more = count_waits-append ops more
  count_waits-append (handshakes server func ∷ ops) more = count_waits-append ops more

module _ {Message Ec C T : Type 0} (b : Boost Message Ec C T) where
  -- With an error handler.
  reported_error :
      (process : Message
        → Impl Message Ec C T
        → Outcome (Impl Message Ec C T) (Impl Message Ec C T))
      (ec : Ec) (message : Message) (close : Bool) (i : Impl Message Ec C T)
      → b.failed ec ≡ true
      → b.is_end_of_stream ec ≡ false
      → i.m_on_error ≡ true
      → (k l : Impl Message Ec C T) × (on_read b process ec message i ≡ process message k)
        × (k.reports ≡ i.reports ++ (ec, "async_read/on_read") ∷ [])
        × (k.m_connection ≡ i.m_connection)
        × (on_write b ec close i ≡ done l)
        × (l.reports ≡ i.reports ++ (ec, "async_write/on_write") ∷ [])
        × (l.started ≡ i.started)
        × (l.m_queue ≡ i.m_queue)
        × (l.m_connection ≡ i.m_connection)
  unfolding on_read on_write
  reported_error process ec message close i f e h = (
    report_if b true ec "async_read/on_read" (cancel_timer b i),
    report_if b true ec "async_write/on_write" (cancel_timer b i),
    rw (e, f) refl,
    ground arith,
    ground arith,
    ground arith,
    ground arith,
    ground arith,
    ground arith,
    ground arith,
  )

  -- Without one.
  unreported_error :
      (process : Message
        → Impl Message Ec C T
        → Outcome (Impl Message Ec C T) (Impl Message Ec C T))
      (ec other : Ec) (message : Message) (close : Bool) (i : Impl Message Ec C T)
      → i.m_on_error ≡ false
      → b.is_end_of_stream ec ≡ false
      → b.is_end_of_stream other ≡ false
      → (on_read b process ec message i ≡ on_read b process other message i)
        × (on_write b ec close i ≡ on_write b other close i)
        × (on_handshake b ec i ≡ on_handshake b other i)
  unfolding on_read on_write on_handshake
  unreported_error process ec other message close i h e f =
      (ground arith, ground arith, ground arith)

  -- An error that is not the end of the stream. Where an error handler is set, it is reported once,
  -- after a read as after a write: after a write the session stops, starts nothing and keeps its queue,
  -- while after a read it hands the message of the failed read to the dispatcher; neither shuts the
  -- connection down. Where none is set, reads, writes and handshakes go on as they do after any other
  -- error code that is not the end of the stream, failed or not: a failed write counts as a success.
  pub error-cases :
      (process : Message
        → Impl Message Ec C T
        → Outcome (Impl Message Ec C T) (Impl Message Ec C T))
      (ec other : Ec) (message : Message) (close : Bool) (i : Impl Message Ec C T)
      → b.failed ec ≡ true
      → b.is_end_of_stream ec ≡ false
      → b.is_end_of_stream other ≡ false
      → ((i.m_on_error ≡ true)
          × (k l : Impl Message Ec C T) × (on_read b process ec message i ≡ process message k)
          × (k.reports ≡ i.reports ++ (ec, "async_read/on_read") ∷ [])
          × (k.m_connection ≡ i.m_connection)
          × (on_write b ec close i ≡ done l)
          × (l.reports ≡ i.reports ++ (ec, "async_write/on_write") ∷ [])
          × (l.started ≡ i.started)
          × (l.m_queue ≡ i.m_queue)
          × (l.m_connection ≡ i.m_connection))
        ⊎ ((i.m_on_error ≡ false)
            × (on_read b process ec message i ≡ on_read b process other message i)
            × (on_write b ec close i ≡ on_write b other close i)
            × (on_handshake b ec i ≡ on_handshake b other i))
  error-cases process ec other message close i f e g = elim (Bool-cases i.m_on_error) [
    | inl h ↦
        let (k, l, read, told, kept, wrote, told', started, queue, kept') =
          reported_error process ec message close i f e h in
        inl (h, k, l, read, told, kept, wrote, told', started, queue, kept')
    | inr h ↦
        let (read, wrote, shook) = unreported_error process ec other message close i h e g in
        inr (h, read, wrote, shook)
  ]

  -- A wait that was cancelled is treated as one that has elapsed: the session looks at the clock.
  -- Before the expiry nothing changes, from then on the connection is shut down, if it is open.
  pub on_timer-aborted :
      (ec fine : Ec) (now : ℕ) (i : Impl Message Ec C T)
      → b.is_operation_aborted ec ≡ true
      → b.failed fine ≡ false
      → (on_timer b ec now i ≡ on_timer b fine now i)
        × ((on_timer b ec now i).m_connection ≡ (
            if leb (expiry b.timer i.m_timer) now && b.connection.is_open i.m_connection
            then (b.connection.shutdown shutdown_both i.m_connection).1
            else i.m_connection))
  unfolding on_timer do_eof
  on_timer-aborted ec fine now i a f = (ground arith, ground arith)

  -- If cancelling leaves the expiry as it is, a read that has ended in time can still cost the
  -- connection: its cancelled wait shuts the connection down when its handler runs at or after the
  -- expiry.
  pub late_abort :
      (ec aborted : Ec) (message : Message) (now : ℕ) (i j : Impl Message Ec C T)
      → ((t : T) → expiry b.timer (cancel b.timer t).1 ≡ expiry b.timer t)
      → b.failed ec ≡ false
      → b.is_end_of_stream ec ≡ false
      → b.is_operation_aborted aborted ≡ true
      → on_read b (λ m k. done k) ec message i ≡ done j
      → expiry b.timer i.m_timer ≤ now
      → b.connection.is_open i.m_connection ≡ true
      → (on_timer b aborted now j).m_connection
        ≡ (b.connection.shutdown shutdown_both i.m_connection).1
  unfolding on_timer do_eof on_read
  late_abort ec aborted message now i j keeps f e a h late o = ground (arith, keeps i.m_timer)

  -- A timeout given to `recv` or `send` starts a wait for the timer. One given to the handshake sets
  -- the timer to the same expiry and starts no wait, so that it never takes effect.
  pub do_handshake_for-count_waits :
      (server : Bool) (func : Task Message) (duration : ℕ) (i : Impl Message Ec C T)
      → ((t : T) → expiry b.timer (async_wait b.timer t) ≡ expiry b.timer t)
      → (count_waits (do_timer b duration i).started ≡ count_waits i.started + 1)
        × (count_waits (do_handshake_for b server func duration i).started ≡ count_waits i.started)
        × (expiry b.timer (do_handshake_for b server func duration i).m_timer
            ≡ expiry b.timer (do_timer b duration i).m_timer)
  unfolding do_timer do_handshake_for do_handshake
  do_handshake_for-count_waits server func duration i keeps = (
    count_waits-append i.started (waits ∷ []),
    count_waits-append i.started (handshakes server func ∷ []) ∙ omega arith,
    sym (keeps _),
  )
