-- ===== src/Session/Calls.antt =====
-- What the handlers of a session (include/beast_router/impl/session.ipp) leave alone: they start no
-- read and no handshake, and take no report back.
use mathlib.Core.List.{append_assoc, append-nil}
use beast_router.Base.{
  ℕ, ◌≡◌, refl, sym, ap, ◌∙◌, Bool, true, false, not, leb, if◌then◌else◌, String, List, [], ◌∷◌,
  ◌++◌, arith, Bool-cases, inl, inr, ◌&&◌,
}
use beast_router.Base.Outcome.{Outcome, done}
use beast_router.Connection.{shutdown_both}
use beast_router.Timer.{expiry}
use beast_router.ConnQueue
use beast_router.ConnQueue.{push_lem, on_write_lem}
use beast_router.Session.{
  send, Operation, reads, writes, waits, handshakes, Boost, Impl, do_eof, do_write, on_timer,
  on_write, on_read, on_handshake, run_task, handshake_done, report_if, cancel_timer, as_queue,
  lift_queue,
}

module _ {Message : Type 0} where
  -- The reads and the handshakes among the asynchronous calls.
  abbrev pub inputs_of : List (Operation Message) → List (Operation Message)
  inputs_of [] = []
  inputs_of (reads ∷ ops) = reads ∷ inputs_of ops
  inputs_of (handshakes server func ∷ ops) = handshakes server func ∷ inputs_of ops
  inputs_of (writes m close ∷ ops) = inputs_of ops
  inputs_of (waits ∷ ops) = inputs_of ops

  pub inputs_of-append :
      (ops more : List (Operation Message))
      → inputs_of (ops ++ more) ≡ inputs_of ops ++ inputs_of more
  inputs_of-append [] more = refl
  inputs_of-append (reads ∷ ops) more = ap (λ l. reads ∷ l) (inputs_of-append ops more)
  inputs_of-append (handshakes server func ∷ ops) more =
      ap (λ l. handshakes server func ∷ l) (inputs_of-append ops more)
  inputs_of-append (writes m close ∷ ops) more = inputs_of-append ops more
  inputs_of-append (waits ∷ ops) more = inputs_of-append ops more

  inputs_of-write :
      (ops : List (Operation Message)) (m : Message) (close : Bool)
      → inputs_of (ops ++ writes m close ∷ []) ≡ inputs_of ops
  inputs_of-write ops m close = inputs_of-append ops (writes m close ∷ []) ∙ append-nil _

module _ {Message Ec C T : Type 0} where
  -- The reads and the handshakes are the same, and the reports go on.
  pub record Keeps (i j : Impl Message Ec C T) : Type 0 where
    pub inputs : inputs_of j.started ≡ inputs_of i.started
    pub reported : (more : List (Ec × String)) × (j.reports ≡ i.reports ++ more)

  Keeps-trans : {i j k : Impl Message Ec C T} → Keeps i j → Keeps j k → Keeps i k
  Keeps-trans {i} p q = record {
    inputs = q.inputs ∙ p.inputs;
    reported = (
      p.reported.0 ++ q.reported.0,
      q.reported.1
          ∙ ap (λ l. l ++ q.reported.0) p.reported.1
          ∙ append_assoc i.reports p.reported.0 q.reported.0,
    );
  }

  same-Keeps :
      (i j : Impl Message Ec C T) → j.started ≡ i.started → j.reports ≡ i.reports → Keeps i j
  same-Keeps i j s r = record {
    inputs = ap inputs_of s;
    reported = ([], r ∙ sym (append-nil i.reports));
  }

  if-Keeps :
      (c : Bool) {i j k : Impl Message Ec C T}
      → Keeps i j
      → Keeps i k
      → Keeps i (if c then j else k)
  if-Keeps true p q = p
  if-Keeps false p q = q

  Keeps-done :
      (i k j : Impl Message Ec C T)
      → Keeps i k
      → ◌≡◌ {A = Outcome (Impl Message Ec C T) (Impl Message Ec C T)} (done k) (done j)
      → Keeps i j
  Keeps-done i k j p e = let f : k ≡ j = cc in rw (← f) p

module _ {Message Ec C T : Type 0} (b : Boost Message Ec C T) where
  cancel_timer-Keeps : (i : Impl Message Ec C T) → Keeps i (cancel_timer b i)
  cancel_timer-Keeps i = same-Keeps i _ refl refl

  report_if-Keeps :
      (failed : Bool) (ec : Ec) (place : String) (i : Impl Message Ec C T)
      → Keeps i (report_if b failed ec place i)
  report_if-Keeps failed ec place i = elim (Bool-cases (failed && i.m_on_error)) [
    | inl told ↦ rw told (record { inputs = refl; reported = ((ec, place) ∷ [], refl) })
    | inr quiet ↦ rw quiet (same-Keeps i i refl refl)
  ]

  do_eof-Keeps : (i : Impl Message Ec C T) → Keeps i (do_eof b shutdown_both i)
  unfolding do_eof
  do_eof-Keeps i =
      let (ec, connection) = b.connection.shutdown shutdown_both i.m_connection in
      let j : Impl Message Ec C T = record i { m_connection = connection } in
      let reported =
        Keeps-trans {i = i} {j = j} (same-Keeps i j refl refl)
          (report_if-Keeps (b.failed ec) ec "shutdown/eof" j) in
      elim (Bool-cases (b.connection.is_open i.m_connection)) [
        | inl open_ ↦ rw open_ reported
        | inr closed ↦ rw closed (same-Keeps i i refl refl)
      ]

  pub on_timer-Keeps : (ec : Ec) (now : ℕ) (i : Impl Message Ec C T) → Keeps i (on_timer b ec now i)
  unfolding on_timer
  on_timer-Keeps ec now i =
      let told = report_if-Keeps true b.timed_out "async_timer/on_timer" i in
      if-Keeps (b.failed ec && not (b.is_operation_aborted ec))
        (report_if-Keeps true ec "async_timer/on_timer" i)
        (if-Keeps (leb (expiry b.timer i.m_timer) now) (Keeps-trans told (do_eof-Keeps _))
          (same-Keeps i i refl refl))

  closed-Keeps : (i : Impl Message Ec C T) → Keeps i (do_eof b shutdown_both (cancel_timer b i))
  closed-Keeps i = Keeps-trans (cancel_timer-Keeps i) (do_eof-Keeps (cancel_timer b i))

  reported-Keeps :
      (failed : Bool) (ec : Ec) (place : String) (i : Impl Message Ec C T)
      → Keeps i (report_if b failed ec place (cancel_timer b i))
  reported-Keeps failed ec place i =
      Keeps-trans (cancel_timer-Keeps i) (report_if-Keeps failed ec place (cancel_timer b i))

  pub on_read-Keeps :
      (ec : Ec) (message : Message) (i j : Impl Message Ec C T)
      → on_read b (λ m k. done k) ec message i ≡ done j
      → Keeps i j
  unfolding on_read
  on_read-Keeps ec message i j e = elim (Bool-cases (b.is_end_of_stream ec)) [
    | inl eos ↦ Keeps-done i _ j (closed-Keeps i) (ground arith)
    | inr more ↦
        Keeps-done i _ j (reported-Keeps (b.failed ec) ec "async_read/on_read" i) (ground arith)
  ]

  on_handshake-Keeps : (ec : Ec) (i : Impl Message Ec C T) → Keeps i (on_handshake b ec i)
  unfolding on_handshake
  on_handshake-Keeps ec i =
      if-Keeps (b.is_end_of_stream ec) (closed-Keeps i)
        (reported-Keeps (b.failed ec) ec "async_handshake/on_handshake" i)

  continue-Keeps :
      (i j : Impl Message Ec C T) (q : List Message)
      → i.m_queue ≡ q
      → lift_queue b (ConnQueue.on_write (do_write b) (as_queue b i)) ≡ done j
      → Keeps i j
  unfolding do_write
  continue-Keeps i j [] q e = absurd (ground (arith, on_write_lem (do_write b) (as_queue b i)))
  continue-Keeps i j (m ∷ []) q e =
      same-Keeps i j (ground (arith, on_write_lem (do_write b) (as_queue b i)))
        (ground (arith, on_write_lem (do_write b) (as_queue b i)))
  continue-Keeps i j (m ∷ n ∷ more) q e = record {
    inputs = ground (
      arith,
      on_write_lem (do_write b) (as_queue b i),
      inputs_of-write i.started n (b.need_eof n),
    );
    reported =
        ([], ground (arith, on_write_lem (do_write b) (as_queue b i)) ∙ sym (append-nil i.reports));
  }

  pub on_write-Keeps :
      (ec : Ec) (close : Bool) (i j : Impl Message Ec C T)
      → on_write b ec close i ≡ done j
      → Keeps i j
  unfolding on_write
  on_write-Keeps ec close i j h = elim (Bool-cases (b.is_end_of_stream ec)) [
    | inl eos ↦ Keeps-done i _ j (closed-Keeps i) (ground arith)
    | inr e ↦ elim (Bool-cases (b.failed ec && i.m_on_error)) [
      | inl f ↦ Keeps-done i _ j (reported-Keeps true ec "async_write/on_write" i) (ground arith)
      | inr f ↦ elim (Bool-cases close) [
        | inl c ↦ Keeps-done i _ j (closed-Keeps i) (ground arith)
        | inr c ↦
            Keeps-trans (cancel_timer-Keeps i)
              (continue-Keeps (cancel_timer b i) j i.m_queue refl (ground arith))
      ]
    ]
  ]

  -- A handshake whose continuation sends a message.
  pub handshake_done-Keeps :
      (server : Bool) (ec : Ec) (m : Message) (i j : Impl Message Ec C T)
      → handshake_done b server ec (send m) i ≡ done j
      → Keeps i j
  unfolding handshake_done run_task do_write
  handshake_done-Keeps server ec m i j e = elim (Bool-cases (b.failed ec)) [
    | inl failed ↦ Keeps-done i _ j (on_handshake-Keeps ec i) (ground arith)
    | inr fine ↦
        let h = on_handshake b ec i in
        let pushed = push_lem (do_write b) m (as_queue b h) in
        let sent : Keeps h j = record {
          inputs = ground (arith, pushed, inputs_of-write h.started m (b.need_eof m));
          reported = ([], ground (arith, pushed) ∙ sym (append-nil h.reports));
        } in
        Keeps-trans (on_handshake-Keeps ec i) sent
  ]
