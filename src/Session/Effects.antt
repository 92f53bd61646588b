-- ===== src/Session/Effects.antt =====
-- What each function of the session (include/beast_router/impl/session.ipp) does to its queue and to
-- the writes that it has started.
use beast_router.Base.{
  ℕ, ◌≡◌, refl, ap, ◌∙◌, ◌⊎◌, inl, inr, Bool, true, ◌&&◌, List, [], ◌∷◌, ◌++◌, arith, Bool-cases,
}
use mathlib.Core.List.{append-nil}
use beast_router.Base.Outcome.{Outcome, done}
use beast_router.Connection.{shutdown_both}
use beast_router.Timer.{expires_from_now}
use beast_router.ConnQueue
use beast_router.ConnQueue.{Queue, push_lem, on_write_lem}
use beast_router.Session.Flow.{behind_front, write_next}
use beast_router.Session.{
  Task, send, send_for, Operation, reads, writes, waits, handshakes, Boost, Impl, do_timer, do_read,
  do_eof, on_timer, do_write, on_write, on_read, do_handshake, do_handshake_for, on_handshake,
  report_if, cancel_timer, lift_queue, as_queue,
}

module _ {Message : Type 0} where
  -- The writes among the asynchronous calls.
  abbrev pub writes_of : List (Operation Message) → List (Message × Bool)
  writes_of [] = []
  writes_of (writes m close ∷ ops) = (m, close) ∷ writes_of ops
  writes_of (reads ∷ ops) = writes_of ops
  writes_of (waits ∷ ops) = writes_of ops
  writes_of (handshakes server func ∷ ops) = writes_of ops

  pub writes_of-append :
      (ops more : List (Operation Message))
      → writes_of (ops ++ more) ≡ writes_of ops ++ writes_of more
  writes_of-append [] more = refl
  writes_of-append (writes m close ∷ ops) more =
      ap (λ l. (m, close) ∷ l) (writes_of-append ops more)
  writes_of-append (reads ∷ ops) more = writes_of-append ops more
  writes_of-append (waits ∷ ops) more = writes_of-append ops more
  writes_of-append (handshakes server func ∷ ops) more = writes_of-append ops more

  -- The message that a task sends.
  abbrev pub sends : Task Message → List Message
  sends (send m) = m ∷ []
  sends (send_for m duration) = m ∷ []
  sends _ = []

module _ {Message Ec C T : Type 0} where
  -- The queue and the writes are the same.
  pub record SameFlow (i j : Impl Message Ec C T) : Type 0 where
    pub queue : j.m_queue ≡ i.m_queue
    pub written : writes_of j.started ≡ writes_of i.started

module _ {Message Ec C T : Type 0} (b : Boost Message Ec C T) where
  start-same :
      (op : Operation Message) (i : Impl Message Ec C T)
      → writes_of (op ∷ []) ≡ []
      → writes_of (i.started ++ op ∷ []) ≡ writes_of i.started
  start-same op i e = writes_of-append i.started (op ∷ []) ∙ rw e (append-nil _)

  pub do_eof-same : (i : Impl Message Ec C T) → SameFlow i (do_eof b shutdown_both i)
  unfolding do_eof
  do_eof-same i = record { queue = ground arith; written = ground arith }

  pub do_timer-same : (d : ℕ) (i : Impl Message Ec C T) → SameFlow i (do_timer b d i)
  unfolding do_timer
  do_timer-same d i = record { queue = refl; written = start-same waits i refl }

  pub do_read-same : (i : Impl Message Ec C T) → SameFlow i (do_read b i)
  unfolding do_read
  do_read-same i = record { queue = refl; written = start-same reads i refl }

  pub do_handshake-same :
      (server : Bool) (func : Task Message) (i : Impl Message Ec C T)
      → SameFlow i (do_handshake b server func i)
  unfolding do_handshake
  do_handshake-same server func i = record {
    queue = refl;
    written = start-same (handshakes server func) i refl;
  }

  pub on_timer-same :
      (ec : Ec) (now : ℕ) (i : Impl Message Ec C T) → SameFlow i (on_timer b ec now i)
  unfolding on_timer
  on_timer-same ec now i = record { queue = ground arith; written = ground arith }

  pub on_handshake-same : (ec : Ec) (i : Impl Message Ec C T) → SameFlow i (on_handshake b ec i)
  unfolding on_handshake
  on_handshake-same ec i = elim (Bool-cases (b.is_end_of_stream ec)) [
    | inl e ↦
        let same = do_eof-same (cancel_timer b i) in
        rw e (record { queue = same.queue; written = same.written })
    | inr e ↦ rw e (record { queue = ground arith; written = ground arith })
  ]

  -- What a message does that comes to the queue.
  pub record Pushed (m : Message) (i j : Impl Message Ec C T) : Type 0 where
    pub queue : j.m_queue ≡ i.m_queue ++ m ∷ []
    pub written : writes_of j.started ≡ elim i.m_queue [
      | [] ↦ writes_of i.started ++ (m, b.need_eof m) ∷ []
      | _ ↦ writes_of i.started
    ]

  pub push-Pushed :
      (m : Message) (i j : Impl Message Ec C T)
      → lift_queue b (ConnQueue.push (do_write b) m (as_queue b i)) ≡ done j
      → Pushed m i j
  unfolding do_write
  push-Pushed m i j e = record {
    queue = ground (arith, push_lem (do_write b) m (as_queue b i));
    written = ground (
      arith,
      push_lem (do_write b) m (as_queue b i),
      writes_of-append i.started (writes m (b.need_eof m) ∷ []),
    );
  }

  pub SameFlow-done :
      (i k j : Impl Message Ec C T)
      → SameFlow i k
      → ◌≡◌ {A = Outcome (Impl Message Ec C T) (Impl Message Ec C T)} (done k) (done j)
      → SameFlow i j
  SameFlow-done i k j same e =
      let f : k ≡ j = cc in record { queue = rw (← f) same.queue; written = rw (← f) same.written }

  pub SameFlow-trans : {i j k : Impl Message Ec C T} → SameFlow i j → SameFlow j k → SameFlow i k
  SameFlow-trans p q = record { queue = q.queue ∙ p.queue; written = q.written ∙ p.written }

  pub Pushed-after :
      (m : Message) {i j k : Impl Message Ec C T} → SameFlow i j → Pushed m j k → Pushed m i k
  Pushed-after m same p = record { queue = ground arith; written = ground arith }

  pub do_handshake_for-same :
      (server : Bool) (func : Task Message) (d : ℕ) (i : Impl Message Ec C T)
      → SameFlow i (do_handshake_for b server func d i)
  unfolding do_handshake_for
  do_handshake_for-same server func d i =
      let same =
        do_handshake-same server func
          (record i { m_timer = (expires_from_now b.timer d i.m_timer).1 }) in
      record { queue = same.queue; written = same.written }

  pub on_read-same :
      (ec : Ec) (message : Message) (i j : Impl Message Ec C T)
      → on_read b (λ m k. done k) ec message i ≡ done j
      → SameFlow i j
  unfolding on_read
  on_read-same ec message i j h = elim (Bool-cases (b.is_end_of_stream ec)) [
    | inl eos ↦
        let same = do_eof-same (cancel_timer b i) in
        SameFlow-done i (do_eof b shutdown_both (cancel_timer b i)) j
          (record { queue = same.queue; written = same.written }) (ground arith)
    | inr e ↦ record { queue = ground arith; written = ground arith }
  ]

  -- The queue goes on to its next message.
  pub record Continued (i j : Impl Message Ec C T) : Type 0 where
    pub queue : j.m_queue ≡ behind_front i.m_queue
    pub written :
        writes_of j.started ≡ write_next b.need_eof (behind_front i.m_queue) (writes_of i.started)

  continue-at :
      (i j : Impl Message Ec C T) (q : List Message)
      → i.m_queue ≡ q
      → lift_queue b (ConnQueue.on_write (do_write b) (as_queue b i)) ≡ done j
      → Continued i j
  unfolding do_write
  continue-at i j [] e h = ground (arith, on_write_lem (do_write b) (as_queue b i))
  continue-at i j (m ∷ []) e h = record {
    queue = ground (arith, on_write_lem (do_write b) (as_queue b i));
    written = ground (arith, on_write_lem (do_write b) (as_queue b i));
  }
  continue-at i j (m ∷ n ∷ more) e h = record {
    queue = ground (arith, on_write_lem (do_write b) (as_queue b i));
    written = ground (
      arith,
      on_write_lem (do_write b) (as_queue b i),
      writes_of-append i.started (writes n (b.need_eof n) ∷ []),
    );
  }

  -- A finished write either leaves the queue and the writes alone, or goes on to the next message.
  pub on_write-effect :
      (ec : Ec) (close : Bool) (i j : Impl Message Ec C T)
      → on_write b ec close i ≡ done j
      → SameFlow i j ⊎ Continued i j
  unfolding on_write
  on_write-effect ec close i j h = elim (Bool-cases (b.is_end_of_stream ec)) [
    | inl eos ↦ inl (SameFlow-done i _ j closed (ground arith))
    | inr e ↦ elim (Bool-cases (b.failed ec && i.m_on_error)) [
      | inl f ↦ inl (SameFlow-done i _ j reported (ground arith))
      | inr f ↦ elim (Bool-cases close) [
        | inl c ↦ inl (SameFlow-done i _ j closed (ground arith))
        | inr c ↦
            let next = continue-at (cancel_timer b i) j i.m_queue refl (ground arith) in
            inr (record { queue = next.queue; written = next.written })
      ]
    ]
  ]
    where
      closed : SameFlow i (do_eof b shutdown_both (cancel_timer b i))
      closed =
          let same = do_eof-same (cancel_timer b i) in
          record { queue = same.queue; written = same.written }

      reported : SameFlow i (report_if b true ec "async_write/on_write" (cancel_timer b i))
      reported = record { queue = ground arith; written = ground arith }
