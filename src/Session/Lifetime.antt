-- ===== src/Session/Lifetime.antt =====
-- What the serializer of a session refers to (include/beast_router/impl/session.ipp): it keeps a
-- reference to a message that the queue (include/beast_router/base/conn_queue.hpp) owns.
use beast_router.Base.{
  ℕ, zero, suc, ◌≡◌, ◌≢◌, refl, sym, ap, ◌∙◌, inl, inr, Bool, true, List, [], ◌∷◌, ◌++◌, Option,
  none, some, drop, arith, Bool-cases,
}
use mathlib.Core.Path.{subst}
use beast_router.Base.Outcome.{done}
use beast_router.ConnQueue.{push_lem, on_write_lem}
use beast_router.Router.{Router}
use beast_router.Session.{
  Task, recv, recv_for, send, send_for, handshake, handshake_for, writes, Boost, Impl, init_context,
  do_eof, do_timer, do_read, do_write, do_handshake, do_handshake_for, on_timer, on_write, on_read,
  on_handshake, run_task, handshake_done, cancel_timer, as_queue,
}
use beast_router.Session.Effects.{
  writes_of, writes_of-append, do_timer-same, do_read-same, do_handshake-same,
  do_handshake_for-same, on_timer-same, on_handshake-same, on_read-same, SameFlow-done,
  SameFlow-trans, SameFlow,
}
use beast_router.Session.Steps.{State, Step, Reach}
use beast_router.Session.Delivery.{fresh, Reach-Orderly}

module _ {Message : Type 0} where
  abbrev last_written : List (Message × Bool) → Option Message
  last_written [] = none
  last_written (w ∷ ws) = elim (last_written ws) [ none ↦ some w.0 | some m ↦ some m ]

  last_written-append :
      (ws : List (Message × Bool)) (w : Message × Bool) → last_written (ws ++ w ∷ []) ≡ some w.0
  last_written-append [] w = refl
  last_written-append (v ∷ ws) w = rw (last_written-append ws w) refl

  last_written-drop :
      (n : ℕ) (ws : List (Message × Bool)) (w : Message × Bool)
      → drop n ws ≡ w ∷ []
      → last_written ws ≡ some w.0
  last_written-drop zero [] w e = ground arith
  last_written-drop (suc n) [] w e = ground arith
  last_written-drop zero (v ∷ ws) w e = ground arith
  last_written-drop (suc n) (v ∷ ws) w e = rw (last_written-drop n ws w e) refl

module _ {Message Ec C T : Type 0} (b : Boost Message Ec C T) where
  -- The serializer is that of the last write.
  abbrev IsLast : Impl Message Ec C T → Type 0
  IsLast i = i.m_serializer ≡ last_written (writes_of i.started)

  same-IsLast :
      {i j : Impl Message Ec C T}
      → j.m_serializer ≡ i.m_serializer
      → SameFlow i j
      → IsLast i
      → IsLast j
  same-IsLast e same h = e ∙ h ∙ ap last_written (sym same.written)

  push-IsLast :
      (m : Message) (i j : Impl Message Ec C T)
      → run_task b true (send m) i ≡ done j
      → IsLast i
      → IsLast j
  unfolding run_task do_write
  push-IsLast m i j e h = ground (
    arith,
    push_lem (do_write b) m (as_queue b i),
    writes_of-append i.started (writes m (b.need_eof m) ∷ []),
    last_written-append (writes_of i.started) (m, b.need_eof m),
  )

  on_write-at :
      (ec : Ec) (close : Bool) (i j : Impl Message Ec C T) (q : List Message)
      → i.m_queue ≡ q
      → on_write b ec close i ≡ done j
      → IsLast i
      → IsLast j
  unfolding on_write do_write do_eof
  on_write-at ec close i j [] f e h =
      ground (arith, on_write_lem (do_write b) (as_queue b (cancel_timer b i)))
  on_write-at ec close i j (m ∷ []) f e h =
      ground (arith, on_write_lem (do_write b) (as_queue b (cancel_timer b i)))
  on_write-at ec close i j (m ∷ n ∷ more) f e h = ground (
    arith,
    on_write_lem (do_write b) (as_queue b (cancel_timer b i)),
    writes_of-append i.started (writes n (b.need_eof n) ∷ []),
    last_written-append (writes_of i.started) (n, b.need_eof n),
  )

  run_task-IsLast :
      (server : Bool) (task : Task Message) (i j : Impl Message Ec C T)
      → run_task b server task i ≡ done j
      → IsLast i
      → IsLast j
  unfolding run_task do_timer do_read do_handshake do_handshake_for
  run_task-IsLast server recv i j e h =
      same-IsLast (ground arith) (SameFlow-done b i _ j (do_read-same b i) e) h
  run_task-IsLast server (recv_for d) i j e h =
      let both = SameFlow-trans b (do_timer-same b d i) (do_read-same b (do_timer b d i)) in
      same-IsLast (ground arith) (SameFlow-done b i _ j both e) h
  run_task-IsLast server (send m) i j e h = push-IsLast m i j e h
  run_task-IsLast server (send_for m d) i j e h =
      push-IsLast m (do_timer b d i) j e (same-IsLast refl (do_timer-same b d i) h)
  run_task-IsLast server (handshake func) i j e h =
      same-IsLast (ground arith) (SameFlow-done b i _ j (do_handshake-same b server func i) e) h
  run_task-IsLast server (handshake_for func d) i j e h =
      same-IsLast (ground arith) (SameFlow-done b i _ j (do_handshake_for-same b server func d i) e)
        h

  on_timer-serializer :
      (ec : Ec) (now : ℕ) (i : Impl Message Ec C T)
      → (on_timer b ec now i).m_serializer ≡ i.m_serializer
  unfolding on_timer do_eof
  on_timer-serializer ec now i = ground arith

  on_read-serializer :
      (ec : Ec) (m : Message) (i j : Impl Message Ec C T)
      → on_read b (λ m i. done i) ec m i ≡ done j
      → j.m_serializer ≡ i.m_serializer
  unfolding on_read do_eof
  on_read-serializer ec m i j e = ground arith

  on_handshake-serializer :
      (ec : Ec) (i : Impl Message Ec C T) → (on_handshake b ec i).m_serializer ≡ i.m_serializer
  unfolding on_handshake do_eof
  on_handshake-serializer ec i = ground arith

module _ {Message Ec C T : Type 0} (b : Boost Message Ec C T) (server : Bool) where
  handshake_done-IsLast :
      (ec : Ec) (f : Task Message) (i j : Impl Message Ec C T)
      → handshake_done b server ec f i ≡ done j
      → IsLast b i
      → IsLast b j
  unfolding handshake_done
  handshake_done-IsLast ec f i j e h =
      let shaken = same-IsLast b (on_handshake-serializer b ec i) (on_handshake-same b ec i) h in
      elim (Bool-cases (b.failed ec)) [
        | inl failed ↦ let f : on_handshake b ec i ≡ j = ground arith in subst (IsLast b) f shaken
        | inr fine ↦ run_task-IsLast b server f (on_handshake b ec i) j (ground arith) shaken
      ]

  Step-IsLast : {s t : State Message Ec C T} → Step b server s t → IsLast b s.impl → IsLast b t.impl
  Step-IsLast {s} {t} (Step.call task e c n) h = run_task-IsLast b server task s.impl t.impl e h
  Step-IsLast {s} {t} (Step.read ec m e c n) h =
      same-IsLast b (on_read-serializer b ec m s.impl t.impl e)
        (on_read-same b ec m s.impl t.impl e) h
  Step-IsLast {s} {t} (Step.write m close rest ec d e c n) h =
      on_write-at b ec close s.impl t.impl s.impl.m_queue refl e h
  Step-IsLast {s} {t} (Step.time ec now e c n) h =
      subst (IsLast b) (sym e)
        (same-IsLast b (on_timer-serializer b ec now s.impl) (on_timer-same b ec now s.impl) h)
  Step-IsLast {s} {t} (Step.shake ec f e c n) h = handshake_done-IsLast ec f s.impl t.impl e h

  Reach-IsLast :
      (connection : C) (router : Router) (on_error : Bool) {t : State Message Ec C T}
      → Reach b server (fresh b server connection router on_error) t
      → IsLast b t.impl
  unfolding init_context
  Reach-IsLast connection router on_error Reach.here = refl
  Reach-IsLast connection router on_error (Reach.then r step) =
      Step-IsLast step (Reach-IsLast connection router on_error r)

  -- In every state that a new session reaches, while a write is in flight, the serializer is the one
  -- that was made from the message at the front of the queue, which the queue still owns, and the write
  -- is that of the same message.
  pub Reach-serializer :
      (connection : C) (router : Router) (on_error : Bool) (t : State Message Ec C T)
      → Reach b server (fresh b server connection router on_error) t
      → drop t.completed (writes_of t.impl.started) ≢ []
      → (m : Message) × (rest : List Message) × (t.impl.m_queue ≡ m ∷ rest)
        × (t.impl.m_serializer ≡ some m)
        × (drop t.completed (writes_of t.impl.started) ≡ (m, b.need_eof m) ∷ [])
  Reach-serializer connection router on_error t r busy =
      let o = Reach-Orderly b server connection router on_error t r in
      elim o.flight [
        | inl idle ↦ absurd (busy idle)
        | inr (m, rest, queue, flight) ↦ (
          m,
          rest,
          queue,
          Reach-IsLast connection router on_error r
              ∙ last_written-drop t.completed (writes_of t.impl.started) (m, b.need_eof m) flight,
          flight,
        )
      ]
