-- ===== src/Session/Silent.antt =====
-- Who hears of the errors of a session (include/beast_router/impl/session.ipp): `m_on_error` over
-- every run of the strand.
use beast_router.Base.{◌≡◌, refl, ◌∙◌, Bool, false, [], arith, Bool-cases, inl, inr}
use beast_router.Base.Outcome.{done}
use beast_router.ConnQueue.{push_lem, on_write_lem}
use beast_router.Router.{Router}
use beast_router.Session.{
  Task, recv, recv_for, send, send_for, handshake, handshake_for, Boost, Impl, init_context, do_eof,
  do_timer, do_read, do_write, do_handshake, do_handshake_for, on_timer, on_write, on_read,
  on_handshake, run_task, handshake_done, cancel_timer, as_queue,
}
use beast_router.Session.Steps.{State, Step, Reach}
use beast_router.Session.Delivery.{fresh}

module _ {Message Ec C T : Type 0} (b : Boost Message Ec C T) where
  -- The handler is kept, and nothing is reported if there is none.
  pub record Quiet (i j : Impl Message Ec C T) : Type 0 where
    pub kept : j.m_on_error ≡ i.m_on_error
    pub reported : i.m_on_error ≡ false → j.reports ≡ i.reports

  Quiet-trans : {i j k : Impl Message Ec C T} → Quiet i j → Quiet j k → Quiet i k
  Quiet-trans p q = record {
    kept = q.kept ∙ p.kept;
    reported = λ h. q.reported (p.kept ∙ h) ∙ p.reported h;
  }

  run_task-Quiet :
      (server : Bool) (task : Task Message) (i j : Impl Message Ec C T)
      → run_task b server task i ≡ done j
      → Quiet i j
  unfolding run_task do_timer do_read do_write do_handshake do_handshake_for
  run_task-Quiet server recv i j e = record { kept = ground arith; reported = λ h. ground arith }
  run_task-Quiet server (recv_for d) i j e = record {
    kept = ground arith;
    reported = λ h. ground arith;
  }
  run_task-Quiet server (send m) i j e =
      let pushed = push_lem (do_write b) m (as_queue b i) in
      record { kept = ground (arith, pushed); reported = λ h. ground (arith, pushed) }
  run_task-Quiet server (send_for m d) i j e =
      let pushed = push_lem (do_write b) m (as_queue b (do_timer b d i)) in
      record { kept = ground (arith, pushed); reported = λ h. ground (arith, pushed) }
  run_task-Quiet server (handshake f) i j e = record {
    kept = ground arith;
    reported = λ h. ground arith;
  }
  run_task-Quiet server (handshake_for f d) i j e = record {
    kept = ground arith;
    reported = λ h. ground arith;
  }

  on_write-Quiet :
      (ec : _) (close : Bool) (i j : Impl Message Ec C T)
      → on_write b ec close i ≡ done j
      → Quiet i j
  unfolding on_write do_write do_eof
  on_write-Quiet ec close i j e =
      let next = on_write_lem (do_write b) (as_queue b (cancel_timer b i)) in
      record { kept = ground (arith, next); reported = λ h. ground (arith, next) }

  on_read-Quiet :
      (ec : Ec) (m : Message) (i j : Impl Message Ec C T)
      → on_read b (λ m i. done i) ec m i ≡ done j
      → Quiet i j
  unfolding on_read do_eof
  on_read-Quiet ec m i j e = record { kept = ground arith; reported = λ h. ground arith }

  on_timer-Quiet : (ec : Ec) (now : _) (i : Impl Message Ec C T) → Quiet i (on_timer b ec now i)
  unfolding on_timer do_eof
  on_timer-Quiet ec now i = record { kept = ground arith; reported = λ h. ground arith }

  on_handshake-Quiet : (ec : Ec) (i : Impl Message Ec C T) → Quiet i (on_handshake b ec i)
  unfolding on_handshake do_eof
  on_handshake-Quiet ec i = record { kept = ground arith; reported = λ h. ground arith }

module _ {Message Ec C T : Type 0} (b : Boost Message Ec C T) (server : Bool) where
  handshake_done-Quiet :
      (ec : Ec) (f : Task Message) (i j : Impl Message Ec C T)
      → handshake_done b server ec f i ≡ done j
      → Quiet b i j
  unfolding handshake_done
  handshake_done-Quiet ec f i j e = elim (Bool-cases (b.failed ec)) [
    | inl failed ↦
        let q = on_handshake-Quiet b ec i in
        record { kept = ground (arith, q.kept); reported = λ h. ground (arith, q.reported h) }
    | inr fine ↦
        Quiet-trans b (on_handshake-Quiet b ec i)
          (run_task-Quiet b server f (on_handshake b ec i) j (ground arith))
  ]

  Step-Quiet : {s t : State Message Ec C T} → Step b server s t → Quiet b s.impl t.impl
  Step-Quiet {s} {t} (Step.call task e c n) = run_task-Quiet b server task s.impl t.impl e
  Step-Quiet {s} {t} (Step.read ec m e c n) = on_read-Quiet b ec m s.impl t.impl e
  Step-Quiet {s} {t} (Step.write m close rest ec d e c n) =
      on_write-Quiet b ec close s.impl t.impl e
  Step-Quiet {s} {t} (Step.time ec now e c n) = rw e (on_timer-Quiet b ec now s.impl)
  Step-Quiet {s} {t} (Step.shake ec f e c n) = handshake_done-Quiet ec f s.impl t.impl e

  Reach-Quiet : {s t : State Message Ec C T} → Reach b server s t → Quiet b s.impl t.impl
  Reach-Quiet Reach.here = record { kept = refl; reported = λ h. refl }
  Reach-Quiet (Reach.then r step) = Quiet-trans b (Reach-Quiet r) (Step-Quiet step)

  -- In every state that a new session reaches, it has an error handler just if it was made with one. A
  -- session that was made without one has reported nothing, whichever of its operations failed.
  pub Reach-silent :
      (connection : C) (router : Router) (on_error : Bool) (t : State Message Ec C T)
      → Reach b server (fresh b server connection router on_error) t
      → (t.impl.m_on_error ≡ on_error) × ((on_error ≡ false) → t.impl.reports ≡ [])
  unfolding init_context
  Reach-silent connection router on_error t r = let q = Reach-Quiet r in (q.kept, q.reported)
