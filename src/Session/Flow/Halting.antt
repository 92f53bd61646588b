-- ===== src/Session/Flow/Halting.antt =====
-- A session (include/beast_router/impl/session.ipp) that has stopped writing, on the abstract view of
-- its messages.
use beast_router.Base.{ℕ, suc, ◌≡◌, ◌≢◌, refl, ◌∙◌, Bool, List, [], ◌∷◌, drop-suc, arith}
use beast_router.Session.Flow.{
  Flow, FlowStep, stay, send, stop, next, FlowSteps, here, then, Orderly, in_flight, accept, front,
}

module _ {Message : Type 0} (need_eof : Message → Bool) where
  abbrev flow : List Message → List (Message × Bool) → ℕ → List Message → Flow Message
  flow q ws n s = record { queue = q; written = ws; completed = n; sent = s }

  -- The session has stopped writing: messages are left and no write is in flight.
  pub record IsHalted (f : Flow Message) : Type 0 where
    pub idle : in_flight f ≡ []
    pub left : f.queue ≢ []

  -- A stop leaves nothing in flight and its message in the queue.
  pub stop-IsHalted :
      (f g : Flow Message) (w : Message × Bool) (rest : List (Message × Bool))
      → in_flight f ≡ w ∷ rest
      → g ≡ record f { completed = suc f.completed }
      → Orderly need_eof f
      → IsHalted g
  stop-IsHalted f g w rest e same o =
      let (none_more, some_left) = front need_eof f.queue f.written f.completed f.sent w rest e o in
      rw same (record {
        idle = (drop-suc f.completed f.written rest w e).0 ∙ none_more;
        left = some_left;
      })

  accept-IsHalted :
      (m : Message) (q : List Message) (ws : List (Message × Bool)) (n : ℕ) (s : List Message)
      → IsHalted (flow q ws n s)
      → IsHalted (accept need_eof m (flow q ws n s))
        × ((accept need_eof m (flow q ws n s)).written ≡ ws)
  accept-IsHalted m [] ws n s h = absurd (h.left refl)
  accept-IsHalted m (x ∷ rest) ws n s h = (record { idle = h.idle; left = ground arith }, refl)

  FlowStep-IsHalted :
      {f g : Flow Message}
      → FlowStep need_eof f g
      → IsHalted f
      → IsHalted g × (g.written ≡ f.written)
  FlowStep-IsHalted (stay e) h = rw e (h, refl)
  FlowStep-IsHalted {f} (send m e) h =
      rw e (accept-IsHalted m f.queue f.written f.completed f.sent h)
  FlowStep-IsHalted (stop w rest e _) h = absurd (cc (h.idle, e))
  FlowStep-IsHalted (next w rest e _) h = absurd (cc (h.idle, e))

  pub FlowSteps-IsHalted :
      {f g : Flow Message}
      → FlowSteps need_eof f g
      → IsHalted f
      → IsHalted g × (g.written ≡ f.written)
  FlowSteps-IsHalted here h = (h, refl)
  FlowSteps-IsHalted (then steps step) h =
      let (h', same) = FlowSteps-IsHalted steps h in
      let (h'', same') = FlowStep-IsHalted step h' in (h'', same' ∙ same)
