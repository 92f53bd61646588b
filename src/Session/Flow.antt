-- ===== src/Session/Flow.antt =====
-- What a session (include/beast_router/impl/session.ipp) promises for its messages, without the
-- session: a queue, the writes that were started with their `close` flags, how many of them have
-- completed, and the messages that were sent.
use mathlib.Core.List.{append_assoc, append-nil, map-append}
use beast_router.Base.{
  ℕ, suc, ◌≤◌, ◌≡◌, ◌≢◌, refl, sym, ap, ◌∙◌, ◌⊎◌, inl, inr, Bool, List, [], ◌∷◌, ◌++◌, map, length,
  length-append, drop, drop-append, drop-suc, All, All-append_one, arith,
}
pub mod Halting

pub record Flow (Message : Type 0) : Type 0 where
  pub queue : List Message
  pub written : List (Message × Bool)
  pub completed : ℕ
  pub sent : List Message

module _ {Message : Type 0} where
  -- The writes that have not completed.
  abbrev pub in_flight : Flow Message → List (Message × Bool)
  in_flight f = drop f.completed f.written

  abbrev pub behind_front : List Message → List Message
  behind_front [] = []
  behind_front (m ∷ ms) = ms

module _ {Message : Type 0} (need_eof : Message → Bool) where
  abbrev pub write_next : List Message → List (Message × Bool) → List (Message × Bool)
  write_next [] ws = ws
  write_next (m ∷ ms) ws = ws ++ (m, need_eof m) ∷ []

  -- A message that comes to an empty queue starts its write.
  abbrev pub accept : Message → Flow Message → Flow Message
  accept m f = record {
    queue = f.queue ++ m ∷ [];
    written = elim f.queue [ [] ↦ f.written ++ (m, need_eof m) ∷ [] | _ ↦ f.written ];
    completed = f.completed;
    sent = f.sent ++ m ∷ [];
  }

  pub data FlowStep (f g : Flow Message) : Type 0 where
    stay : g ≡ f → FlowStep f g
    send : (m : Message) → g ≡ accept m f → FlowStep f g
    -- The write in front has completed, and the session stops writing.
    stop :
        (w : Message × Bool) (rest : List (Message × Bool))
        → in_flight f ≡ w ∷ rest
        → g ≡ record f { completed = suc f.completed }
        → FlowStep f g
    -- It has completed, and the next one starts.
    next :
        (w : Message × Bool) (rest : List (Message × Bool))
        → in_flight f ≡ w ∷ rest
        → g ≡ record f {
          queue = behind_front f.queue;
          written = write_next (behind_front f.queue) f.written;
          completed = suc f.completed;
        }
        → FlowStep f g

  pub data FlowSteps (f : Flow Message) : Flow Message → Type 0 where
    here : FlowSteps f f
    then : {g h : Flow Message} → FlowSteps f g → FlowStep g h → FlowSteps f h

  -- No two writes at once, in the order of sending, each with the flag of its message.
  pub record Orderly (f : Flow Message) : Type 0 where
    pub bounded : f.completed ≤ length f.written
    pub order : map (λ w. w.0) f.written ++ behind_front f.queue ≡ f.sent
    pub flags : All (λ w. w.1 ≡ need_eof w.0) f.written
    pub flight :
        (in_flight f ≡ [])
        ⊎ ((m : Message) × (rest : List Message) × (f.queue ≡ m ∷ rest)
            × (in_flight f ≡ (m, need_eof m) ∷ []))

  abbrev flow : List Message → List (Message × Bool) → ℕ → List Message → Flow Message
  flow q ws n s = record { queue = q; written = ws; completed = n; sent = s }

  -- Starting the write of `m` when nothing is in flight.
  start-flight :
      (m : Message) (ws : List (Message × Bool)) (n : ℕ)
      → n ≤ length ws
      → drop n ws ≡ []
      → (n ≤ length (ws ++ (m, need_eof m) ∷ []))
        × (drop n (ws ++ (m, need_eof m) ∷ []) ≡ (m, need_eof m) ∷ [])
  start-flight m ws n h e = (
    omega (arith, length-append ws ((m, need_eof m) ∷ [])),
    rw (drop-append n ws ((m, need_eof m) ∷ []) h, e) refl,
  )

  start-order :
      (m : Message) (ws : List (Message × Bool)) (rest : List Message)
      → map (λ w. w.0) (ws ++ (m, need_eof m) ∷ []) ++ rest ≡ map (λ w. w.0) ws ++ m ∷ rest
  start-order m ws rest = simp (map-append, append_assoc)

  accept-at :
      (m : Message) (q : List Message) (ws : List (Message × Bool)) (n : ℕ) (s : List Message)
      → Orderly (flow q ws n s)
      → Orderly (accept m (flow q ws n s))
  accept-at m [] ws n s o =
      let idle : drop n ws ≡ [] = ground arith in
      let (within, flying) = start-flight m ws n o.bounded idle in
      record {
        bounded = within;
        order = start-order m ws [] ∙ ap (λ l. l ++ m ∷ []) (sym (append-nil _) ∙ o.order);
        flags = All-append_one _ ws (m, need_eof m) o.flags refl;
        flight = inr (m, [], refl, flying);
      }
  accept-at m (x ∷ rest) ws n s o = record {
    bounded = o.bounded;
    order = sym (append_assoc _ rest (m ∷ [])) ∙ ap (λ l. l ++ m ∷ []) o.order;
    flags = o.flags;
    flight = elim o.flight [
      | inl e ↦ inl e
      | inr (y, ys, e, fl) ↦ inr (x, rest ++ m ∷ [], refl, ground arith)
    ];
  }

  -- With a write in flight the queue has a front, and nothing else is in flight.
  pub front :
      (q : List Message) (ws : List (Message × Bool)) (n : ℕ) (s : List Message)
      (w : Message × Bool) (rest : List (Message × Bool))
      → drop n ws ≡ w ∷ rest
      → Orderly (flow q ws n s)
      → (rest ≡ []) × (q ≢ [])
  front q ws n s w rest e o = ground arith

  stop-at :
      (q : List Message) (ws : List (Message × Bool)) (n : ℕ) (s : List Message)
      (w : Message × Bool) (rest : List (Message × Bool))
      → drop n ws ≡ w ∷ rest
      → Orderly (flow q ws n s)
      → Orderly (flow q ws (suc n) s)
  stop-at q ws n s w rest e o =
      let (gone, within) = drop-suc n ws rest w e in
      record {
        bounded = within;
        order = o.order;
        flags = o.flags;
        flight = inl (gone ∙ (front q ws n s w rest e o).0);
      }

  next-at :
      (q : List Message) (ws : List (Message × Bool)) (n : ℕ) (s : List Message)
      (w : Message × Bool) (rest : List (Message × Bool))
      → drop n ws ≡ w ∷ rest
      → Orderly (flow q ws n s)
      → Orderly (flow (behind_front q) (write_next (behind_front q) ws) (suc n) s)
  next-at [] ws n s w rest e o = absurd ((front [] ws n s w rest e o).1 refl)
  next-at (x ∷ []) ws n s w rest e o =
      let o' = stop-at (x ∷ []) ws n s w rest e o in
      record {
        bounded = o'.bounded;
        order = o.order;
        flags = o.flags;
        flight = inl ((drop-suc n ws rest w e).0 ∙ (front (x ∷ []) ws n s w rest e o).0);
      }
  next-at (x ∷ y ∷ more) ws n s w rest e o =
      let (gone, within) = drop-suc n ws rest w e in
      let none_left = gone ∙ (front (x ∷ y ∷ more) ws n s w rest e o).0 in
      let (within', flying) = start-flight y ws (suc n) within none_left in
      record {
        bounded = within';
        order = start-order y ws more ∙ o.order;
        flags = All-append_one _ ws (y, need_eof y) o.flags refl;
        flight = inr (y, more, refl, flying);
      }

  FlowStep-Orderly : {f g : Flow Message} → FlowStep f g → Orderly f → Orderly g
  FlowStep-Orderly (stay e) o = rw e o
  FlowStep-Orderly {f} (send m e) o = rw e (accept-at m f.queue f.written f.completed f.sent o)
  FlowStep-Orderly {f} (stop w rest h e) o =
      rw e (stop-at f.queue f.written f.completed f.sent w rest h o)
  FlowStep-Orderly {f} (next w rest h e) o =
      rw e (next-at f.queue f.written f.completed f.sent w rest h o)

  pub FlowSteps-Orderly : {f g : Flow Message} → FlowSteps f g → Orderly f → Orderly g
  FlowSteps-Orderly here o = o
  FlowSteps-Orderly (then steps step) o = FlowStep-Orderly step (FlowSteps-Orderly steps o)

  abbrev pub no_messages : Flow Message
  no_messages = flow [] [] 0 []

  pub no_messages-Orderly : Orderly no_messages
  no_messages-Orderly = record {
    bounded = omega arith;
    order = refl;
    flags = tt;
    flight = inl refl;
  }
