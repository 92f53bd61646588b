-- ===== src/Listener/Accepting.antt =====
-- The loop that accepts (include/beast_router/impl/listener.ipp): what completes and what the strand
-- has run, in any order of the two.
use beast_router.Base.{
  ◌+◌, ◌≡◌, refl, sym, ap, ◌∙◌, List, [], ◌∷◌, ◌++◌, arith, length, length-append, if◌then◌else◌,
}
use mathlib.Core.List.{append_assoc, append-nil}
use beast_router.Listener.{AcceptorOps, Listener, on_accept, on_spawn_connect}

-- An accept completes, or the strand runs what was posted first.
pub data Event (S Ec : Type 0) : Type 0 where
  completes : Ec → S → Event S Ec
  runs : Event S Ec

module _ {A S E Ec : Type 0} (ops : AcceptorOps A E Ec) where
  run_posted : List (Ec × S) → Listener A S E Ec → Listener A S E Ec
  run_posted [] l = l
  run_posted ((ec, socket) ∷ rest) l = on_spawn_connect ops ec socket (record l { posted = rest })

  unfoldable pub step : Event S Ec → Listener A S E Ec → Listener A S E Ec
  unfolding run_posted
  step (completes ec socket) l = on_accept ops ec socket l
  step runs l = run_posted l.posted l

  unfoldable pub run : List (Event S Ec) → Listener A S E Ec → Listener A S E Ec
  run [] l = l
  run (e ∷ es) l = run es (step e l)

  -- The accepts that completed, and among some of them the sockets of those without an error.
  abbrev pub completions : List (Event S Ec) → List (Ec × S)
  completions [] = []
  completions (completes ec socket ∷ es) = (ec, socket) ∷ completions es
  completions (runs ∷ es) = completions es

  abbrev pub sockets : List (Ec × S) → List S
  sockets [] = []
  sockets ((ec, socket) ∷ more) =
      let rest = sockets more in if ops.failed ec then rest else socket ∷ rest

  sockets-append : (xs ys : List (Ec × S)) → sockets (xs ++ ys) ≡ sockets xs ++ sockets ys
  sockets-append [] ys = refl
  sockets-append ((ec, socket) ∷ xs) ys = ground (arith, sockets-append xs ys)

  posted-delivers :
      (p : List (Ec × S)) (l : Listener A S E Ec)
      → l.posted ≡ p
      → (run_posted p l).connected ++ sockets (run_posted p l).posted ≡ l.connected ++ sockets p
  unfolding run_posted on_spawn_connect
  posted-delivers [] l e = rw e refl
  posted-delivers ((ec, socket) ∷ rest) l e =
      ground (arith, append_assoc l.connected (socket ∷ []) (sockets rest))

  step-delivers :
      (e : Event S Ec) (l : Listener A S E Ec)
      → (step e l).connected ++ sockets (step e l).posted
        ≡ (l.connected ++ sockets l.posted) ++ sockets (completions (e ∷ []))
  unfolding step on_accept
  step-delivers (completes ec socket) l =
      rw (sockets-append l.posted ((ec, socket) ∷ []))
        (sym (append_assoc l.connected (sockets l.posted) (sockets ((ec, socket) ∷ []))))
  step-delivers runs l = posted-delivers l.posted l refl ∙ sym (append-nil _)

  posted-accepts :
      (p : List (Ec × S)) (l : Listener A S E Ec) → (run_posted p l).accepts ≡ l.accepts
  unfolding run_posted on_spawn_connect
  posted-accepts [] l = refl
  posted-accepts ((ec, socket) ∷ rest) l = ground arith

  step-accepts :
      (e : Event S Ec) (l : Listener A S E Ec)
      → (step e l).accepts ≡ l.accepts + length (completions (e ∷ []))
  unfolding step on_accept
  step-accepts (completes ec socket) l = omega arith
  step-accepts runs l = omega (arith, posted-accepts l.posted l)

  completions-cons :
      (e : Event S Ec) (es : List (Event S Ec))
      → completions (e ∷ es) ≡ completions (e ∷ []) ++ completions es
  completions-cons (completes ec socket) es = refl
  completions-cons runs es = refl

  -- Whatever completes and however the strand's runs fall between: every connection that was accepted
  -- without an error is handed to `on_accept` once, in the order of the accepts, or waits for the
  -- strand; and one accept is started for each that completes, with an error or not.
  pub run-delivers :
      (es : List (Event S Ec)) (l : Listener A S E Ec)
      → ((run es l).connected ++ sockets (run es l).posted
          ≡ (l.connected ++ sockets l.posted) ++ sockets (completions es))
        × ((run es l).accepts ≡ l.accepts + length (completions es))
  unfolding run
  run-delivers [] l = (sym (append-nil _), omega arith)
  run-delivers (e ∷ es) l =
      let (delivered, accepts) = run-delivers es (step e l) in
      let front = step-delivers e l in
      (
        delivered
            ∙ ap (λ xs. xs ++ sockets (completions es)) front
            ∙ append_assoc _ (sockets (completions (e ∷ []))) (sockets (completions es))
            ∙ rw (completions-cons e es, sockets-append (completions (e ∷ [])) (completions es))
                refl,
        omega (
          arith,
          accepts,
          step-accepts e l,
          ap length (completions-cons e es),
          length-append (completions (e ∷ [])) (completions es),
        ),
      )
