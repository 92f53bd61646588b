-- ===== src/Examples/Servers/Failing.antt =====
-- How a failed accept ends the servers of examples/.
use beast_router.Base.{
  ℕ, zero, suc, ◌≡◌, refl, ap, ◌∙◌, Bool, true, List, [], ◌∷◌, ◌++◌, Option, none, some, map,
  length, arith, Bool-cases, inl, inr, if◌then◌else◌,
}
use mathlib.Core.List.{append_assoc, append-nil}
use beast_router.Base.Outcome.{Outcome, done, threw, ◌>>=◌}
use beast_router.Listener.{AcceptorOps}
use beast_router.Router.{Router}
use beast_router.Session.{Boost}
use beast_router.Examples.Servers.{Program, Server, start, run_posted}
use beast_router.Examples.Servers.Running.{made, Reach, served, run_posted-cons}
use beast_router.Examples.Servers.Sessions.{Reach-IsServing, start-IsServing}

module _ {A S E Message Ec C T : Type 0} (ops : AcceptorOps A E Ec) (b : Boost Message Ec C T)
    (program : Program) (one_second : ℕ) (make : S → C) (router : Router)
    (on_error at_once : Bool) where
  -- The strand of the listener runs a number of times.
  abbrev pub run_rounds :
      ℕ
      → Server A S E Message Ec C T
      → Outcome (Server A S E Message Ec C T) (Server A S E Message Ec C T)
  run_rounds zero s = done s
  run_rounds (suc n) s =
      run_posted ops b program one_second make router on_error at_once s >>= run_rounds n

  -- The sockets before the first accept that failed, and that error with what was posted behind it.
  abbrev pub before_failure : List (Ec × S) → List S × Option (Ec × List (Ec × S))
  before_failure [] = ([], none)
  before_failure ((ec, socket) ∷ rest) =
      let (sockets, failure) = before_failure rest in
      if ops.failed ec then ([], some (ec, rest)) else (socket ∷ sockets, failure)

  -- The server after these connections were handed over.
  abbrev pub served_all :
      List S → List (Ec × S) → Server A S E Message Ec C T → Server A S E Message Ec C T
  served_all sockets rest s = record {
    listener = record s.listener { posted = rest; connected = s.listener.connected ++ sockets };
    sessions = s.sessions ++ map (made b program one_second make router on_error at_once) sockets;
  }

  abbrev pub outcome :
      List S × Option (Ec × List (Ec × S))
      → Server A S E Message Ec C T
      → Outcome (Server A S E Message Ec C T) (Server A S E Message Ec C T)
  outcome (sockets, none) s = done (served_all sockets [] s)
  outcome (sockets, some (ec, rest)) s = threw (record (served_all sockets rest s) {
    listener = record (served_all sockets rest s).listener {
      reports = s.listener.reports ++ (ec, "accept/loop") ∷ [];
    };
  })

  served_all-served :
      (socket : S) (sockets : List S) (rest rest' : List (Ec × S)) (s : Server A S E Message Ec C T)
      → served_all sockets rest'
          (served ops b program one_second make router on_error at_once socket rest s)
        ≡ served_all (socket ∷ sockets) rest' s
  served_all-served socket sockets rest rest' s = ground (
    arith,
    append_assoc s.listener.connected (socket ∷ []) sockets,
    append_assoc s.sessions (made b program one_second make router on_error at_once socket ∷ [])
        (map (made b program one_second make router on_error at_once) sockets),
  )

  outcome-served :
      (socket : S) (sockets : List S) (failure : Option (Ec × List (Ec × S))) (rest : List (Ec × S))
      (s : Server A S E Message Ec C T)
      → outcome
          (sockets, failure)
          (served ops b program one_second make router on_error at_once socket rest s)
        ≡ outcome (socket ∷ sockets, failure) s
  outcome-served socket sockets none rest s = ap done (served_all-served socket sockets rest [] s)
  outcome-served socket sockets (some (ec, more)) rest s =
      ground (arith, served_all-served socket sockets rest more s)

  run_rounds-outcome :
      (p : List (Ec × S)) (s : Server A S E Message Ec C T)
      → s.listener.posted ≡ p
      → s.listener.m_on_error ≡ true
      → run_rounds (length p) s ≡ outcome (before_failure p) s
  run_rounds-outcome [] s e h =
      ground (arith, append-nil s.listener.connected, append-nil s.sessions)
  run_rounds-outcome ((ec, socket) ∷ rest) s e h =
      let step =
        run_posted-cons ops b program one_second make router on_error at_once s ec socket rest h
          e in
      elim (Bool-cases (ops.failed ec)) [
        | inl failed ↦
            rw (step, failed)
              (ground (arith, append-nil s.listener.connected, append-nil s.sessions))
        | inr fine ↦
            rw (step, fine)
              (run_rounds-outcome rest
                  (served ops b program one_second make router on_error at_once socket rest s) refl
                  h
                ∙ outcome-served socket (before_failure rest).0 (before_failure rest).1 rest s)
      ]

  -- The four calls that set the acceptor up go well. Then, in every state that one of the three servers
  -- reaches, if the strand of the listener runs what is posted and nothing falls between: the connections
  -- before the first accept that failed are handed over, in order, and each gets a session, of which the
  -- first call has run if Boost runs it within the hand-over, and otherwise waits for its strand; the error of that accept is reported and thrown, which ends the program, and what was
  -- posted behind it stays; and if no accept has failed, nothing is thrown and nothing stays.
  pub Reach-fails :
      (acceptor : A) (endpoint : E) (s t : Server A S E Message Ec C T)
      → start ops acceptor endpoint ≡ done s
      → Reach ops b program one_second make router on_error at_once s t
      → run_rounds (length t.listener.posted) t ≡ outcome (before_failure t.listener.posted) t
  Reach-fails acceptor endpoint s t e r =
      run_rounds-outcome t.listener.posted t refl
        (Reach-IsServing ops b program one_second make router on_error at_once r (
          start-IsServing ops b program one_second make router on_error at_once acceptor endpoint s
            e)).handled
