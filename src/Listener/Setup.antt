-- ===== src/Listener/Setup.antt =====
-- The set-up of the acceptor (include/beast_router/impl/listener.ipp) against a list of stages.
use beast_router.Base.{suc, ◌≡◌, String, List, [], ◌∷◌, Option, none, some, arith, if◌then◌else◌}
use beast_router.Listener.{AcceptorOps, Listener, report, do_accept, loop}

module _ {A E Ec : Type 0} (ops : AcceptorOps A E Ec) where
  -- The calls with the names under which their errors are reported.
  abbrev pub stages : E → List ((A → Ec × A) × String)
  stages endpoint =
      (ops.open_ endpoint, "open/loop")
      ∷ (ops.set_reuse_address, "set_option/loop")
      ∷ (ops.bind endpoint, "bind/loop")
      ∷ (ops.listen, "listen/loop")
      ∷ []

  -- The first stage that fails, if one does, and the acceptor after the stages up to it.
  abbrev pub run_stages : List ((A → Ec × A) × String) → A → Option (Ec × String) × A
  run_stages [] a = (none, a)
  run_stages ((f, msg) ∷ more) a =
      let (ec, a') = f a in if ops.failed ec then (some (ec, msg), a') else run_stages more a'

  -- The set-up makes the calls in order up to the first that fails. That one is reported under its
  -- name, if an error handler is set, and no accept is started. If none fails, one accept is
  -- started and the endpoint is kept; nothing is reported.
  pub loop-stages :
      {S : Type 0} (endpoint : E) (l : Listener A S E Ec)
      → let (failure, a) = run_stages (stages endpoint) l.m_acceptor in
        loop ops endpoint l ≡ elim failure [
          | some (ec, msg) ↦ report ops ec msg (record l { m_acceptor = a })
          | none ↦ record l { m_acceptor = a; m_endpoint = some endpoint; accepts = suc l.accepts }
        ]
  unfolding loop do_accept
  loop-stages endpoint l = ground arith
