-- ===== src/Listener.antt =====
-- include/beast_router/listener.hpp and impl/listener.ipp: the acceptor's set-up and the loop that
-- accepts connections. The acceptor `A`, sockets `S` and endpoints `E` are outside the repository.
pub mod Accepting
pub mod Setup
use beast_router.Base.{
  ℕ, suc, Bool, true, false, String, List, [], ◌∷◌, ◌++◌, Option, none, some, if◌then◌else◌,
}

-- The acceptor's calls, each with the error code that it sets.
pub record AcceptorOps (A E Ec : Type 0) : Type 0 where
  pub open_ : E → A → Ec × A
  pub set_reuse_address : A → Ec × A
  pub bind : E → A → Ec × A
  pub listen : A → Ec × A
  pub close_ : A → A
  pub failed : Ec → Bool

-- `listener`. Of `m_on_error` it is kept whether it holds a function; `reports` are its calls and
-- `connected` those of `m_on_accept`. `accepts` counts the asynchronous accepts that were started, and
-- `posted` is what waits for the strand.
pub record Listener (A S E Ec : Type 0) : Type 0 where
  pub m_acceptor : A
  pub m_on_error : Bool
  pub m_endpoint : Option E
  pub accepts : ℕ
  pub posted : List (Ec × S)
  pub reports : List (Ec × String)
  pub connected : List S

module _ {A S E Ec : Type 0} (ops : AcceptorOps A E Ec) where
  -- The two constructors, with and without an error handler.
  unfoldable pub listener : A → (on_error : Bool) → Listener A S E Ec
  listener acceptor on_error = record {
    m_acceptor = acceptor;
    m_on_error = on_error;
    m_endpoint = none;
    accepts = 0;
    posted = [];
    reports = [];
    connected = [];
  }

  unfoldable pub do_accept : Listener A S E Ec → Listener A S E Ec
  do_accept l = record l { accepts = suc l.accepts }

  abbrev pub report : Ec → String → Listener A S E Ec → Listener A S E Ec
  report ec msg l = if l.m_on_error then record l { reports = l.reports ++ (ec, msg) ∷ [] } else l

  -- `CHECK_EC(ec, msg)` and what follows it.
  abbrev pub check_ec :
      Ec → String → Listener A S E Ec → (Listener A S E Ec → Listener A S E Ec) → Listener A S E Ec
  check_ec ec msg l rest = if ops.failed ec then report ec msg l else rest l

  -- A call of the acceptor.
  abbrev pub acceptor_call : (A → Ec × A) → Listener A S E Ec → Ec × Listener A S E Ec
  acceptor_call f l = let (ec, a) = f l.m_acceptor in (ec, record l { m_acceptor = a })

  unfoldable pub loop : E → Listener A S E Ec → Listener A S E Ec
  unfolding do_accept
  loop endpoint l =
      let (opened, l1) = acceptor_call (ops.open_ endpoint) l in
      check_ec opened "open/loop" l1 λ l1.
        let (reused, l2) = acceptor_call ops.set_reuse_address l1 in
        check_ec reused "set_option/loop" l2 λ l2.
          let (bound, l3) = acceptor_call (ops.bind endpoint) l2 in
          check_ec bound "bind/loop" l3 λ l3.
            let (listens, l4) = acceptor_call ops.listen l3 in
            check_ec listens "listen/loop" l4
              λ l4. do_accept (record l4 { m_endpoint = some endpoint })

  -- The factory `launch`.
  unfoldable pub launch : A → E → (on_error : Bool) → Listener A S E Ec
  unfolding listener loop
  launch acceptor endpoint on_error = loop endpoint (listener acceptor on_error)

  -- The handler of an accept: it posts to the strand and accepts again.
  unfoldable pub on_accept : Ec → S → Listener A S E Ec → Listener A S E Ec
  unfolding do_accept
  on_accept ec socket l = do_accept (record l { posted = l.posted ++ (ec, socket) ∷ [] })

  unfoldable pub on_spawn_connect : Ec → S → Listener A S E Ec → Listener A S E Ec
  on_spawn_connect ec socket l =
      check_ec ec "accept/loop" l λ l. record l { connected = l.connected ++ socket ∷ [] }

  unfoldable pub close : Listener A S E Ec → Listener A S E Ec
  close l = record l { m_acceptor = ops.close_ l.m_acceptor }
