-- ===== src/Connector.antt =====
-- include/beast_router/connector.hpp and impl/connector.ipp: a client's connection, by resolving an
-- address and connecting to what it resolves to. The socket `S`, the resolver's results `R` and the
-- error codes `Ec` are outside the repository.
pub mod Running
use beast_router.Connection.{Connection, connection, release}
use beast_router.Base.{Bool, true, false, String, List, [], ◌∷◌, ◌++◌, if◌then◌else◌}

-- The asynchronous calls.
pub data Operation (R : Type 0) : Type 0 where
  resolves : (address port : String) → Operation R
  connects : R → Operation R

-- `connector`, with its socket and the socket that a move leaves behind. `started` are the asynchronous
-- calls, `reports` those of `m_on_error` and `connected` those of `m_on_connect`.
pub record Connector (S R Ec : Type 0) : Type 0 where
  pub m_connection : Connection S
  pub m_on_error : Bool
  pub started : List (Operation R)
  pub reports : List (Ec × String)
  pub connected : List S

module _ {S R Ec : Type 0} (failed : Ec → Bool) (moved_from : S) where
  unfoldable pub connector : S → (on_error : Bool) → Connector S R Ec
  unfolding connection
  connector socket on_error = record {
    m_connection = connection socket;
    m_on_error = on_error;
    started = [];
    reports = [];
    connected = [];
  }

  unfoldable pub do_resolve : (address port : String) → Connector S R Ec → Connector S R Ec
  do_resolve address port c = record c { started = c.started ++ resolves address port ∷ [] }

  abbrev pub report : Ec → String → Connector S R Ec → Connector S R Ec
  report ec place c =
      if c.m_on_error then record c { reports = c.reports ++ (ec, place) ∷ [] } else c

  unfoldable pub on_resolve : Ec → R → Connector S R Ec → Connector S R Ec
  on_resolve ec results c =
      if failed ec
      then report ec "on_resovle" c
      else record c { started = c.started ++ connects results ∷ [] }

  unfoldable pub on_connect : Ec → Connector S R Ec → Connector S R Ec
  unfolding release
  on_connect ec c =
      if failed ec
      then report ec "on_connect" c
      else let (socket, connection) = release moved_from c.m_connection in
        record c { m_connection = connection; connected = c.connected ++ socket ∷ [] }

  -- The factory.
  unfoldable pub connect : (address port : String) → S → (on_error : Bool) → Connector S R Ec
  unfolding connector do_resolve
  connect address port socket on_error = do_resolve address port (connector socket on_error)
