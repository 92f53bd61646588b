-- ===== src/Connection.antt =====
-- include/beast_router/common/connection.hpp, common/ssl/connection.hpp and their impl/: the plain
-- and the TLS connection. The stream `S` and its error codes `Ec` are outside the repository.
pub mod Laws
use beast_router.Base.{Bool, true, false, if◌then◌else◌}

-- `boost::asio::socket_base::shutdown_type`.
pub data ShutdownType : Type 0 where
  shutdown_receive shutdown_send shutdown_both : ShutdownType

-- The calls of a stream that give their error through a reference.
pub record StreamOps (S Ec : Type 0) : Type 0 where
  pub shutdown : ShutdownType → S → Ec × S
  pub close : S → Ec × S
  pub is_open : S → Bool

-- What a session asks of its connection.
pub record ConnectionOps (C Ec : Type 0) : Type 0 where
  pub shutdown : ShutdownType → C → Ec × C
  pub close : C → Ec × C
  pub is_open : C → Bool

-- `connection`.
pub record Connection (S : Type 0) : Type 0 where
  pub m_stream : S

-- `ssl::connection`: an `ssl::stream` over the socket, with the state of the TLS session.
pub record SslStream (S Tls : Type 0) : Type 0 where
  pub next_layer : S
  pub session : Tls

pub record SslConnection (S Tls : Type 0) : Type 0 where
  pub m_stream : SslStream S Tls

module _ {S : Type 0} where
  -- The constructor.
  unfoldable pub connection : S → Connection S
  connection socket = record { m_stream = socket }

  unfoldable pub stream : Connection S → S
  stream c = c.m_stream

  -- The stream, and the connection with what a move leaves of it.
  unfoldable pub release : (moved_from : S) → Connection S → S × Connection S
  release moved_from c = (c.m_stream, record c { m_stream = moved_from })

module _ {S Tls : Type 0} where
  -- The constructor. `tls_session` is the TLS session that a context `Ctx` gives.
  unfoldable pub ssl_connection :
      {Ctx : Type 0} → (tls_session : Ctx → Tls) → S → Ctx → SslConnection S Tls
  ssl_connection tls_session socket ctx = record {
    m_stream = record { next_layer = socket; session = tls_session ctx };
  }

  unfoldable pub ssl_stream : SslConnection S Tls → SslStream S Tls
  ssl_stream c = c.m_stream

  unfoldable pub ssl_release :
      (moved_from : SslStream S Tls) → SslConnection S Tls → SslStream S Tls × SslConnection S Tls
  ssl_release moved_from c = (c.m_stream, record c { m_stream = moved_from })

module _ {S Ec : Type 0} (ops : StreamOps S Ec) where
  unfoldable pub shutdown : ShutdownType → Connection S → Ec × Connection S
  shutdown type c = let (ec, s) = ops.shutdown type c.m_stream in (ec, record { m_stream = s })

  unfoldable pub close : Connection S → Ec × Connection S
  close c = let (ec, s) = ops.close c.m_stream in (ec, record { m_stream = s })

  unfoldable pub is_open : Connection S → Bool
  is_open c = ops.is_open c.m_stream

  -- The state of the stream that the destructor leaves.
  unfoldable pub destroy : Connection S → Connection S
  unfolding is_open shutdown
  destroy c = if is_open c then (shutdown shutdown_both c).1 else c

  unfoldable pub plain : ConnectionOps (Connection S) Ec
  unfolding shutdown close is_open
  plain = record { shutdown = shutdown; close = close; is_open = is_open }

module _ {S Tls Ec : Type 0} (ops : StreamOps S Ec) where
  unfoldable pub ssl_shutdown : ShutdownType → SslConnection S Tls → Ec × SslConnection S Tls
  ssl_shutdown type c =
      let (ec, s) = ops.shutdown type c.m_stream.next_layer in
      (ec, record { m_stream = record { next_layer = s; session = c.m_stream.session } })

  unfoldable pub ssl_close : SslConnection S Tls → Ec × SslConnection S Tls
  ssl_close c =
      let (ec, s) = ops.close c.m_stream.next_layer in
      (ec, record { m_stream = record { next_layer = s; session = c.m_stream.session } })

  unfoldable pub ssl_is_open : SslConnection S Tls → Bool
  ssl_is_open c = ops.is_open c.m_stream.next_layer

  unfoldable pub ssl_destroy : SslConnection S Tls → SslConnection S Tls
  unfolding ssl_is_open ssl_shutdown
  ssl_destroy c = if ssl_is_open c then (ssl_shutdown shutdown_both c).1 else c

  unfoldable pub tls : ConnectionOps (SslConnection S Tls) Ec
  unfolding ssl_shutdown ssl_close ssl_is_open
  tls = record { shutdown = ssl_shutdown; close = ssl_close; is_open = ssl_is_open }
