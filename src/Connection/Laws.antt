-- ===== src/Connection/Laws.antt =====
-- The TLS connection (include/beast_router/common/ssl/connection.hpp) next to the plain one
-- (include/beast_router/common/connection.hpp).
use beast_router.Base.{◌≡◌, refl, arith}
use beast_router.Connection.{
  ShutdownType, StreamOps, Connection, SslConnection, shutdown, close, is_open, destroy,
  ssl_shutdown, ssl_close, ssl_is_open, ssl_destroy,
}

module _ {S Tls Ec : Type 0} (ops : StreamOps S Ec) where
  -- The plain connection over the socket of a TLS connection.
  abbrev pub socket_of : SslConnection S Tls → Connection S
  socket_of c = record { m_stream = c.m_stream.next_layer }

  -- Each call on a TLS connection gives the result of the same call on its socket and leaves the
  -- socket in the same state: shutting down, closing, asking if it is open, and the destructor. The
  -- destructor leaves the state of the TLS session as it is.
  pub ssl_as_plain :
      (type : ShutdownType) (c : SslConnection S Tls)
      → ((ssl_shutdown ops type c).0 ≡ (shutdown ops type (socket_of c)).0)
        × (socket_of (ssl_shutdown ops type c).1 ≡ (shutdown ops type (socket_of c)).1)
        × ((ssl_close ops c).0 ≡ (close ops (socket_of c)).0)
        × (socket_of (ssl_close ops c).1 ≡ (close ops (socket_of c)).1)
        × (ssl_is_open ops c ≡ is_open ops (socket_of c))
        × (socket_of (ssl_destroy ops c) ≡ destroy ops (socket_of c))
        × ((ssl_destroy ops c).m_stream.session ≡ c.m_stream.session)
  unfolding ssl_shutdown shutdown ssl_close close ssl_is_open is_open ssl_destroy destroy
  ssl_as_plain type c = (refl, refl, refl, refl, refl, ground arith, ground arith)
