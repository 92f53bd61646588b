-- ===== src/AsyncConnection.antt =====
-- include/beast_router/base/connection.hpp and base/impl/connection.ipp: the asynchronous calls of a
-- connection, whose handlers run on the strand of its owner
-- (include/beast_router/base/strand_stream.hpp), with the handshake of a TLS connection
-- (include/beast_router/common/ssl/impl/connection.ipp).
pub mod Strands
use beast_router.Base.{Bool, List, [], ◌∷◌, ◌++◌}

-- The calls of Boost with what they are given: endpoints `E`, a serializer `W`, a buffer `B` and a
-- parser `P`, or the type of the handshake.
pub data Call (E W B P : Type 0) : Type 0 where
  connects : E → Call E W B P
  writes : W → Call E W B P
  reads : B → P → Call E W B P
  handshakes : (server : Bool) → Call E W B P

-- Boost: an executor `X` and a handler `F` make a bound handler `H`, whose executor can be asked for.
pub record Asio (X F H : Type 0) : Type 0 where
  pub bind_executor : X → F → H
  pub get_executor : H → X

-- `base::connection`. `in_flight` are the calls on the stream of the derived class that have not
-- completed, with their handlers.
pub record AsyncConnection (X H E W B P : Type 0) : Type 0 where
  pub m_completion_executor : X
  pub in_flight : List (Call E W B P × H)

module _ {X F H E W B P : Type 0} (asio : Asio X F H) where
  unfoldable pub connection : X → AsyncConnection X H E W B P
  connection executor = record { m_completion_executor = executor; in_flight = [] }

  -- A call on the stream with the handler bound to the executor.
  call_on : Call E W B P → F → AsyncConnection X H E W B P → AsyncConnection X H E W B P
  call_on c func l = record l {
    in_flight = l.in_flight ++ (c, asio.bind_executor l.m_completion_executor func) ∷ [];
  }

  unfoldable pub async_connect : E → F → AsyncConnection X H E W B P → AsyncConnection X H E W B P
  unfolding call_on
  async_connect endpoints func l = call_on (connects endpoints) func l

  unfoldable pub async_write : W → F → AsyncConnection X H E W B P → AsyncConnection X H E W B P
  unfolding call_on
  async_write serializer func l = call_on (writes serializer) func l

  unfoldable pub async_read : B → P → F → AsyncConnection X H E W B P → AsyncConnection X H E W B P
  unfolding call_on
  async_read buffer parser func l = call_on (reads buffer parser) func l

  -- `ssl::connection::async_handshake`. `server` is the type.
  unfoldable pub async_handshake :
      (server : Bool) → F → AsyncConnection X H E W B P → AsyncConnection X H E W B P
  unfolding call_on
  async_handshake server func l = call_on (handshakes server) func l
