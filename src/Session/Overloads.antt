-- ===== src/Session/Overloads.antt =====
-- Whether a call of the static functions `recv` and `send` (include/beast_router/session.hpp) compiles,
-- with TLS linked in. Each overload is guarded by the type of its result.
pub mod Calls
use beast_router.Base.{
  Bool-cases, ℕ, ◌==◌, ◌≡◌, ◌≢◌, ◌∙◌, refl, Option, some, none, Bool, true, false, not, ◌&&◌, ◌⊎◌,
  inl, inr, if◌then◌else◌, arith,
}
use beast_router.Base.Outcome.{Outcome}
use beast_router.Router.{Router}
use beast_router.Utility.{
  TimeType, chrono_duration, const_duration, duration_reference, not_duration, is_chrono_duration,
}
use beast_router.Session.{Task, recv, recv_for, send, send_for, handshake, Boost, Impl}
use beast_router.Session.Context.{Strand}
use beast_router.Session.Launch.{
  launch, session_recv, session_recv_for, session_send, session_send_for, ssl_recv, ssl_recv_for,
  ssl_send,
}

-- The two template parameters that the overloads look at.
pub record SessionType : Type 0 where
  pub is_request : Bool
  pub is_ssl_context_v : Bool

-- The default session types, and those over TLS.
abbrev pub http_server_type : SessionType
http_server_type = record { is_request = true; is_ssl_context_v = false }

abbrev pub http_client_type : SessionType
http_client_type = record { is_request = false; is_ssl_context_v = false }

abbrev pub ssl_http_server_type : SessionType
ssl_http_server_type = record { is_request = true; is_ssl_context_v = true }

abbrev pub ssl_http_client_type : SessionType
ssl_http_client_type = record { is_request = false; is_ssl_context_v = true }

-- `timed`: a duration is given. `ssl`: a TLS context is given.
pub data Overload : Type 0 where
  recvs sends : (timed ssl : Bool) → Overload

-- The expressions in the guards, and the types of C++ that they can have. `context_value` is
-- `context_type()`.
pub data Guard : Type 0 where
  constant : Bool → Guard
  context_value : Guard
  comma : Guard → Guard → Guard

pub data ValueType : Type 0 where
  bool_value context_type : ValueType

-- `decltype`. The comma operator has the type of its right operand.
unfoldable pub decltype_of : Guard → ValueType
decltype_of (constant c) = bool_value
decltype_of context_value = context_type
decltype_of (comma left right) = decltype_of right

-- The type after the arrow of each overload.
unfoldable pub guard : Overload → SessionType → Guard
guard (recvs timed false) s = comma (constant (not s.is_ssl_context_v)) context_value
guard (recvs timed true) s = comma (constant s.is_ssl_context_v) context_value
guard (sends timed ssl) s = comma (constant (not s.is_ssl_context_v)) context_value

-- The `static_assert`.
unfoldable pub asserts : Overload → SessionType → Bool
asserts (recvs timed ssl) s = s.is_request
asserts (sends timed ssl) s = not s.is_request

abbrev pub is_same : Bool → Bool → Bool
is_same true c = c
is_same false c = not c

-- The constructor of `impl` that the overload calls makes the connection from a socket and, with TLS,
-- a context, which is what the connection's own constructor takes. It takes one callback.
unfoldable pub constructs : Overload → SessionType → (actions : ℕ) → Bool
constructs (recvs timed ssl) s actions = is_same ssl s.is_ssl_context_v && actions == 1
constructs (sends timed ssl) s actions = is_same ssl s.is_ssl_context_v && actions == 1

-- What `std::move(dur)` is deduced as in the body of the lambdas that capture a duration: without
-- `mutable` the copy is constant.
unfoldable pub captured : TimeType → TimeType
captured (chrono_duration rep period) = const_duration rep period
captured (const_duration rep period) = const_duration rep period
captured (duration_reference rep period) = const_duration rep period
captured not_duration = not_duration

-- What the calls of the context demand of the duration: `send` has a `static_assert`, `recv` casts.
unfoldable pub asserts_duration : Overload → TimeType → Bool
unfolding is_chrono_duration captured
asserts_duration (recvs true ssl) not_duration = false
asserts_duration (sends true false) d = is_chrono_duration d
asserts_duration (sends true true) d = is_chrono_duration (captured d)
asserts_duration _ _ = true

-- A guard that is ill-formed would take the overload out of the choice, but none is, whatever it says:
-- `context()` is private to the session. An error in the body is an error of the program.
pub data Compilation : Type 0 where
  compiles hard_error : Compilation

-- The bodies return a context, which has to have the type of the guard.
unfoldable pub compile_call : Overload → SessionType → (actions : ℕ) → TimeType → Compilation
unfolding decltype_of guard asserts constructs asserts_duration
compile_call o s actions d = elim (decltype_of (guard o s)) [
  | bool_value ↦ hard_error
  | context_type ↦
      if asserts o s && constructs o s actions && asserts_duration o d then compiles else hard_error
]

abbrev pub receives : Overload → Bool
receives (recvs timed ssl) = true
receives (sends timed ssl) = false

abbrev pub with_ssl : Overload → Bool
with_ssl (recvs timed ssl) = ssl
with_ssl (sends timed ssl) = ssl

-- What an overload takes for a duration.
abbrev pub Lasts : Overload → TimeType → Type 0
Lasts (recvs true ssl) d = d ≢ not_duration
Lasts (recvs false ssl) d = Unit
Lasts (sends true true) d = ¬ Unit
Lasts (sends true false) d = (rep : ℕ) × (period : ℕ) × (d ≡ chrono_duration rep period)
Lasts (sends false ssl) d = Unit

-- The call suits the session.
abbrev pub Suits : Overload → SessionType → (actions : ℕ) → TimeType → Type 0
Suits o s actions d =
    (receives o ≡ s.is_request) × (with_ssl o ≡ s.is_ssl_context_v) × (actions ≡ 1) × Lasts o d

module _ {Message Ec C T : Type 0} (b : Boost Message Ec C T) where
  -- The function of each overload, given all that some of them take. One has none, since its body never
  -- compiles.
  abbrev pub launched :
      Overload
      → (at_once : Bool) → C
      → Router
      → (on_error : Bool) → Message
      → (duration : ℕ) → Option (Outcome (Strand Message Ec C T) (Impl Message Ec C T))
  launched (recvs false false) at_once c r e m d = some (session_recv b at_once c r e)
  launched (recvs true false) at_once c r e m d = some (session_recv_for b at_once c r e d)
  launched (recvs false true) at_once c r e m d = some (ssl_recv b at_once c r e)
  launched (recvs true true) at_once c r e m d = some (ssl_recv_for b at_once c r e d)
  launched (sends false false) at_once c r e m d = some (session_send b at_once c r e m)
  launched (sends true false) at_once c r e m d = some (session_send_for b at_once c r e m d)
  launched (sends false true) at_once c r e m d = some (ssl_send b at_once c r e m)
  launched (sends true true) at_once c r e m d = none

  -- The call of the context that a session of a type starts with.
  abbrev pub first_task : SessionType → (timed : Bool) → Message → (duration : ℕ) → Task Message
  first_task s timed m d =
      let own =
        if s.is_request
        then if timed then recv_for d else recv
        else if timed
        then send_for m d
        else send m in
      if s.is_ssl_context_v then handshake own else own

  abbrev pub is_timed : Overload → Bool
  is_timed (recvs timed ssl) = timed
  is_timed (sends timed ssl) = timed
