-- ===== src/Session/Overloads/Calls.antt =====
-- Which calls of the static functions `recv` and `send` (include/beast_router/session.hpp) compile.
use beast_router.Base.{ℕ, ◌==◌, Bool, ◌&&◌}
use beast_router.Router.{Router}
use beast_router.Utility.{TimeType}
use beast_router.Session.Overloads.{
  SessionType, Overload, is_same, asserts_duration, receives, with_ssl,
}

-- The same as a test.
suits : Overload → SessionType → (actions : ℕ) → TimeType → Bool
suits o s actions d =
    is_same (receives o) s.is_request
    && is_same (with_ssl o) s.is_ssl_context_v
    && actions == 1
    && asserts_duration o d
