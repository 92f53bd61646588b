-- ===== src/Timer.antt =====
-- include/beast_router/common/timer.hpp and impl/timer.ipp: the wrapper of an asio timer. The timer
-- inside, `T`, is outside the repository.
use beast_router.Base.{ℕ, Option, none, some}

-- The asio timer: a cancellation may throw a `system_error`, whose code is then given.
pub record AsioTimer (T Ec : Type 0) : Type 0 where
  pub make : (expiry : ℕ) → T
  pub time_point_max : ℕ
  pub expires_after : (duration : ℕ) → T → ℕ × T
  pub expiry : T → ℕ
  pub cancel : T → Option Ec × T
  pub async_wait : T → T
  pub success : Ec

module _ {T Ec : Type 0} (asio : AsioTimer T Ec) where
  unfoldable pub timer : T
  timer = asio.make asio.time_point_max

  -- The number of waits that were cancelled, and the timer.
  unfoldable pub expires_from_now : ℕ → T → ℕ × T
  expires_from_now expire_time m_timer = asio.expires_after expire_time m_timer

  unfoldable pub expiry : T → ℕ
  expiry m_timer = asio.expiry m_timer

  -- The exception becomes the result.
  unfoldable pub cancel : T → Ec × T
  cancel m_timer =
      let (thrown, m_timer') = asio.cancel m_timer in
      (elim thrown [ none ↦ asio.success | some code ↦ code ], m_timer')

  unfoldable pub async_wait : T → T
  async_wait m_timer = asio.async_wait m_timer
