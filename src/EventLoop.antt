-- ===== src/EventLoop.antt =====
-- include/beast_router/common/event_loop.hpp and impl/event_loop.ipp: the threads that run the
-- handlers. The `io_context` `C` is outside the repository.
pub mod Threads
use Prim.Native.Nat.{◌%◌, ◌^◌}
use beast_router.Base.{
  Option, none, some, ◌+◌, ℕ, zero, suc, Bool, true, false, not, ltb, if◌then◌else◌,
}
use beast_router.Base.Outcome.{Outcome, done, undefined}

-- `wait` is the wait for the signals. `run` is the call of the thread that has started it, up to the
-- end of the loop or to the handler of that wait, whose error code is then given.
pub record IoContext (C Ec Code : Type 0) : Type 0 where
  pub make : C
  pub wait : C → C
  pub run : C → Option Ec × C
  pub stop : C → C
  pub stopped : C → Bool
  pub value : Ec → Code
  pub success : Code

-- `event_loop`. `m_threads` is the size of the thread group, and `joined` says how many of its threads
-- have been joined. `m_threads_num` is an `unsigned int` of 32 bits.
pub record EventLoop (C : Type 0) : Type 0 where
  pub m_threads_num : ℕ
  pub m_threads : ℕ
  pub joined : ℕ
  pub m_ioc : C

module _ {C Ec Code : Type 0} (io : IoContext C Ec Code) where
  unfoldable pub event_loop : (threads : ℕ) → EventLoop C
  event_loop threads = record {
    m_threads_num = threads;
    m_threads = 0;
    joined = 0;
    m_ioc = io.make;
  }

  -- The factory.
  unfoldable pub create : (threads : ℕ) → EventLoop C
  unfolding event_loop
  create threads = event_loop threads

  unfoldable pub stop : EventLoop C → EventLoop C
  stop l = record l { m_ioc = io.stop l.m_ioc; joined = l.m_threads }

  -- The same by a thread of the group or by another. A thread of the group may not call `join_all`, which
  -- would wait for itself.
  unfoldable pub stop_by : (in_group : Bool) → EventLoop C → Outcome (EventLoop C) (EventLoop C)
  unfolding stop
  stop_by true l = undefined
  stop_by false l = done (stop l)

  unfoldable pub is_running : EventLoop C → Bool
  is_running l = not (io.stopped l.m_ioc)

  -- The lambda of `exec` that handles a signal, with what `ret_code` becomes.
  unfoldable pub on_signal : Ec → EventLoop C → Code × EventLoop C
  on_signal ec l = (io.value ec, record l { m_ioc = io.stop l.m_ioc })

  -- The destructor.
  unfoldable pub destroy_loop : EventLoop C → EventLoop C
  unfolding stop
  destroy_loop l = stop l

module _ {C : Type 0} where
  unfoldable pub get_threads : EventLoop C → ℕ
  get_threads l = l.m_threads_num

  -- The loop from `i` on, with fuel.
  unfoldable pub create_threads : (fuel i : ℕ) → EventLoop C → EventLoop C
  create_threads zero i l = l
  create_threads (suc fuel) i l =
      let rest =
        create_threads fuel ((i + 1) % 2 ^ 32) (record l { m_threads = suc l.m_threads }) in
      if ltb i l.m_threads_num then rest else l

module _ {C Ec Code : Type 0} (io : IoContext C Ec Code) where
  -- `exec`, with what it returns.
  unfoldable pub exec : EventLoop C → Code × EventLoop C
  unfolding create_threads on_signal
  exec l =
      let l' = create_threads l.m_threads_num 1 (record l { m_ioc = io.wait l.m_ioc }) in
      let (signalled, ioc) = io.run l'.m_ioc in
      elim signalled [
        | none ↦ (io.success, record l' { m_ioc = ioc })
        | some ec ↦ on_signal io ec (record l' { m_ioc = ioc })
      ]
