-- ===== src/Lockable.antt =====
-- include/beast_router/base/lockable.hpp: the locks around the routing tables. Two results per call:
-- the mutex once the call returns, or `none` while it blocks.
pub mod Exclusion
pub mod Pointer
pub mod Sequential
use beast_router.Base.{
  ℕ, suc, ◌-◌, Bool, true, false, not, ◌||◌, Option, none, some, ◌==◌, if◌then◌else◌,
}

-- `std::shared_mutex`: how many threads share it, and if one owns it.
pub record SharedMutex : Type 0 where
  pub shared_by : ℕ
  pub owned : Bool

unfoldable pub shared_mutex : SharedMutex
shared_mutex = record { shared_by = 0; owned = false }

unfoldable pub enter_to_read : SharedMutex → Option SharedMutex
enter_to_read m = if m.owned then none else some (record m { shared_by = suc m.shared_by })

unfoldable pub enter_to_write : SharedMutex → Option SharedMutex
enter_to_write m =
    if m.owned || not (m.shared_by == 0) then none else some (record m { owned = true })

-- The destructors of the two locks.
unfoldable pub leave_read : SharedMutex → SharedMutex
leave_read m = record m { shared_by = m.shared_by - 1 }

unfoldable pub leave_write : SharedMutex → SharedMutex
leave_write m = record m { owned = false }
