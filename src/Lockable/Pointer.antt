-- ===== src/Lockable/Pointer.antt =====
-- `ptr_locker` (include/beast_router/base/lockable.hpp): a lock that keeps a pointer to its mutex.
pub mod Owners
use beast_router.Base.{ℕ, suc, ◌-◌, Option, none, some, ◌==◌, if◌then◌else◌}
use beast_router.Base.Outcome.{Outcome, done, undefined}
use beast_router.Lockable.{SharedMutex, enter_to_read, enter_to_write, leave_read, leave_write}

-- The two instances of the template.
pub data MutexLocker : Type 0 where
  shared_lock unique_lock : MutexLocker

-- A mutex behind `std::shared_ptr`, with the number of its owners. `none`: it is destroyed.
pub record SharedPointer : Type 0 where
  pub owners : ℕ
  pub mutex : Option SharedMutex

abbrev pub lock : MutexLocker → SharedMutex → Option SharedMutex
lock shared_lock m = enter_to_read m
lock unique_lock m = enter_to_write m

abbrev pub unlock : MutexLocker → SharedMutex → SharedMutex
unlock shared_lock m = leave_read m
unlock unique_lock m = leave_write m

-- An owner of the pointer is destroyed, and the mutex with the last one.
unfoldable pub reset : SharedPointer → SharedPointer
reset p = record { owners = p.owners - 1; mutex = if p.owners == 1 then none else p.mutex }

-- The overloads on `mutex_pointer_type`: the locker locks the mutex and becomes an owner. The
-- arguments by value are owners only during the call. `none`: it waits.
unfoldable pub ptr_locker :
    MutexLocker → SharedPointer → Outcome (Option SharedPointer) SharedPointer
ptr_locker k p = elim p.mutex [
  | none ↦ undefined
  | some m ↦ done (elim (lock k m) [
    | none ↦ none
    | some m' ↦ some (record { owners = suc p.owners; mutex = some m' })
  ])
]

-- The destructor of the base class.
unfoldable pub destroy_base : MutexLocker → SharedPointer → Outcome SharedPointer SharedPointer
destroy_base k p = elim p.mutex [
  | none ↦ undefined
  | some m ↦ done (record p { mutex = some (unlock k m) })
]

-- The destructor destroys the member before the base class.
unfoldable pub destroy_locker : MutexLocker → SharedPointer → Outcome SharedPointer SharedPointer
unfolding destroy_base reset
destroy_locker k p = destroy_base k (reset p)
