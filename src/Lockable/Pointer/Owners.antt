-- ===== src/Lockable/Pointer/Owners.antt =====
-- Any number of owners and lockers of one mutex (include/beast_router/base/lockable.hpp).
use beast_router.Base.{
  ℕ, suc, ◌+◌, ◌≡◌, ◌≢◌, refl, sym, ap, ◌∙◌, Bool, true, false, List, [], ◌∷◌, ◌++◌, length,
  Bool-cases, Option, some, ◌==◌, if◌then◌else◌, arith, inl, inr,
}
use mathlib.Core.Path.{subst}
use beast_router.Base.Outcome.{done, undefined}
use beast_router.Lockable.{
  SharedMutex, shared_mutex, enter_to_read, enter_to_write, leave_read, leave_write,
}
use beast_router.Lockable.Pointer.{
  MutexLocker, shared_lock, unique_lock, SharedPointer, ptr_locker, reset, destroy_base,
  destroy_locker,
}

-- A pointer with the lockers that hold it, and the number of its other owners.
pub record Lockers : Type 0 where
  pub pointer : SharedPointer
  pub others : ℕ
  pub held : List MutexLocker

abbrev pub new_mutex : Lockers
new_mutex = record {
  pointer = record { owners = 1; mutex = some shared_mutex };
  others = 1;
  held = [];
}

-- An owner that is no locker is copied or destroyed, or hands the pointer to a new locker; or one of
-- the lockers is destroyed.
pub data Step (s t : Lockers) : Type 0 where
  copies :
      s.others ≢ 0
      → t ≡ record s {
        pointer = record s.pointer { owners = suc s.pointer.owners };
        others = suc s.others;
      }
      → Step s t
  drops :
      (n : ℕ) → s.others ≡ suc n → t ≡ record s { pointer = reset s.pointer; others = n } → Step s t
  locks :
      (k : MutexLocker) (p : SharedPointer)
      → s.others ≢ 0
      → ptr_locker k s.pointer ≡ done (some p)
      → t ≡ record s { pointer = p; held = k ∷ s.held }
      → Step s t
  unlocks :
      (front : List MutexLocker) (k : MutexLocker) (rest : List MutexLocker) (p : SharedPointer)
      → s.held ≡ front ++ k ∷ rest
      → destroy_locker k s.pointer ≡ done p
      → t ≡ record s { pointer = p; held = front ++ rest }
      → Step s t

pub data Reach (s : Lockers) : Lockers → Type 0 where
  here : Reach s s
  then : {t u : Lockers} → Reach s t → Step t u → Reach s u

abbrev pub readers : List MutexLocker → ℕ
readers [] = 0
readers (shared_lock ∷ ks) = suc (readers ks)
readers (unique_lock ∷ ks) = readers ks

abbrev pub has_writer : List MutexLocker → Bool
has_writer [] = false
has_writer (shared_lock ∷ ks) = has_writer ks
has_writer (unique_lock ∷ ks) = true

-- The mutex that these lockers hold.
abbrev pub held_by : List MutexLocker → SharedMutex
held_by ks = record { shared_by = readers ks; owned = has_writer ks }

record IsHeld (others owners : ℕ) (mutex : Option SharedMutex) (held : List MutexLocker)
    : Type 0 where
  counted : owners ≡ others + length held
  alive : owners ≢ 0 → mutex ≡ some (held_by held)
  alone : has_writer held ≡ true → length held ≡ 1

-- One of the lockers can be looked at as the first.
taken :
    (front : List MutexLocker) (k : MutexLocker) (rest : List MutexLocker)
    → (readers (front ++ k ∷ rest) ≡ readers (k ∷ front ++ rest))
      × (has_writer (front ++ k ∷ rest) ≡ has_writer (k ∷ front ++ rest))
      × (length (front ++ k ∷ rest) ≡ suc (length (front ++ rest)))
taken [] k rest = (refl, refl, refl)
taken (shared_lock ∷ front) shared_lock rest = ground (arith, taken front shared_lock rest)
taken (shared_lock ∷ front) unique_lock rest = ground (arith, taken front unique_lock rest)
taken (unique_lock ∷ front) shared_lock rest = ground (arith, taken front shared_lock rest)
taken (unique_lock ∷ front) unique_lock rest = ground (arith, taken front unique_lock rest)

IsHeld-taken :
    (front : List MutexLocker) (k : MutexLocker) (rest : List MutexLocker) (others owners : ℕ)
    (mutex : Option SharedMutex)
    → IsHeld others owners mutex (front ++ k ∷ rest)
    → IsHeld others owners mutex (k ∷ front ++ rest)
IsHeld-taken front k rest others owners mutex h =
    let (same, writer, long) = taken front k rest in
    record {
      counted = omega (arith, h.counted, long);
      alive = λ e. h.alive e ∙ ap some (ground arith);
      alone = λ w. sym long ∙ h.alone (writer ∙ w);
    }

-- What the destructor makes of the first locker.
destroy_locker-first :
    (k : MutexLocker) (ks : List MutexLocker) (others : ℕ) (p : SharedPointer)
    → IsHeld others p.owners p.mutex (k ∷ ks)
    → destroy_locker k p ≡ (
        if others + length ks == 0
        then undefined
        else done (record { owners = others + length ks; mutex = some (held_by ks) }))
unfolding destroy_locker destroy_base reset leave_read leave_write
destroy_locker-first shared_lock ks others p h =
    let live = h.alive (λ e. absurd (omega (arith, h.counted, e))) in
    ground (arith, live, h.counted)
destroy_locker-first unique_lock [] others p h =
    let live = h.alive (λ e. absurd (omega (arith, h.counted, e))) in
    ground (arith, live, h.counted)
destroy_locker-first unique_lock (k ∷ ks) others p h = absurd (omega (arith, h.alone refl))

abbrev Holds : Lockers → Type 0
Holds s = IsHeld s.others s.pointer.owners s.pointer.mutex s.held

rest-alone :
    (k : MutexLocker) (ks : List MutexLocker)
    → (has_writer (k ∷ ks) ≡ true → length (k ∷ ks) ≡ 1)
    → has_writer ks ≡ true
    → length ks ≡ 1
rest-alone shared_lock [] alone w = absurd (ground arith)
rest-alone shared_lock (k ∷ ks) alone w = absurd (omega (arith, alone w))
rest-alone unique_lock [] alone w = absurd (ground arith)
rest-alone unique_lock (k ∷ ks) alone w = absurd (omega (arith, alone refl))

-- A mutex that a new locker enters.
ptr_locker-IsHeld :
    (k : MutexLocker) (ks : List MutexLocker) (others : ℕ) (p q : SharedPointer)
    → others ≢ 0
    → IsHeld others p.owners p.mutex ks
    → ptr_locker k p ≡ done (some q)
    → IsHeld others q.owners q.mutex (k ∷ ks)
unfolding ptr_locker enter_to_read enter_to_write
ptr_locker-IsHeld shared_lock ks others p q room h e =
    let live = h.alive (λ z. room (omega (arith, h.counted, z))) in
    record {
      counted = ground (arith, live, h.counted);
      alive = λ z. ground (arith, live);
      alone = λ w. absurd (ground (arith, live));
    }
ptr_locker-IsHeld unique_lock [] others p q room h e =
    let live = h.alive (λ z. room (omega (arith, h.counted, z))) in
    record {
      counted = ground (arith, live, h.counted);
      alive = λ z. ground (arith, live);
      alone = λ w. refl;
    }
ptr_locker-IsHeld unique_lock (shared_lock ∷ ks) others p q room h e =
    let live = h.alive (λ z. room (omega (arith, h.counted, z))) in absurd (ground (arith, live))
ptr_locker-IsHeld unique_lock (unique_lock ∷ ks) others p q room h e =
    let live = h.alive (λ z. room (omega (arith, h.counted, z))) in absurd (ground (arith, live))

-- What is left when a locker has left.
destroy_locker-IsHeld :
    (k : MutexLocker) (ks : List MutexLocker) (others : ℕ) (p q : SharedPointer)
    → IsHeld others p.owners p.mutex (k ∷ ks)
    → destroy_locker k p ≡ done q
    → IsHeld others q.owners q.mutex ks
destroy_locker-IsHeld k ks others p q h e =
    let same = destroy_locker-first k ks others p h in
    elim (Bool-cases (others + length ks == 0)) [
      | inl last ↦ absurd (ground (arith, same))
      | inr more ↦
          let left : record { owners = others + length ks; mutex = some (held_by ks) } ≡ q =
            ground (arith, same) in
          subst (λ r. IsHeld others r.owners r.mutex ks) left
            (record { counted = refl; alive = λ z. refl; alone = rest-alone k ks h.alone })
    ]

Step-Holds : {s t : Lockers} → Step s t → Holds s → Holds t
unfolding reset
Step-Holds {s} (Step.copies room e) h = subst Holds (sym e) (record {
  counted = omega (arith, h.counted);
  alive = λ z. h.alive (λ n. room (omega (arith, h.counted, n)));
  alone = h.alone;
})
Step-Holds {s} (Step.drops n others e) h =
    let live = h.alive (λ z. absurd (omega (arith, h.counted, others, z))) in
    subst Holds (sym e) (record {
      counted = omega (arith, h.counted, others);
      alive = λ z. ground (arith, live);
      alone = h.alone;
    })
Step-Holds {s} (Step.locks k p room f e) h =
    subst Holds (sym e) (ptr_locker-IsHeld k s.held s.others s.pointer p room h f)
Step-Holds {s} (Step.unlocks front k rest p same f e) h = subst Holds (sym e) (
    destroy_locker-IsHeld k (front ++ rest) s.others s.pointer p
      (IsHeld-taken front k rest s.others s.pointer.owners s.pointer.mutex
        (subst (IsHeld s.others s.pointer.owners s.pointer.mutex) same h))
      f)

Reach-Holds : {s t : Lockers} → Reach s t → Holds s → Holds t
Reach-Holds Reach.here h = h
Reach-Holds (Reach.then r step) h = Step-Holds step (Reach-Holds r h)

new_mutex-Holds : Holds new_mutex
unfolding shared_mutex
new_mutex-Holds = record { counted = refl; alive = λ z. refl; alone = λ w. absurd (ground arith) }

-- However the owners of a new mutex copy the pointer, give it up, lock and unlock: destroying a locker
-- that holds the mutex is undefined behaviour if neither another owner nor another locker is left, and
-- otherwise leaves the mutex as the other lockers hold it, with those that are left for its owners.
pub Reach-destroy_locker :
    (s : Lockers) (front : List MutexLocker) (k : MutexLocker) (rest : List MutexLocker)
    → Reach new_mutex s
    → s.held ≡ front ++ k ∷ rest
    → destroy_locker k s.pointer ≡ (
        if s.others + length (front ++ rest) == 0
        then undefined
        else done (record {
          owners = s.others + length (front ++ rest);
          mutex = some (held_by (front ++ rest));
        }))
Reach-destroy_locker s front k rest r same =
    destroy_locker-first k (front ++ rest) s.others s.pointer (
      IsHeld-taken front k rest s.others s.pointer.owners s.pointer.mutex (
        subst (IsHeld s.others s.pointer.owners s.pointer.mutex) same
          (Reach-Holds r new_mutex-Holds)))
