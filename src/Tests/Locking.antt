-- ===== src/Tests/Locking.antt =====
-- Two requests at once on a routing table, and two handlers of one connection.
use beast_router.Base.{
  All, ◌≤◌, ℕ, suc, ◌≡◌, refl, true, false, List, [], ◌∷◌, ◌++◌, some, arith, length, String,
}
use beast_router.AsyncConnection.{Asio, connection, async_read, async_write, reads, writes}
use beast_router.AsyncConnection.Strands
use beast_router.Dispatcher.{process_request}
use beast_router.Router.{MethodMap, Storage, get, add_resource}
use beast_router.Storage.{storage}
use beast_router.Lockable.{shared_mutex, enter_to_read, enter_to_write, leave_read}
use beast_router.Lockable.Sequential
use beast_router.Lockable.Sequential.{
  Event, answered, registered, Logged, Sequential, Reach-Sequential,
}
use beast_router.Lockable.Exclusion.{Threads, idle, Step, Reach, Exclusive, Reach-Exclusive}
use beast_router.Base.Outcome.{undefined}
use beast_router.Lockable.Pointer.{shared_lock, ptr_locker, reset, destroy_locker}
use beast_router.Lockable.Pointer.Owners
use beast_router.Lockable.Pointer.Owners.{Lockers, new_mutex, Reach-destroy_locker}
use beast_router.Tests.Data.{Request, env, notes}

abbrev Table : Type 0
Table = MethodMap Request ℕ String (List ℕ)

abbrev empty : Table
empty = []

abbrev busy : (threads : ℕ) → List Table → Threads Request ℕ String (List ℕ)
busy threads reading = record {
  mutex = record { shared_by = threads; owned = false };
  table = empty;
  reading = reading;
  writing = 0;
}

two_requests : Reach (idle empty) (busy 2 (empty ∷ empty ∷ []))
unfolding shared_mutex enter_to_read
two_requests =
    Reach.then {t = busy 1 (empty ∷ [])}
      (Reach.then Reach.here
        (Step.request_begins (record { shared_by = 1; owned = false }) refl refl))
      (Step.request_begins (record { shared_by = 2; owned = false }) refl refl)

Reach-Exclusive_example : Exclusive (busy 2 (empty ∷ empty ∷ []))
Reach-Exclusive_example = Reach-Exclusive empty (busy 2 (empty ∷ empty ∷ [])) two_requests

abbrev Log : Type 0
Log = Logged Request ℕ String (List ℕ)

abbrev chain : Storage Request ℕ String (List ℕ)
chain = storage (notes 1 ∷ [])

-- A request begins, ends, and then its path is registered.
abbrev s0 : Log
s0 = record { threads = idle empty; history = [] }

abbrev s1 : Log
s1 = record s0 { threads = busy 1 (empty ∷ []) }

abbrev asked : List (Event Request ℕ String (List ℕ))
asked = answered ("/a", get) [] (process_request env empty ("/a", get) []) ∷ []

abbrev s2 : Log
s2 = record { threads = busy 0 []; history = asked }

abbrev s3 : Log
s3 = record s2 {
  threads = record s2.threads { mutex = record { shared_by = 0; owned = true }; writing = 1 };
}

abbrev s4 : Log
s4 = record {
  threads = record s3.threads { table = add_resource "/a" get chain empty };
  history = asked ++ registered "/a" get chain ∷ [];
}

one_of_each : Sequential.Reach env s0 s4
unfolding shared_mutex enter_to_read enter_to_write leave_read
one_of_each =
    Sequential.Reach.then {t = s3}
      (Sequential.Reach.then {t = s2}
        (Sequential.Reach.then {t = s1}
          (Sequential.Reach.then Sequential.Reach.here
            (Sequential.Step.request_begins (record { shared_by = 1; owned = false }) refl refl))
          (Sequential.Step.request_ends [] [] empty ("/a", get) [] refl refl))
        (Sequential.Step.registration_begins (record { shared_by = 0; owned = true }) refl refl))
      (Sequential.Step.registers "/a" get chain (λ e. absurd (omega (arith, e))) refl)

Reach-Sequential_example : Sequential env empty s4.history (add_resource "/a" get chain empty)
Reach-Sequential_example = Reach-Sequential env empty s4 one_of_each

-- One reader of a mutex that has this many other owners.
abbrev read_by_one : (others : ℕ) → Lockers
read_by_one others = record {
  pointer = record { owners = suc others; mutex = some (record { shared_by = 1; owned = false }) };
  others = others;
  held = shared_lock ∷ [];
}

reader_left : Owners.Reach new_mutex (read_by_one 0)
unfolding ptr_locker enter_to_read reset shared_mutex
reader_left =
    Owners.Reach.then {t = read_by_one 1}
      (Owners.Reach.then Owners.Reach.here (
        Owners.Step.locks shared_lock (read_by_one 1).pointer (λ e. absurd (omega (arith, e))) refl
          refl))
      (Owners.Step.drops 0 refl refl)

-- The reader is the last owner.
Reach-destroy_locker_example : destroy_locker shared_lock (read_by_one 0).pointer ≡ undefined
Reach-destroy_locker_example =
    Reach-destroy_locker (read_by_one 0) [] shared_lock [] reader_left refl

-- A handler is bound to the executor 1.
abbrev asio : Asio ℕ ℕ (ℕ × ℕ)
asio = record { bind_executor = λ x f. (x, f); get_executor = λ h. h.0 }

-- A read and a write are called, and the handler of the write runs.
abbrev one_runs : Strands.Threads ℕ (ℕ × ℕ) ℕ ℕ ℕ ℕ
one_runs = record {
  connection = record { m_completion_executor = 1; in_flight = (reads 5 6, (1, 8)) ∷ [] };
  running = (1, 7) ∷ [];
}

abbrev both_called : Strands.Threads ℕ (ℕ × ℕ) ℕ ℕ ℕ ℕ
both_called = record {
  connection = async_write asio 3 7 (async_read asio 5 6 8 (connection asio 1));
  running = [];
}

write_runs : Strands.Reach asio (record { connection = connection asio 1; running = [] }) one_runs
unfolding connection async_read async_write
write_runs =
    Strands.Reach.then {t = both_called}
      (Strands.Reach.then
        {t = record { connection = async_read asio 5 6 8 (connection asio 1); running = [] }}
        (Strands.Reach.then Strands.Reach.here (Strands.Step.read 5 6 8 refl refl))
        (Strands.Step.write 3 7 refl refl))
      (Strands.Step.begins ((reads 5 6, (1, 8)) ∷ []) [] (writes 3) (1, 7) refl tt refl refl)

Reach-one_at_a_time_example :
    All (λ p. asio.get_executor p.1 ≡ 1) one_runs.connection.in_flight
    × All (λ h. asio.get_executor h ≡ 1) one_runs.running
    × (length one_runs.running ≤ 1)
Reach-one_at_a_time_example = Strands.Reach-one_at_a_time asio (λ x f. refl) 1 one_runs write_runs
