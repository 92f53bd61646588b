-- ===== src/Lockable/Sequential.antt =====
-- Requests and registrations on many threads against the same one at a time: `do_process_request`
-- (include/beast_router/base/dispatcher.hpp) and `add_resource`
-- (include/beast_router/impl/router.ipp) under the mutex of the table.
use beast_router.Base.{suc, ◌-◌, ◌≡◌, ◌≢◌, refl, ap, List, [], ◌∷◌, ◌++◌, some, All, String}
use mathlib.Core.Path.{subst}
use beast_router.Base.Outcome.{Outcome}
use beast_router.Router.{Verb, Storage, MethodMap, add_resource}
use beast_router.Dispatcher.{Env, process_request}
use beast_router.Lockable.{SharedMutex, enter_to_read, enter_to_write, leave_read, leave_write}
use beast_router.Lockable.Exclusion
use beast_router.Lockable.Exclusion.{Threads, idle, Exclusive, Reach-Exclusive}

All-middle :
    {A : Type 0} (P : A → Type 0) (front rest : List A) (a : A) → All P (front ++ a ∷ rest) → P a
All-middle P [] rest a h = h.0
All-middle P (x ∷ front) rest a h = All-middle P front rest a h.1

-- What was done, at the time of the write of a registration and at the end of a request.
pub data Event (Message Context Match W : Type 0) : Type 0 where
  registered : String → Verb → Storage Message Context Match W → Event Message Context Match W
  answered : Message → W → Outcome W W → Event Message Context Match W

pub record Logged (Message Context Match W : Type 0) : Type 0 where
  pub threads : Threads Message Context Match W
  pub history : List (Event Message Context Match W)

module _ {Message Context Match W Regex : Type 0} (env : Env Message Context Match W Regex) where
  -- A request ends as it does on the table with which it began.
  pub data Step (s t : Logged Message Context Match W) : Type 0 where
    request_begins :
        (m : SharedMutex)
        → enter_to_read s.threads.mutex ≡ some m
        → t ≡ record s {
          threads = record s.threads {
            mutex = m;
            reading = s.threads.reading ++ s.threads.table ∷ [];
          };
        }
        → Step s t
    request_ends :
        (front rest : List (MethodMap Message Context Match W))
        (began : MethodMap Message Context Match W) (request : Message) (w : W)
        → s.threads.reading ≡ front ++ began ∷ rest
        → t ≡ record {
          threads = record s.threads {
            mutex = leave_read s.threads.mutex;
            reading = front ++ rest;
          };
          history = s.history ++ answered request w (process_request env began request w) ∷ [];
        }
        → Step s t
    registration_begins :
        (m : SharedMutex)
        → enter_to_write s.threads.mutex ≡ some m
        → t ≡ record s { threads = record s.threads { mutex = m; writing = suc s.threads.writing } }
        → Step s t
    registers :
        (path : String) (method : Verb) (st : Storage Message Context Match W)
        → s.threads.writing ≢ 0
        → t ≡ record {
          threads = record s.threads { table = add_resource path method st s.threads.table };
          history = s.history ++ registered path method st ∷ [];
        }
        → Step s t
    registration_ends :
        s.threads.writing ≢ 0
        → t ≡ record s {
          threads = record s.threads {
            mutex = leave_write s.threads.mutex;
            writing = s.threads.writing - 1;
          };
        }
        → Step s t

  pub data Reach (s : Logged Message Context Match W)
      : Logged Message Context Match W → Type 0 where
    here : Reach s s
    then : {t u : Logged Message Context Match W} → Reach s t → Step t u → Reach s u

  -- One thing after another, on one thread: from the table `m` these events lead to a table.
  pub data Sequential (m : MethodMap Message Context Match W)
      : List (Event Message Context Match W) → MethodMap Message Context Match W → Type 0 where
    none_yet : Sequential m [] m
    after_registered :
        {before after : List (Event Message Context Match W)}
        {table : MethodMap Message Context Match W} (path : String) (method : Verb)
        (st : Storage Message Context Match W)
        → Sequential m before table
        → after ≡ before ++ registered path method st ∷ []
        → Sequential m after (add_resource path method st table)
    after_answered :
        {before after : List (Event Message Context Match W)}
        {table : MethodMap Message Context Match W} (request : Message) (w : W)
        → Sequential m before table
        → after ≡ before ++ answered request w (process_request env table request w) ∷ []
        → Sequential m after table

  forget : {s t : Logged Message Context Match W} → Step s t → Exclusion.Step s.threads t.threads
  forget (Step.request_begins m e f) = Exclusion.Step.request_begins m e (ap (λ x. x.threads) f)
  forget (Step.request_ends front rest began request w e f) =
      Exclusion.Step.request_ends front rest began e (ap (λ x. x.threads) f)
  forget (Step.registration_begins m e f) =
      Exclusion.Step.registration_begins m e (ap (λ x. x.threads) f)
  forget (Step.registers path method st n f) =
      Exclusion.Step.registers path method st n (ap (λ x. x.threads) f)
  forget (Step.registration_ends n f) = Exclusion.Step.registration_ends n (ap (λ x. x.threads) f)

  forget_all :
      {s t : Logged Message Context Match W} → Reach s t → Exclusion.Reach s.threads t.threads
  forget_all Reach.here = Exclusion.Reach.here
  forget_all (Reach.then r step) = Exclusion.Reach.then (forget_all r) (forget step)

  Step-Sequential :
      {m : MethodMap Message Context Match W} {s t : Logged Message Context Match W}
      → Exclusive s.threads
      → Step s t
      → Sequential m s.history s.threads.table
      → Sequential m t.history t.threads.table
  Step-Sequential x (Step.request_begins mutex e f) h = rw f h
  Step-Sequential {m} {s} x (Step.request_ends front rest began request w e f) h =
      let now : began ≡ s.threads.table =
        All-middle _ front rest began (subst (All (λ b. b ≡ s.threads.table)) e x.stable) in
      rw f (
        Sequential.after_answered request w h
          (ap (λ b. s.history ++ answered request w (process_request env b request w) ∷ []) now))
  Step-Sequential x (Step.registration_begins mutex e f) h = rw f h
  Step-Sequential x (Step.registers path method st n f) h =
      rw f (Sequential.after_registered path method st h refl)
  Step-Sequential x (Step.registration_ends n f) h = rw f h

  -- Requests, each on a state of its own, and registrations on any number of threads, however they fall
  -- between one another, are the same one at a time, each registration at its write and each request at
  -- its end: the table is that of the registrations in that order, and each request has ended as it does
  -- on the table between them.
  pub Reach-Sequential :
      (m : MethodMap Message Context Match W) (t : Logged Message Context Match W)
      → Reach (record { threads = idle m; history = [] }) t
      → Sequential m t.history t.threads.table
  Reach-Sequential m t Reach.here = Sequential.none_yet
  Reach-Sequential m t (Reach.then {t = s} r step) =
      Step-Sequential (Reach-Exclusive m s.threads (forget_all r)) step (Reach-Sequential m s r)
