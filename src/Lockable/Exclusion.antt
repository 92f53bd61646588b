-- ===== src/Lockable/Exclusion.antt =====
-- A routing table under its mutex: `do_process_request` (include/beast_router/base/dispatcher.hpp)
-- reads it and `add_resource` (include/beast_router/impl/router.ipp) changes it, each on a thread of
-- its own.
use beast_router.Base.{
  ap, ◌⊎◌, inl, inr, ℕ, suc, ◌-◌, ◌≡◌, ◌≢◌, refl, ◌∙◌, List, [], ◌∷◌, ◌++◌, none, some, arith,
  length, length-append, All, All-append_one, if◌then◌else◌, String,
}
use mathlib.Core.Path.{subst}
use beast_router.Router.{Verb, Storage, MethodMap, add_resource}
use beast_router.Lockable.{
  SharedMutex, shared_mutex, enter_to_read, enter_to_write, leave_read, leave_write,
}

All-without :
    {A : Type 0} (P : A → Type 0) (front rest : List A) (a : A)
    → All P (front ++ a ∷ rest)
    → All P (front ++ rest)
All-without P [] rest a h = h.1
All-without P (x ∷ front) rest a h = (h.0, All-without P front rest a h.1)

All-none : {A : Type 0} (P : A → Type 0) (xs : List A) → xs ≡ [] → All P xs
All-none P xs e = rw e tt

-- `reading` has for each request in progress the table with which it began; `writing` counts the
-- registrations in progress.
pub record Threads (Message Context Match W : Type 0) : Type 0 where
  pub mutex : SharedMutex
  pub table : MethodMap Message Context Match W
  pub reading : List (MethodMap Message Context Match W)
  pub writing : ℕ

module _ {Message Context Match W : Type 0} where
  abbrev pub idle : MethodMap Message Context Match W → Threads Message Context Match W
  idle m = record { mutex = shared_mutex; table = m; reading = []; writing = 0 }

  pub data Step (s t : Threads Message Context Match W) : Type 0 where
    request_begins :
        (m : SharedMutex)
        → enter_to_read s.mutex ≡ some m
        → t ≡ record s { mutex = m; reading = s.reading ++ s.table ∷ [] }
        → Step s t
    request_ends :
        (front rest : List (MethodMap Message Context Match W))
        (began : MethodMap Message Context Match W)
        → s.reading ≡ front ++ began ∷ rest
        → t ≡ record s { mutex = leave_read s.mutex; reading = front ++ rest }
        → Step s t
    registration_begins :
        (m : SharedMutex)
        → enter_to_write s.mutex ≡ some m
        → t ≡ record s { mutex = m; writing = suc s.writing }
        → Step s t
    registers :
        (path : String) (method : Verb) (st : Storage Message Context Match W)
        → s.writing ≢ 0
        → t ≡ record s { table = add_resource path method st s.table }
        → Step s t
    registration_ends :
        s.writing ≢ 0
        → t ≡ record s { mutex = leave_write s.mutex; writing = s.writing - 1 }
        → Step s t

  pub data Reach (s : Threads Message Context Match W)
      : Threads Message Context Match W → Type 0 where
    here : Reach s s
    then : {t u : Threads Message Context Match W} → Reach s t → Step t u → Reach s u

  pub record Exclusive (s : Threads Message Context Match W) : Type 0 where
    -- The mutex knows who is in.
    pub shared : s.mutex.shared_by ≡ length s.reading
    pub owned : s.writing ≡ (if s.mutex.owned then 1 else 0)
    -- While a registration is in progress no request is.
    pub exclusion : (s.writing ≡ 0) ⊎ (s.reading ≡ [])
    -- Each request in progress sees the table with which it began.
    pub stable : All (λ began. began ≡ s.table) s.reading

  Step-Exclusive : {s t : Threads Message Context Match W} → Step s t → Exclusive s → Exclusive t
  unfolding enter_to_read enter_to_write leave_read leave_write
  Step-Exclusive {s} (request_begins m e f) x = rw f (record {
    shared = ground (arith, length-append s.reading (s.table ∷ []));
    owned = ground arith;
    exclusion = ground arith;
    stable = All-append_one _ s.reading s.table x.stable refl;
  })
  Step-Exclusive {s} (request_ends front rest began e f) x = rw f (record {
    shared =
        ground (arith, length-append front (began ∷ rest), length-append front rest, ap length e);
    owned = x.owned;
    exclusion = elim x.exclusion [
      | inl none_writes ↦ inl none_writes
      | inr empty ↦
          absurd (omega (arith, length-append front (began ∷ rest), ap length e, ap length empty))
    ];
    stable = All-without _ front rest began (subst (λ l. All (λ b. b ≡ s.table) l) e x.stable);
  })
  Step-Exclusive {s} (registration_begins m e f) x = rw f (record {
    shared = ground arith;
    owned = ground arith;
    exclusion = ground arith;
    stable = x.stable;
  })
  Step-Exclusive {s} (registers path method st h f) x = rw f (record {
    shared = x.shared;
    owned = x.owned;
    exclusion = x.exclusion;
    stable = All-none _ s.reading (ground arith);
  })
  Step-Exclusive {s} (registration_ends h f) x = rw f (record {
    shared = x.shared;
    owned = ground arith;
    exclusion = inr (ground arith);
    stable = x.stable;
  })

  Reach-Exclusive-from :
      {s t : Threads Message Context Match W} → Reach s t → Exclusive s → Exclusive t
  Reach-Exclusive-from Reach.here x = x
  Reach-Exclusive-from (Reach.then r step) x = Step-Exclusive step (Reach-Exclusive-from r x)

  idle-Exclusive : (m : MethodMap Message Context Match W) → Exclusive (idle m)
  unfolding shared_mutex
  idle-Exclusive m = record { shared = refl; owned = refl; exclusion = inl refl; stable = tt }

  -- However the requests and the registrations of any number of threads fall between one another: no
  -- request is in progress while a registration is, no two registrations are, and every request in
  -- progress sees, as long as it lasts, the table with which it began.
  pub Reach-Exclusive :
      (m : MethodMap Message Context Match W) (t : Threads Message Context Match W)
      → Reach (idle m) t
      → Exclusive t
  Reach-Exclusive m t r = Reach-Exclusive-from r (idle-Exclusive m)

  -- In every reachable state in which a request is in progress, the lock that a registration takes
  -- blocks.
  pub Reach-blocked :
      (m : MethodMap Message Context Match W) (t : Threads Message Context Match W)
      → Reach (idle m) t
      → t.reading ≢ []
      → enter_to_write t.mutex ≡ none
  unfolding enter_to_write
  Reach-blocked m t r h = blocked t.reading refl h (Reach-Exclusive m t r)
    where
      blocked :
          (l : List (MethodMap Message Context Match W))
          → t.reading ≡ l
          → l ≢ []
          → Exclusive t
          → enter_to_write t.mutex ≡ none
      blocked [] e n x = absurd (n refl)
      blocked (began ∷ l) e n x = let count = x.shared ∙ ap length e in ground (arith, count)
