-- ===== src/Session/Context.antt =====
-- `session::context` (include/beast_router/impl/session.ipp): the handle that user code holds. Its
-- calls go through the strand of the session; `set_user_data` and `get_user_data` keep a value of
-- any type.
use beast_router.Base.{
  Option-cases, inl, inr, ℕ, ◌≡◌, refl, ap, ◌∙◌, Bool, true, false, List, [], ◌∷◌, ◌++◌, Option,
  none, some, ◌==◌, if◌then◌else◌,
}
use mathlib.Core.List.{append-nil, append_assoc}
use beast_router.Base.Outcome.{Outcome, done, threw, undefined, ◌>>=◌}
use beast_router.Connection.{StreamOps, Connection, stream, plain}
use beast_router.Session.{Task, Boost, Impl, run_task}

-- A value with the number of its C++ type: `std::any`.
pub record Any (V : Type 0) : Type 0 where
  pub type_id : ℕ
  pub value : V

-- `m_impl` is the session that the calls below thread through.
pub record Context (V : Type 0) : Type 0 where
  pub m_user_data : Option (Any V)

module _ {V : Type 0} where
  unfoldable pub context : Context V
  context = record { m_user_data = none }

  unfoldable pub set_user_data : (type_id : ℕ) → V → Context V → Context V
  set_user_data type_id v ctx = record {
    m_user_data = some (record { type_id = type_id; value = v });
  }

  -- `none`: `std::bad_any_cast` is thrown.
  unfoldable pub get_user_data : (type_id : ℕ) → Context V → Option V
  get_user_data type_id ctx = elim ctx.m_user_data [
    | none ↦ none
    | some a ↦ if a.type_id == type_id then some a.value else none
  ]

  -- Calls of `set_user_data` in a row.
  abbrev pub set_all : List (Any V) → Context V → Context V
  set_all [] ctx = ctx
  set_all (a ∷ more) ctx = set_all more (set_user_data a.type_id a.value ctx)

  abbrev pub last : List (Any V) → Option (Any V)
  last [] = none
  last (a ∷ more) = elim (last more) [ none ↦ some a | some b ↦ some b ]

  -- After any calls of `set_user_data`, what the last of them stored is read at its own type, and a
  -- read at any other type throws; without such a call a read gives what it gave before.
  pub get_user_data-set_all :
      (t : ℕ) (stored : List (Any V)) (ctx : Context V)
      → get_user_data t (set_all stored ctx) ≡ elim (last stored) [
        | none ↦ get_user_data t ctx
        | some a ↦ if a.type_id == t then some a.value else none
      ]
  unfolding get_user_data set_user_data
  get_user_data-set_all t [] ctx = refl
  get_user_data-set_all t (a ∷ more) ctx =
      let later = get_user_data-set_all t more (set_user_data a.type_id a.value ctx) in
      elim (Option-cases (last more)) [
        | inl e ↦ later ∙ rw (last, e) refl
        | inr (b, e) ↦ later ∙ rw (last, e) refl
      ]

-- A session with the tasks that wait for its strand.
pub record Strand (Message Ec C T : Type 0) : Type 0 where
  pub impl : Impl Message Ec C T
  pub tasks : List (Task Message)

bind_ext :
    {A B D W : Type 0} (o : Outcome A W) (h : A → B) (f : B → Outcome D W) (g : A → Outcome D W)
    → ((a : A) → f (h a) ≡ g a)
    → ((o >>= λ a. done (h a)) >>= f) ≡ (o >>= g)
bind_ext (done a) h f g e = e a
bind_ext (threw w) h f g e = refl
bind_ext undefined h f g e = refl

module _ {Message Ec C T : Type 0} (b : Boost Message Ec C T) (server : Bool) where
  -- `boost::asio::dispatch`: a task runs within the call or is queued, as Boost decides. It runs
  -- `at_once` if the caller is in the strand, and also if the strand is idle and the caller is on a
  -- thread of its `io_context`.
  unfoldable pub dispatch :
      (at_once : Bool)
      → Task Message
      → Strand Message Ec C T
      → Outcome (Strand Message Ec C T) (Impl Message Ec C T)
  dispatch true task s = run_task b server task s.impl >>= λ i. done (record s { impl = i })
  dispatch false task s = done (record s { tasks = s.tasks ++ task ∷ [] })

  -- The calls of a context, in a row.
  unfoldable pub dispatch_all :
      (at_once : Bool)
      → List (Task Message)
      → Strand Message Ec C T
      → Outcome (Strand Message Ec C T) (Impl Message Ec C T)
  dispatch_all at_once [] s = done s
  dispatch_all at_once (task ∷ ts) s = dispatch at_once task s >>= dispatch_all at_once ts

  -- The strand runs what is queued.
  run_queued :
      List (Task Message)
      → Impl Message Ec C T
      → Outcome (Strand Message Ec C T) (Impl Message Ec C T)
  run_queued [] i = done (record { impl = i; tasks = [] })
  run_queued (task ∷ ts) i = run_task b server task i >>= run_queued ts

  unfoldable pub drain :
      Strand Message Ec C T → Outcome (Strand Message Ec C T) (Impl Message Ec C T)
  unfolding run_queued
  drain s = run_queued s.tasks s.impl

  unfoldable pub is_open : Strand Message Ec C T → Bool
  is_open s = b.connection.is_open s.impl.m_connection

  queued :
      (ts : List (Task Message)) (s : Strand Message Ec C T)
      → dispatch_all false ts s ≡ done (record s { tasks = s.tasks ++ ts })
  unfolding dispatch_all dispatch
  queued [] s = rw (append-nil s.tasks) refl
  queued (task ∷ ts) s =
      queued ts (record s { tasks = s.tasks ++ task ∷ [] })
      ∙ rw (append_assoc s.tasks (task ∷ []) ts) refl

  inline :
      (ts : List (Task Message)) (i : Impl Message Ec C T)
      → dispatch_all true ts (record { impl = i; tasks = [] }) ≡ run_queued ts i
  unfolding dispatch_all dispatch run_queued
  inline [] i = refl
  inline (task ∷ ts) i = bind_ext (run_task b server task i) _ _ _ (inline ts)

  -- Calls that are queued, once the strand has run them, have the same effect as the same calls that
  -- run at once: each runs once, in the order of the calls.
  pub drain-dispatch_all :
      (ts : List (Task Message)) (i : Impl Message Ec C T)
      → let s : Strand Message Ec C T = record { impl = i; tasks = [] } in
        (dispatch_all false ts s >>= drain) ≡ dispatch_all true ts s
  unfolding drain
  drain-dispatch_all ts i = rw (queued ts (record { impl = i; tasks = [] }), inline ts i) refl

module _ {S Message Ec T : Type 0} where
  -- `get_stream` over a plain connection.
  unfoldable pub get_stream : Strand Message Ec (Connection S) T → S
  unfolding stream
  get_stream s = stream s.impl.m_connection

  -- `context::is_open` asks the stream that `get_stream` gives.
  pub is_open-get_stream :
      (b : Boost Message Ec (Connection S) T) (ops : StreamOps S Ec)
      (s : Strand Message Ec (Connection S) T)
      → b.connection ≡ plain ops
      → is_open b true s ≡ ops.is_open (get_stream s)
  unfolding is_open plain get_stream
  is_open-get_stream b ops s e = ap (λ c. c.is_open s.impl.m_connection) e
