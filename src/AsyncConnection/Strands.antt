-- ===== src/AsyncConnection/Strands.antt =====
-- The handlers of a connection (include/beast_router/base/impl/connection.ipp) on any number of threads.
use beast_router.Base.{
  ◌≤◌, ◌≡◌, ◌≢◌, refl, Bool, sym, ◌∙◌, List, [], ◌∷◌, ◌++◌, All, All-append, All-append_one, length,
  length-append, arith,
}
use mathlib.Core.Path.{subst}
use beast_router.AsyncConnection.{
  Call, connects, writes, reads, handshakes, Asio, AsyncConnection, connection, async_connect,
  async_write, async_read, async_handshake,
}

All-split : {A : Type 0} (Q : A → Type 0) (xs ys : List A) → All Q (xs ++ ys) → All Q xs × All Q ys
All-split Q [] ys h = (tt, h)
All-split Q (x ∷ xs) ys h = let (f, g) = All-split Q xs ys h.1 in ((h.0, f), g)

All-without :
    {A : Type 0} (Q : A → Type 0) (xs ys : List A) (a : A)
    → All Q (xs ++ a ∷ ys)
    → Q a × All Q (xs ++ ys)
All-without Q xs ys a h = let (f, g) = All-split Q xs (a ∷ ys) h in (g.0, All-append Q xs ys f g.1)

nothing_runs :
    {X H : Type 0} (executor_of : H → X) (x : X) (h : H) (rs : List H)
    → executor_of h ≡ x
    → All (λ r. executor_of r ≡ x) rs
    → All (λ r. executor_of r ≢ executor_of h) rs
    → rs ≡ []
nothing_runs executor_of x h [] e a d = refl
nothing_runs executor_of x h (r ∷ rs) e a d = absurd (d.0 (a.0 ∙ sym e))

-- A connection with the handlers that the threads are running.
pub record Threads (X H E W B P : Type 0) : Type 0 where
  pub connection : AsyncConnection X H E W B P
  pub running : List H

module _ {X F H E W B P : Type 0} (asio : Asio X F H) where
  -- The owner calls, an operation completes and its handler begins, or a handler ends. An executor that
  -- is a strand does not begin a handler while another one of its handlers runs.
  pub data Step (s t : Threads X H E W B P) : Type 0 where
    connect :
        (endpoints : E) (func : F)
        → t.connection ≡ async_connect asio endpoints func s.connection
        → t.running ≡ s.running
        → Step s t
    write :
        (serializer : W) (func : F)
        → t.connection ≡ async_write asio serializer func s.connection
        → t.running ≡ s.running
        → Step s t
    read :
        (buffer : B) (parser : P) (func : F)
        → t.connection ≡ async_read asio buffer parser func s.connection
        → t.running ≡ s.running
        → Step s t
    handshake :
        (server : Bool) (func : F)
        → t.connection ≡ async_handshake asio server func s.connection
        → t.running ≡ s.running
        → Step s t
    begins :
        (front rest : List (Call E W B P × H)) (call : Call E W B P) (handler : H)
        → s.connection.in_flight ≡ front ++ (call, handler) ∷ rest
        → All (λ r. asio.get_executor r ≢ asio.get_executor handler) s.running
        → t.connection ≡ record s.connection { in_flight = front ++ rest }
        → t.running ≡ handler ∷ s.running
        → Step s t
    ends :
        (front rest : List H) (handler : H)
        → s.running ≡ front ++ handler ∷ rest
        → t.connection ≡ s.connection
        → t.running ≡ front ++ rest
        → Step s t

  pub data Reach (s : Threads X H E W B P) : Threads X H E W B P → Type 0 where
    here : Reach s s
    then : {t u : Threads X H E W B P} → Reach s t → Step t u → Reach s u

  -- Every handler is bound to the executor `x`, and at most one of them runs.
  pub record OnStrand (x : X) (s : Threads X H E W B P) : Type 0 where
    pub executor : s.connection.m_completion_executor ≡ x
    pub waiting : All (λ p. asio.get_executor p.1 ≡ x) s.connection.in_flight
    pub running : All (λ h. asio.get_executor h ≡ x) s.running
    pub one : length s.running ≤ 1

  module _ (bound : (x : X) (f : F) → asio.get_executor (asio.bind_executor x f) ≡ x) (x : X) where
    calls :
        (c : Call E W B P) (func : F) (s : Threads X H E W B P)
        → OnStrand x s
        → All
            (λ p. asio.get_executor p.1 ≡ x)
            (s.connection.in_flight
              ++ (c, asio.bind_executor s.connection.m_completion_executor func) ∷ [])
    calls c func s o =
        All-append_one _ s.connection.in_flight _ o.waiting (bound _ func ∙ o.executor)

    called-OnStrand :
        (c : Call E W B P) (func : F) (s t : Threads X H E W B P)
        → t.connection ≡ record s.connection {
          in_flight =
              s.connection.in_flight
              ++ (c, asio.bind_executor s.connection.m_completion_executor func) ∷ [];
        }
        → t.running ≡ s.running
        → OnStrand x s
        → OnStrand x t
    called-OnStrand c func s t e r o = record {
      executor = ground (arith, o.executor);
      waiting = rw e (calls c func s o);
      running = rw r o.running;
      one = ground (arith, o.one);
    }

    Step-OnStrand : {s t : Threads X H E W B P} → Step s t → OnStrand x s → OnStrand x t
    unfolding async_connect async_write async_read async_handshake
    Step-OnStrand {s} {t} (connect endpoints func e r) o =
        called-OnStrand (connects endpoints) func s t e r o
    Step-OnStrand {s} {t} (write serializer func e r) o =
        called-OnStrand (writes serializer) func s t e r o
    Step-OnStrand {s} {t} (read buffer parser func e r) o =
        called-OnStrand (reads buffer parser) func s t e r o
    Step-OnStrand {s} {t} (handshake server func e r) o =
        called-OnStrand (handshakes server) func s t e r o
    Step-OnStrand {s} {t} (begins front rest call handler e d f r) o =
        let (mine, others) =
          All-without (λ p. asio.get_executor p.1 ≡ x) front rest (call, handler)
            (subst (All _) e o.waiting) in
        let empty = nothing_runs asio.get_executor x handler s.running mine o.running d in
        record {
          executor = ground (arith, o.executor);
          waiting = rw f others;
          running = rw r (mine, o.running);
          one = ground (arith, empty);
        }
    Step-OnStrand {s} {t} (ends front rest handler e f r) o =
        let (mine, others) =
          All-without (λ h. asio.get_executor h ≡ x) front rest handler
            (subst (All _) e o.running) in
        record {
          executor = ground (arith, o.executor);
          waiting = rw f o.waiting;
          running = rw r others;
          one =
              ground (arith, o.one, length-append front rest, length-append front (handler ∷ rest));
        }

    Reach-OnStrand : {s t : Threads X H E W B P} → Reach s t → OnStrand x s → OnStrand x t
    Reach-OnStrand here o = o
    Reach-OnStrand (then r step) o = Step-OnStrand step (Reach-OnStrand r o)

    -- A bound handler has the executor that it was bound to, and a strand begins no handler while
    -- another of its handlers runs. Then on any number of threads, whatever the owner of a new
    -- connection calls and in whatever order the calls complete, every handler is bound to the
    -- executor of the connection, and at most one of them runs at a time.
    pub Reach-one_at_a_time :
        (t : Threads X H E W B P)
        → Reach (record { connection = connection asio x; running = [] }) t
        → All (λ p. asio.get_executor p.1 ≡ x) t.connection.in_flight
          × All (λ h. asio.get_executor h ≡ x) t.running
          × (length t.running ≤ 1)
    unfolding connection
    Reach-one_at_a_time t r =
        let o =
          Reach-OnStrand r
            (record { executor = refl; waiting = tt; running = tt; one = omega arith }) in
        (o.waiting, o.running, o.one)
