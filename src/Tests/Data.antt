-- ===== src/Tests/Data.antt =====
-- The parameters of the model as small concrete functions, for the runs beside this file.
use beast_router.Base.{
  ℕ, Bool, true, false, String, List, [], ◌∷◌, ◌++◌, none, some, not, str_eq, ◌==◌, if◌then◌else◌,
}
use beast_router.Connection.{StreamOps, Connection, plain}
use beast_router.Timer.{AsioTimer}
use beast_router.Storage.{Handler, on_message}
use beast_router.Utility.{closure, bool_type}
use beast_router.Router.{Verb, Registration, gets, puts, Store, Router}
use beast_router.Dispatcher.{Env}
use beast_router.Session.{Boost}

-- Error codes: 0 success, 1 the end of the stream, 2 an abort, 3 a timeout, others.
abbrev pub is_failure : ℕ → Bool
is_failure ec = not (ec == 0)

-- A stream is open or not.
abbrev pub stream_ops : StreamOps Bool ℕ
stream_ops = record { shutdown = λ type s. (0, false); close = λ s. (0, false); is_open = λ s. s }

-- A timer is its expiry.
abbrev pub asio_timer : AsioTimer ℕ ℕ
asio_timer = record {
  make = λ e. e;
  time_point_max = 1000;
  expires_after = λ d t. (0, d);
  expiry = λ t. t;
  cancel = λ t. (none, t);
  async_wait = λ t. t;
  success = 0;
}

-- A message is a number; 9 needs the end of the stream.
abbrev pub boost : Boost ℕ ℕ (Connection Bool) ℕ
boost = record {
  connection = plain stream_ops;
  timer = asio_timer;
  failed = is_failure;
  is_end_of_stream = λ ec. ec == 1;
  is_operation_aborted = λ ec. ec == 2;
  timed_out = 3;
  need_eof = λ m. m == 9;
}

abbrev pub opened : Connection Bool
opened = record { m_stream = true }

abbrev pub some_router : Router
some_router = record { m_method_map = 0; m_mutex = 1 }

-- A request is its target and its method. A pattern matches itself; "(" does not compile.
abbrev pub Request : Type 0
Request = String × Verb

abbrev pub env : Env Request ℕ String (List ℕ) String
env = record {
  regex = λ p. if str_eq p "(" then none else some p;
  regex_match = λ t re. if str_eq t re then some t else none;
  no_match = "";
  iterate = λ es. es;
  target = λ r. r.0;
  method = λ r. r.1;
  fresh = 0;
}

-- A handler that notes its number and asks to break the chain.
abbrev pub notes : ℕ → Handler Request ℕ String (List ℕ)
notes n = record {
  callable = closure bool_type;
  func = on_message (λ r ctx w. (false, ctx, w ++ n ∷ []));
}

abbrev pub send_not_found : Request → ℕ → List ℕ → ℕ × List ℕ
send_not_found r ctx w = (ctx, w ++ 404 ∷ [])

abbrev pub calls : List (Registration Request ℕ String (List ℕ))
calls =
    gets "/a" (notes 1 ∷ notes 2 ∷ []) ∷ gets "/b" (notes 3 ∷ []) ∷ puts "/a" (notes 4 ∷ []) ∷ []

abbrev pub broken_calls : List (Registration Request ℕ String (List ℕ))
broken_calls = gets "/a" (notes 1 ∷ []) ∷ gets "(" (notes 3 ∷ []) ∷ []

abbrev pub store : Store Request ℕ String (List ℕ)
store = record { method_map_at = λ p. []; next = 0 }
