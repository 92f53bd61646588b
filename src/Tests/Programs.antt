-- ===== src/Tests/Programs.antt =====
-- Runs of the programs in examples/.
use mathlib.Core.List.Permᴰ
use beast_router.Base.{
  ℕ, suc, ◌≡◌, ◌≢◌, refl, Bool, true, false, String, [], ◌∷◌, ◌++◌, Option, none, some, str_eq,
  ◌==◌, if◌then◌else◌, arith, ◌⊎◌,
}
use beast_router.Base.Outcome.{done, ◌>>=◌}
use beast_router.Connection.{Connection, plain}
use beast_router.ConnQueue.{push, do_handle}
use beast_router.Timer.{AsioTimer, cancel, async_wait, expires_from_now}
use beast_router.HttpUtility.{
  MessageOps, Status, ok, bad_request, not_found, other_status, make_string_response,
  make_file_response, create_response,
}
use beast_router.Router.{Verb, get}
use beast_router.Dispatcher.{Env}
use beast_router.Session.{
  Boost, Impl, recv_for, handshakes, handshake_done, init_context, run_task, on_read, on_write,
  do_write, writes, waits, reads,
}
use beast_router.Session.Serving.{Served, serve}
use beast_router.Session.Context.{drain}
use beast_router.Examples.TimeCounter.{serve_file, accept_socket}
use beast_router.Examples.TimeCounter.Targets.{Legal, starts_with_slash, has_dots}
use beast_router.Examples.TimeCounter.Files.{serve_file-Legal}
use beast_router.Examples.TimeCounter.Pages.{Page, files, index, clock, pattern, table}
use beast_router.Examples.HelloWorld.{World, hello, serve_counting, ssl_accept_socket}
use beast_router.Examples.HelloWorld.Counting
use beast_router.Examples.HelloWorld.Connections.{ssl_accept_socket-greets}
use beast_router.Examples.HelloWorld.Counting.{answer_all, answer_all-numbers}
use beast_router.Examples.Client.{request, on_connect}
use beast_router.Examples.Client.Waiting.{on_connect-unbounded}
use beast_router.Examples.TimeCounter.Connections.{accept_socket-serves_one}
use beast_router.Tests.Data.{stream_ops, opened, some_router, is_failure}

-- A message is its status. No file opens but "/doc/a.js".
abbrev pub ops : MessageOps Status Verb ℕ ℕ
ops = record {
  response = λ code version body. code;
  request = λ verb version target. other_status 1;
  set = λ field value m. m;
  prepare_payload = λ m. m;
  content_length = λ size m. m;
  open_ = λ name. (if str_eq name "/doc/a.js" then 0 else 2, 0);
  size = λ file. 7;
  failed = is_failure;
}

-- A timer counts its waits.
abbrev pub asio_timer : AsioTimer ℕ ℕ
asio_timer = record {
  make = λ e. 0;
  time_point_max = 1000;
  expires_after = λ d t. (0, 0);
  expiry = λ t. t;
  cancel = λ t. (none, 0);
  async_wait = λ t. suc t;
  success = 0;
}

abbrev pub boost : Boost Status ℕ (Connection Bool) ℕ
boost = record {
  connection = plain stream_ops;
  timer = asio_timer;
  failed = is_failure;
  is_end_of_stream = λ ec. ec == 1;
  is_operation_aborted = λ ec. ec == 2;
  timed_out = 3;
  need_eof = λ m. false;
}

abbrev pub version : Status → ℕ
version m = 11

abbrev pub rq : Status
rq = other_status 0

-- A target with two dots is answered with 400, also where there is such a file.
serve_file-Legal_example :
    (Legal "/../a.js" × (serve_file ops version (λ m. m) (λ m. "/../a.js") "/doc" rq ≡ not_found))
    ⊎ ((¬ Legal "/../a.js")
        × (serve_file ops version (λ m. m) (λ m. "/../a.js") "/doc" rq ≡ bad_request))
unfolding make_string_response create_response
serve_file-Legal_example =
    serve_file-Legal ops version (λ m. m) (λ m. "/../a.js") "/doc" (λ code v body. refl)
      (λ field value m. refl) (λ size m. refl) rq

-- A pattern of the time counter matches its own page: "/a.js", "/" and "/update".
abbrev pub match_page : String → String → Option String
match_page t re =
    if str_eq re "^.*\\.(js|html|css)$"
    then if str_eq t "/a.js" then some t else none
    else if str_eq re "^/$"
    then if str_eq t "/" then some t else none
    else if str_eq t "/update"
    then some t
    else none

module _ (W : Type 0) where
  -- Every request is a GET for the same target.
  abbrev pub env : (place : String) → Env Status ℕ String W String
  env place = record {
    regex = λ p. some p;
    regex_match = match_page;
    no_match = "";
    iterate = λ es. es;
    target = λ r. place;
    method = λ r. get;
    fresh = 0;
  }

abbrev S : Type 0
S = Served Status ℕ (Connection Bool) ℕ

abbrev session : Impl Status ℕ (Connection Bool) ℕ
session = init_context boost opened some_router true

abbrev no_others : (q : Page) → q ≢ files → match_page "/a.js" (pattern q) ≡ none
no_others files h = absurd (h refl)
no_others index h = refl
no_others clock h = refl

accept_socket-serves_one_example :
    (i : Impl Status ℕ (Connection Bool) ℕ) × (j : Impl Status ℕ (Connection Bool) ℕ) × (k : Impl
      Status ℕ
      (Connection Bool)
      ℕ)
    × ((accept_socket boost 1 true opened some_router true >>= drain boost true)
        ≡ done (record { impl = i; tasks = [] }))
    × (i.started ≡ waits ∷ reads ∷ [])
    × (on_read boost
          (serve boost ops version
            (env S "/a.js")
            (table boost ops version (λ m. m) "/doc" (env S "/a.js") "now"))
          0
          rq
          i
        ≡ done j)
    × (j.started ≡ i.started ++ writes ok false ∷ [])
    × (on_write boost 0 false j ≡ done k)
    × (k.started ≡ j.started)
    × (k.m_queue ≡ [])
    × (k.reports ≡ [])
unfolding serve_file make_file_response create_response starts_with_slash has_dots
accept_socket-serves_one_example =
    accept_socket-serves_one boost ops version (λ m. m) "/doc" (env S "/a.js") "now" true 1 opened
      some_router true pattern files rq "/a.js" 0 0 (λ es. Permᴰ.refl es) (λ q. refl) refl refl
      no_others refl refl refl refl refl

-- Two requests, with the counter at 5.
answer_all-numbers_example :
    answer_all boost ops version
      (λ m. true)
      (λ k m. m)
      (λ n. "7")
      (env (World S) "/")
      (rq ∷ rq ∷ [])
      (record { counter = 5; session = done session })
    ≡ done (record {
      counter = 7;
      session = done (record session {
        m_queue = ok ∷ ok ∷ [];
        m_serializer = some ok;
        started = writes ok false ∷ [];
      });
    })
unfolding init_context do_write run_task push do_handle hello make_string_response create_response
answer_all-numbers_example =
    answer_all-numbers boost ops version (λ m. true) (λ k m. m) (λ n. "7") (env (World S) "/") "^/$"
      5 (rq ∷ rq ∷ []) (done session) (λ es. Permᴰ.refl es) refl
      ((refl, "/", refl), ((refl, "/", refl), tt)) (omega arith)

on_connect-unbounded_example :
    (j : Impl Status ℕ (Connection Bool) ℕ) × (k : Impl Status ℕ (Connection Bool) ℕ) × ((on_connect
          ops boost 1 true opened some_router
        >>= drain boost false)
      ≡ done (record { impl = j; tasks = [] }))
    × (j.started ≡ waits ∷ writes (request ops) false ∷ waits ∷ reads ∷ [])
    × (j.m_timer ≡ 1)
    × (on_write boost 0 false j ≡ done k)
    × (k.started ≡ j.started)
    × (k.m_timer ≡ 0)
unfolding request async_wait expires_from_now cancel
on_connect-unbounded_example =
    on_connect-unbounded ops boost (λ t. t) true 1 opened some_router 0 (λ t. refl) (λ d t. refl)
      (λ t. refl) refl refl refl

ssl_accept_socket-greets_example :
    (i : Impl Status ℕ (Connection Bool) ℕ) × (j : Impl Status ℕ (Connection Bool) ℕ) × (k : Impl
      Status ℕ
      (Connection Bool)
      ℕ)
    × (l : Impl Status ℕ (Connection Bool) ℕ) × ((ssl_accept_socket boost 1 true opened some_router
            true
          >>= drain boost true)
        ≡ done (record { impl = i; tasks = [] }))
    × (i.started ≡ handshakes true (recv_for 1) ∷ [])
    × (handshake_done boost true 0 (recv_for 1) i ≡ done j)
    × (j.started ≡ i.started ++ waits ∷ reads ∷ [])
    × (on_read boost
          (serve_counting
            (env (World S) "/")
            (Counting.table boost ops version (λ m. true) (λ k m. m) (λ n. "7") (env (World S) "/"))
            5)
          0
          rq
          j
        ≡ done k)
    × (k.started ≡ j.started ++ writes ok false ∷ [])
    × (on_write boost 0 false k ≡ done l)
    × (l.started ≡ k.started)
    × (l.m_queue ≡ [])
    × (l.reports ≡ [])
unfolding hello make_string_response create_response
ssl_accept_socket-greets_example =
    ssl_accept_socket-greets boost ops version (λ m. true) (λ k m. m) (λ n. "7") (env (World S) "/")
      true 1 opened some_router true "^/$" 5 rq 0 0 0 (λ es. Permᴰ.refl es) refl (refl, "/", refl)
      (omega arith) refl refl refl refl refl refl refl
