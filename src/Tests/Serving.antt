-- ===== src/Tests/Serving.antt =====
-- Files and threads.
use Prim.Native.String.{char_at}
use beast_router.Base.{
  some, arith, ℕ, suc, ◌≡◌, refl, Bool, true, false, String, if◌then◌else◌, str_eq, List, [], ◌∷◌,
  ◌++◌,
}
use beast_router.HttpUtility.{
  MessageOps, Status, ok, not_found, get_mime_type, create_response, make_file_response,
}
use beast_router.HttpUtility.Files.{make_file_response-between}
use beast_router.EventLoop.{
  IoContext, create, event_loop, create_threads, exec, stop, is_running, get_threads,
}
use beast_router.EventLoop.Threads.{exec-threads, create_threads-ends}
use beast_router.Tests.Data.{is_failure}

abbrev status_text : Status → String
status_text ok = "ok"
status_text not_found = "not_found"
status_text _ = "other"

-- A message is the list of what was done to it. Every file but "gone.png" opens.
abbrev message_ops : MessageOps (List String) ℕ String ℕ
message_ops = record {
  response = λ code version body. status_text code ∷ [];
  request = λ verb version target. target ∷ [];
  set = λ field value m. m ++ value ∷ [];
  prepare_payload = λ m. m;
  content_length = λ size m. m ++ "sized" ∷ [];
  open_ = λ name. (if str_eq name "gone.png" then 2 else 0, name);
  size = λ file. 7;
  failed = is_failure;
}

make_file_response-between_example :
    make_file_response message_ops 11 "pages.d/index.html"
    ≡ "ok" ∷ "sized" ∷ get_mime_type "html" ∷ []
unfolding create_response
make_file_response-between_example =
    make_file_response-between message_ops 11 "pages.d/index" "html" (char_at "." 0) refl refl

-- A context that is stopped or not. Its loop ends by the signal 5.
abbrev pub io_context : IoContext Bool ℕ ℕ
io_context = record {
  make = false;
  wait = λ c. c;
  run = λ c. (some 5, c);
  stop = λ c. true;
  stopped = λ c. c;
  value = λ ec. ec;
  success = 0;
}

exec-threads_example :
    let (code, l) = exec io_context (create io_context 4) in
    (suc l.m_threads ≡ 4)
    × (code ≡ 5)
    × (is_running io_context l ≡ false)
    × (is_running io_context (stop io_context l) ≡ false)
    × ((stop io_context l).joined ≡ l.m_threads)
    × (get_threads l ≡ 4)
exec-threads_example = exec-threads io_context 4 (omega arith) (λ c. refl)

create_threads-ends_example :
    create_threads 3 1 (event_loop io_context 4) ≡ create_threads 7 1 (event_loop io_context 4)
unfolding event_loop
create_threads-ends_example =
    create_threads-ends 3 7 1 (event_loop io_context 4) (omega arith) (omega arith) (omega arith)
