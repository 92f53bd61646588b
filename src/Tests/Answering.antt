-- ===== src/Tests/Answering.antt =====
-- A request that no resource matches, on a session.
use mathlib.Core.List.Permᴰ
use beast_router.Base.{
  arith, ℕ, ◌≡◌, refl, Bool, true, false, String, List, [], ◌∷◌, none, some, str_eq, if◌then◌else◌,
}
use beast_router.Base.Outcome.{done, ◌>>=◌}
use beast_router.Base.Dict.{find, insert, insert_or_assign, modify}
use beast_router.Connection.{Connection}
use beast_router.HttpUtility.{MessageOps}
use beast_router.Router.{
  Verb, get, Registration, gets, register, register_all, add_resource, initial,
}
use beast_router.Storage.{
  on_context, on_message, storage, callback_impl, begin_execute, call, entry_type,
}
use beast_router.ConnQueue.{push, do_handle}
use beast_router.Utility.{closure, void_type, tuple_func_idx, index_sequence, func_traits_result}
use beast_router.Dispatcher.{Env}
use beast_router.Session.{Impl, send, run_task, init_context, on_read, do_write, writes}
use beast_router.Timer.{cancel}
use beast_router.Session.Serving.{
  Served, serve, server_table, not_found_response, on_read-not_found, on_read-hits,
}
use beast_router.Tests.Data.{boost, opened, some_router}

-- A message is a number, and a response its body's 404.
abbrev ops : MessageOps ℕ Verb ℕ ℕ
ops = record {
  response = λ code version body. 404;
  request = λ verb version target. 0;
  set = λ field value m. m;
  prepare_payload = λ m. m;
  content_length = λ size m. m;
  open_ = λ name. (0, 0);
  size = λ file. 0;
  failed = λ ec. false;
}

abbrev S : Type 0
S = Served ℕ ℕ (Connection Bool) ℕ

abbrev env : Env ℕ ℕ String S String
env = record {
  regex = λ p. some p;
  regex_match = λ t re. if str_eq t re then some t else none;
  no_match = "";
  iterate = λ es. es;
  target = λ r. "/missing";
  method = λ r. get;
  fresh = 0;
}

abbrev version : ℕ → ℕ
version m = 11

abbrev calls : List (Registration ℕ ℕ String S)
calls =
    gets "/a"
      (record { callable = closure void_type; func = on_context (λ ctx w. (true, ctx, w)) } ∷ [])
    ∷ []

abbrev session : Impl ℕ ℕ (Connection Bool) ℕ
session = init_context boost opened some_router true

on_read-not_found_example :
    on_read boost
      (serve boost ops version env (server_table boost ops version env calls))
      0
      8
      session
    ≡ done (record session {
      m_queue = 404 ∷ [];
      m_serializer = some 404;
      started = writes 404 false ∷ [];
    })
unfolding init_context do_write not_found_response cancel register_all register add_resource initial
    find insert insert_or_assign modify
on_read-not_found_example =
    on_read-not_found boost ops version env calls 0 8 session (λ es. Permᴰ.refl es) refl
      (("/a", refl), tt) refl refl refl

-- The same for a target that is there, whose handler answers 7.
abbrev env_there : Env ℕ ℕ String S String
env_there = record env { target = λ r. "/a" }

abbrev answers : List (Registration ℕ ℕ String S)
answers =
    gets "/a" (
      record {
        callable = closure void_type;
        func = on_message (λ rq ctx w. (true, ctx, w >>= run_task boost true (send 7)));
      }
      ∷ [])
    ∷ []

on_read-hits_example :
    on_read boost
      (serve boost ops version env_there (server_table boost ops version env_there answers))
      0
      8
      session
    ≡ done
        (record session { m_queue = 7 ∷ []; m_serializer = some 7; started = writes 7 false ∷ [] })
unfolding init_context do_write cancel register_all register add_resource initial find insert
    insert_or_assign modify storage callback_impl begin_execute call run_task push do_handle
    tuple_func_idx index_sequence entry_type func_traits_result
on_read-hits_example =
    on_read-hits boost ops version env_there answers 0 8 session (λ es. Permᴰ.refl es)
      (("/a", refl), tt) (λ e. ground arith) refl
