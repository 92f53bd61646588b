-- ===== src/Tests/UnitTests.antt =====
-- The unit tests of the router, tests/tst_router.cpp, on the model of the router and the dispatcher.
-- Their patterns are plain words, which match themselves.
use Prim.Native.Nat.{bit_or, bit_and, ◌^◌}
use beast_router.Base.{
  ℕ, ◌≡◌, refl, Bool, true, false, String, List, [], ◌∷◌, none, some, ◌&&◌, ◌==◌, str_eq,
  if◌then◌else◌,
}
use beast_router.Base.Outcome.{Outcome, done, ◌>>=◌}
use beast_router.Base.Dict.{string_eq, find, insert, insert_or_assign, modify}
use beast_router.Dispatcher.{
  Env, dispatcher, do_process_request, process_request, for_each, handle_method, handle_unknown,
}
use beast_router.Router.{
  Verb, get, put, post, delete_, Registration, gets, puts, posts, deletes, not_founds, Store,
  Router, router, register, register_at, add_resource, initial, not_found_handler,
}
use beast_router.Session.Context.{Context, context, set_user_data, get_user_data}
use beast_router.Storage.{
  Handler, on_message, on_context, storage, begin_execute, callback_impl, entry_type,
}
use beast_router.Storage
use beast_router.Utility.{
  closure, void_type, bool_type, tuple_func_idx, index_sequence, func_traits_result,
}

-- The counters of the file, and whether every check has passed.
record Counters : Type 0 where
  num_single_requests : ℕ
  chained_request : ℕ
  passed : Bool

-- `make_empty_request`: a method and a target.
abbrev Request : Type 0
Request = Verb × String

abbrev check : Bool → Counters → Counters
check ok w = record w { passed = w.passed && ok }

-- The handlers that set the bit `n`, once.
abbrev sets : (n : ℕ) → Counters → Counters
sets n w =
    let w' = check (bit_and w.num_single_requests (2 ^ n) == 0) w in
    record w' { num_single_requests = bit_or w'.num_single_requests (2 ^ n) }

abbrev single : (n : ℕ) → Handler Request (Context ℕ) String Counters
single n = record {
  callable = closure void_type;
  func = on_message (λ msg ctx w. (true, ctx, sets n (check (str_eq msg.1 "single_request") w)));
}

abbrev not_found_test : Handler Request (Context ℕ) String Counters
not_found_test = record {
  callable = closure void_type;
  func = on_context (λ ctx w. (true, ctx, sets 4 w));
}

-- `unsigned` is the type 1.
abbrev chained_first : Handler Request (Context ℕ) String Counters
chained_first = record {
  callable = closure bool_type;
  func = on_message (λ msg ctx w. (
    true,
    set_user_data 1 1234567890 ctx,
    record w { chained_request = bit_or w.chained_request 1 },
  ));
}

abbrev has : ℕ → Context ℕ → Bool
has n ctx = elim (get_user_data 1 ctx) [ none ↦ false | some v ↦ v == n ]

abbrev chained_second : Handler Request (Context ℕ) String Counters
chained_second = record {
  callable = closure void_type;
  func = on_message (λ msg ctx w. (
    true,
    ctx,
    record (check (has 1234567890 ctx) w) { chained_request = bit_or w.chained_request (2 ^ 1) },
  ));
}

-- The connection of the tests is always open.
abbrev user_context : Handler Request (Context ℕ) String Counters
user_context = record {
  callable = closure void_type;
  func = on_message (λ msg ctx w. (true, ctx, check true w));
}

-- `send` of the tests' session does nothing.
abbrev send_nothing : Request → Context ℕ → Counters → Context ℕ × Counters
send_nothing rq ctx w = (ctx, w)

abbrev env : Env Request (Context ℕ) String Counters String
env = record {
  regex = λ p. some p;
  regex_match = λ t re. if str_eq t re then some t else none;
  no_match = "";
  iterate = λ es. es;
  target = λ rq. rq.1;
  method = λ rq. rq.0;
  fresh = context;
}

abbrev empty_store : Store Request (Context ℕ) String Counters
empty_store = record { method_map_at = λ p. []; next = 0 }

-- The globals `router` and `dispatcher`.
abbrev made : Router × Store Request (Context ℕ) String Counters
made = router send_nothing true empty_store

abbrev calls_of : List (Registration Request (Context ℕ) String Counters)
calls_of =
    gets "single_request" (single 0 ∷ [])
    ∷ puts "single_request" (single 1 ∷ [])
    ∷ posts "single_request" (single 2 ∷ [])
    ∷ deletes "single_request" (single 3 ∷ [])
    ∷ not_founds (not_found_test ∷ [])
    ∷ gets "chained_request" (chained_first ∷ chained_second ∷ [])
    ∷ gets "test_user_context" (user_context ∷ [])
    ∷ []

register_each :
    List (Registration Request (Context ℕ) String Counters)
    → Store Request (Context ℕ) String Counters
    → Store Request (Context ℕ) String Counters
register_each [] s = s
register_each (r ∷ rs) s = register_each rs (register_at made.0 r s)

setup_router : Store Request (Context ℕ) String Counters
unfolding register_each
setup_router = register_each calls_of made.1

serve_each :
    Store Request (Context ℕ) String Counters → List Request → Counters → Outcome Counters Counters
serve_each s [] w = done w
serve_each s (rq ∷ rqs) w =
    do_process_request env true (dispatcher made.0) s rq w >>= serve_each s rqs

abbrev unused : Counters
unused = record { num_single_requests = 0; chained_request = 0; passed = true }

abbrev test_user_context : Outcome Counters Counters
test_user_context = serve_each setup_router ((get, "test_user_context") ∷ []) unused

abbrev chained_router : Outcome Counters Counters
chained_router = serve_each setup_router ((get, "chained_request") ∷ []) unused

abbrev test_single_request : Outcome Counters Counters
test_single_request =
    serve_each setup_router
      ((get, "single_request")
        ∷ (put, "single_request")
        ∷ (post, "single_request")
        ∷ (delete_, "single_request")
        ∷ (get, "not_found")
        ∷ [])
      unused

abbrev empty_router : Outcome Counters Counters
empty_router = serve_each made.1 ((get, "not_found") ∷ []) unused

tests_pass :
    (test_user_context ≡ done unused)
    × (chained_router ≡ done (record unused { chained_request = 3 }))
    × (test_single_request ≡ done (record unused { num_single_requests = 31 }))
    × (empty_router ≡ done unused)
unfolding setup_router serve_each do_process_request process_request handle_method handle_unknown
    for_each find insert insert_or_assign modify register_at register add_resource initial
    dispatcher router begin_execute storage tuple_func_idx index_sequence Storage.call callback_impl
    entry_type func_traits_result context get_user_data set_user_data not_found_handler
tests_pass = (refl, refl, refl, refl)
