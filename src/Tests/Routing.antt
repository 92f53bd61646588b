-- ===== src/Tests/Routing.antt =====
-- Routing: a server with four handlers and one with a pattern that does not compile.
use mathlib.Core.List.{Permᴰ}
use mathlib.Core.List.Permᴰ
use beast_router.Base.{ℕ, ◌≡◌, ◌≢◌, ◌⊎◌, refl, true, false, String, List, [], ◌∷◌, none, some}
use beast_router.Base.Outcome.{done, threw, undefined}
use beast_router.Base.Dict.{string_eq, find, insert, insert_or_assign, modify}
use beast_router.Storage.{Callback, begin_execute, storage, callback_impl, call, entry_type}
use beast_router.Utility.{func_traits_result, tuple_func_idx, index_sequence}
use beast_router.Storage.Laws.{begin_execute-storage}
use beast_router.Router.{
  Verb, get, unknown, verb_eq, handles_response, register, register_all, add_resource, initial,
}
use beast_router.Router.Tables.{
  resources, registered, registered-register_all, register_all-initial-IsServer,
}
use beast_router.Dispatcher.{for_each, handle_method, process_request, process_response}
use beast_router.Dispatcher.Matching.{hits}
use beast_router.Dispatcher.Requests.{
  process_request-hits, process_request-ne-undefined, process_request-throws,
  process_response-client, run_unknown,
}
use beast_router.Tests.Data.{Request, env, notes, send_not_found, calls, broken_calls}

abbrev table : List (Verb × List (String × List (Callback Request ℕ String (List ℕ))))
table = register_all calls (initial send_not_found true)

abbrev broken : List (Verb × List (String × List (Callback Request ℕ String (List ℕ))))
broken = register_all broken_calls (initial send_not_found true)

-- Both handlers of "/a" run, though the first returns false.
process_request-hits_example :
    (process_request env table ("/a", get) [] ≡ done (1 ∷ 2 ∷ []))
    × Permᴰ
        (hits env ("/a", get) (resources get table))
        (hits env ("/a", get) (resources get table))
unfolding process_request handle_method for_each begin_execute call storage callback_impl entry_type
    func_traits_result tuple_func_idx index_sequence register_all register add_resource initial find
    insert insert_or_assign modify
process_request-hits_example =
    process_request-hits env (λ es. Permᴰ.refl es) table
      (register_all-initial-IsServer send_not_found calls) ("/a", get) []
      (("/a", refl), (("/b", refl), tt))

process_request-ne-undefined_example : process_request env broken ("(", get) [] ≢ undefined
process_request-ne-undefined_example =
    process_request-ne-undefined env send_not_found broken_calls ("(", get) []

-- The request is for "/a", and the pattern of the other resource is broken.
process_request-throws_example : process_request env broken ("/a", get) [] ≡ threw (1 ∷ [])
unfolding process_request handle_method for_each begin_execute call storage callback_impl entry_type
    func_traits_result tuple_func_idx index_sequence register_all register add_resource initial find
    insert insert_or_assign modify
process_request-throws_example =
    process_request-throws env broken ("/a", get) [] (("/a", storage (notes 1 ∷ [])) ∷ []) [] "("
      (storage (notes 3 ∷ [])) refl (λ e. cc) (("/a", refl), tt) refl

process_response-client_example :
    ((handles_response (notes 5 ∷ []) ∷ [] ≡ [])
      × (process_response env
            (register_all (handles_response (notes 5 ∷ []) ∷ []) (initial send_not_found false))
            ("/a", get)
            []
          ≡ undefined))
    ⊎ ((registered unknown ""
            (register_all (handles_response (notes 5 ∷ []) ∷ []) (initial send_not_found false))
          ≢ none)
        × (process_response env
              (register_all (handles_response (notes 5 ∷ []) ∷ []) (initial send_not_found false))
              ("/a", get)
              []
            ≡ done (
                run_unknown env
                  (register_all
                    (handles_response (notes 5 ∷ []) ∷ [])
                    (initial send_not_found false))
                  ("/a", get)
                  [])))
process_response-client_example =
    process_response-client env send_not_found (handles_response (notes 5 ∷ []) ∷ []) ("/a", get) []
      (refl, tt)

registered-register_all_example :
    registered get "/b" (register_all calls (initial send_not_found true))
    ≡ some (storage (notes 3 ∷ []))
registered-register_all_example =
    registered-register_all calls get "/b" (initial send_not_found true)

-- Two handlers, the first of which asks to break the chain.
begin_execute-storage_example :
    begin_execute (storage (notes 1 ∷ notes 2 ∷ [])) ("/a", get) 0 "/a" [] ≡ (true, 0, 1 ∷ 2 ∷ [])
begin_execute-storage_example = begin_execute-storage (notes 1 ∷ notes 2 ∷ []) ("/a", get) 0 "/a" []
