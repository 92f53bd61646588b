-- ===== src/Tests/Reordering.antt =====
-- Two resources that both match, walked in both orders, with handlers that add to a number.
use mathlib.Core.List.{Permᴰ}
use mathlib.Core.List.Permᴰ
use beast_router.Base.{ℕ, ◌+◌, ◌≡◌, refl, true, String, List, [], ◌∷◌, some, arith, eq_iff}
use beast_router.Base.Dict.{find, insert, insert_or_assign, modify}
use beast_router.Utility.{closure, void_type, tuple_func_idx, index_sequence, func_traits_result}
use beast_router.Storage.{
  Handler, on_context, begin_execute, call, callback_impl, entry_type, storage,
}
use beast_router.Router.{
  Verb, get, Storage, ResourceMap, Registration, gets, register, register_all, add_resource,
  initial,
}
use beast_router.Router.Tables.{last_for}
use beast_router.Dispatcher.{Env, process_request}
use beast_router.Dispatcher.Requests.{IsWalk}
use beast_router.Dispatcher.Commuting.{run_hit, Commute, reordered}
use beast_router.Dispatcher.Registering.{set_up, process_request-register_all}

abbrev env : Env String ℕ String ℕ String
env = record {
  regex = λ p. some p;
  regex_match = λ t re. some re;
  no_match = "";
  iterate = λ es. es;
  target = λ r. r;
  method = λ r. get;
  fresh = 0;
}

abbrev adds : ℕ → Handler String ℕ String ℕ
adds n = record { callable = closure void_type; func = on_context (λ ctx w. (true, ctx, w + n)) }

abbrev calls : List (Registration String ℕ String ℕ)
calls = gets "/a" (adds 1 ∷ []) ∷ gets "/b" (adds 2 ∷ []) ∷ []

abbrev send_nothing : String → ℕ → ℕ → ℕ × ℕ
send_nothing r ctx w = (ctx, w)

abbrev swapped : ResourceMap String ℕ String ℕ → ResourceMap String ℕ String ℕ
swapped [] = []
swapped (x ∷ []) = x ∷ []
swapped (x ∷ y ∷ es) = y ∷ x ∷ es

swapped-IsWalk : IsWalk (reordered env swapped)
swapped-IsWalk [] = Permᴰ.nil
swapped-IsWalk (x ∷ []) = Permᴰ.refl (x ∷ [])
swapped-IsWalk (x ∷ y ∷ es) = Permᴰ.swap refl refl

-- The chains that add a number.
abbrev Adds : Storage String ℕ String ℕ × String → Type 0
Adds h = (n : ℕ) × ((w : ℕ) → run_hit env "/x" h w ≡ w + n)

Adds-Commute : Commute env "/x" Adds
Adds-Commute h g w (m, hm) (n, hn) =
    omega (arith, hm (run_hit env "/x" g w), hn w, hn (run_hit env "/x" h w), hm w)

-- Other calls that leave the same routes.
abbrev more_calls : List (Registration String ℕ String ℕ)
more_calls = gets "/b" (adds 7 ∷ []) ∷ gets "/a" (adds 1 ∷ []) ∷ gets "/b" (adds 2 ∷ []) ∷ []

calls-agree : (v : Verb) (p : String) → last_for v p calls ≡ last_for v p more_calls
calls-agree v p = ground (arith, eq_iff "/a" p, eq_iff "/b" p, eq_iff "/a" "/b")

process_request-register_all_example :
    process_request (reordered env swapped) (set_up send_nothing more_calls) "/x" 5
    ≡ process_request env (set_up send_nothing calls) "/x" 5
unfolding register_all register add_resource initial find insert insert_or_assign modify
    begin_execute call storage callback_impl entry_type tuple_func_idx index_sequence
    func_traits_result
process_request-register_all_example =
    process_request-register_all env swapped send_nothing Adds calls more_calls "/x" 5 calls-agree
      (λ es. Permᴰ.refl es) swapped-IsWalk (("/a", refl), (("/b", refl), tt)) Adds-Commute
      ((1, λ w. refl), ((2, λ w. refl), tt))
