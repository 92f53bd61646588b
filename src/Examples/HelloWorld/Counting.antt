-- ===== src/Examples/HelloWorld/Counting.antt =====
-- The requests that examples/hello-world/main.cpp answers, one after another.
use Prim.Native.Nat.{◌%◌, ◌^◌}
use beast_router.Base.{
  ℕ, suc, ◌+◌, ◌<◌, ◌≡◌, refl, ◌∙◌, ap, sym, Bool, true, String, List, [], ◌∷◌, length, All, some,
  arith,
}
use mathlib.Core.Path.{subst}
use beast_router.Base.Outcome.{Outcome, done, ◌>>=◌}
use beast_router.Base.Dict.{string_eq, find, insert, insert_or_assign, modify}
use beast_router.Utility.{closure, void_type}
use beast_router.HttpUtility.{MessageOps}
use beast_router.Storage.{Handler, storage, on_message}
use beast_router.Storage.Laws.{begin_execute-storage}
use beast_router.Router.{
  Verb, get, Storage, MethodMap, register, register_all, add_resource, initial,
}
use beast_router.Router.Tables.{resources, register_all-initial-IsServer}
use beast_router.Dispatcher.{Env, process_request}
use beast_router.Dispatcher.Matching.{Compile, cons_hit, hit_lem, hits}
use beast_router.Dispatcher.Order.{hits-perm, perm-one}
use beast_router.Dispatcher.Requests.{IsWalk, process_request-hits}
use beast_router.Session.{Boost, send, run_task}
use beast_router.Session.Serving.{Served}
use beast_router.Examples.HelloWorld.{World, hello, on_index, routes, not_found_of}

module _ {Message File Ec C T Ctx Match Regex : Type 0} (b : Boost Message Ec C T)
    (ops : MessageOps Message Verb File Ec) (version : Message → ℕ) (keep_alive : Message → Bool)
    (set_keep_alive : Bool → Message → Message) (show : ℕ → String)
    (env : Env Message Ctx Match (World (Served Message Ec C T)) Regex) where
  abbrev pub table : MethodMap Message Ctx Match (World (Served Message Ec C T))
  table =
      register_all (routes ops version keep_alive set_keep_alive show b)
        (initial (not_found_of b ops version) true)

  -- Requests one after another.
  abbrev pub answer_all :
      List Message
      → World (Served Message Ec C T)
      → Outcome (World (Served Message Ec C T)) (World (Served Message Ec C T))
  answer_all [] w = done w
  answer_all (rq ∷ rqs) w = process_request env table rq w >>= answer_all rqs

  -- Greetings with the numbers after `count`.
  abbrev pub greet_all : (count : ℕ) → List Message → Served Message Ec C T → Served Message Ec C T
  greet_all count [] s = s
  greet_all count (rq ∷ rqs) s = greet_all (suc count) rqs (
      s
      >>= run_task b true (send (hello ops version keep_alive set_keep_alive show (suc count) rq)))

  abbrev handler : Handler Message Ctx Match (World (Served Message Ec C T))
  handler = record {
    callable = closure void_type;
    func = on_message (on_index ops version keep_alive set_keep_alive show b);
  }

  table-resources : resources get table ≡ ("^/$", storage (handler ∷ [])) ∷ []
  unfolding routes register_all register add_resource initial find insert insert_or_assign modify
  table-resources = refl

  -- A request for the page: a GET whose target the pattern matches.
  abbrev pub IsIndex : Regex → Message → Type 0
  IsIndex re rq =
      (env.method rq ≡ get) × (m : Match) × (env.regex_match (env.target rq) re ≡ some m)

  pub process_request-index :
      (re : Regex) (rq : Message) (w : World (Served Message Ec C T))
      → IsWalk env
      → env.regex "^/$" ≡ some re
      → IsIndex re rq
      → process_request env table rq w
        ≡ done (on_index ops version keep_alive set_keep_alive show {Ctx = Ctx} b rq env.fresh w).2
  process_request-index re rq w walk c (g, m, e) =
      let x : Storage Message Ctx Match (World (Served Message Ec C T)) × Match =
        (storage (handler ∷ []), m) in
      let found : resources (env.method rq) table ≡ ("^/$", storage (handler ∷ [])) ∷ [] =
        ap (λ v. resources v table) g ∙ table-resources in
      let compile : Compile env (("^/$", storage (handler ∷ [])) ∷ []) = ((re, c), tt) in
      let hit_one : hits env rq (resources (env.method rq) table) ≡ x ∷ [] =
        ap (hits env rq) found
        ∙ ap (λ o. cons_hit o []) (hit_lem env rq "^/$" (storage (handler ∷ [])) re (some m) c e) in
      let walked = perm-one x (hits-perm env rq (walk (resources (env.method rq) table))) hit_one in
      let answer =
        process_request-hits env walk table
          (register_all-initial-IsServer (not_found_of b ops version)
            (routes ops version keep_alive set_keep_alive show b))
          rq w (subst (Compile env) (sym found) compile) in
      answer.0
      ∙ rw (hit_one, walked)
          (ap (λ r. done r.2) (begin_execute-storage (handler ∷ []) rq env.fresh m w))

  -- The pattern compiles, and the walk over the resources visits each once. Requests for the page, one
  -- after another, are each answered with a greeting, and the greetings carry the numbers that follow
  -- the counter, none left out and none twice, as long as the counter stays below 2 ^ 64.
  pub answer_all-numbers :
      (re : Regex) (count : ℕ) (rqs : List Message) (s : Served Message Ec C T)
      → IsWalk env
      → env.regex "^/$" ≡ some re
      → All (IsIndex re) rqs
      → count + length rqs < 2 ^ 64
      → answer_all rqs (record { counter = count; session = s })
        ≡ done (record { counter = count + length rqs; session = greet_all count rqs s })
  unfolding on_index
  answer_all-numbers re count [] s walk c a h = ground arith
  answer_all-numbers re count (rq ∷ rqs) s walk c a h =
      let next : (count + 1) % 2 ^ 64 ≡ suc count = omega arith in
      let first =
        process_request-index re rq (record { counter = count; session = s }) walk c a.0 in
      let greeted =
        s
        >>= run_task b true
            (send (hello ops version keep_alive set_keep_alive show (suc count) rq)) in
      let rest = answer_all-numbers re (suc count) rqs greeted walk c a.1 (omega arith) in
      ap (λ o. o >>= answer_all rqs) first ∙ rw next (rest ∙ ground arith)
