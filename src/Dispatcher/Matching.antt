-- ===== src/Dispatcher/Matching.antt =====
-- The loop of the dispatcher (include/beast_router/base/dispatcher.hpp) against a description of it:
-- the chains that match, in the order of the walk, and their effects in turn.
use beast_router.Base.{
  ◌≡◌, refl, Bool, true, false, ◌||◌, String, List, [], ◌∷◌, ◌++◌, Option, none, some, arith,
  if◌then◌else◌, Option-cases, inl, inr, ◌≢◌,
}
use mathlib.Core.Option
use beast_router.Base.Outcome.{done, threw, undefined}
use beast_router.Base.Dict.{string_eq, AllValues}
use beast_router.Storage.{begin_execute}
use beast_router.Storage.Laws.{IsBuilt, begin_execute-IsBuilt}
use beast_router.Router.{Storage, ResourceMap}
use beast_router.Dispatcher.{Env, for_each}

module _ {A : Type 0} where
  abbrev pub cons_hit : Option A → List A → List A
  cons_hit none hs = hs
  cons_hit (some h) hs = h ∷ hs

  abbrev pub is_nonempty : List A → Bool
  is_nonempty [] = false
  is_nonempty (h ∷ hs) = true

module _ {Message Context Match W Regex : Type 0} (env : Env Message Context Match W Regex) where
  -- The patterns of a resource map compile.
  abbrev pub Compile : ResourceMap Message Context Match W → Type 0
  Compile [] = Unit
  Compile ((path, st) ∷ es) = ((re : Regex) × (env.regex path ≡ some re)) × Compile es

module _ {Message Context Match W Regex : Type 0} (env : Env Message Context Match W Regex)
    (request : Message) where
  -- The chain of a resource with the match of its pattern, if the pattern compiles and matches.
  abbrev pub hit :
      String × Storage Message Context Match W → Option (Storage Message Context Match W × Match)
  hit (path, st) = elim (env.regex path) [
    | none ↦ none
    | some re ↦ elim (env.regex_match (env.target request) re) [
      | none ↦ none
      | some base_match ↦ some (st, base_match)
    ]
  ]

  -- A pattern that compiles is a hit just where it matches.
  pub hit_lem :
      (path : String) (st : Storage Message Context Match W) (re : Regex) (o : Option Match)
      → env.regex path ≡ some re
      → env.regex_match (env.target request) re ≡ o
      → hit (path, st) ≡ Option.map (λ m. (st, m)) o
  hit_lem path st re none c e = ground arith
  hit_lem path st re (some m) c e = ground arith

  abbrev pub hits :
      ResourceMap Message Context Match W → List (Storage Message Context Match W × Match)
  hits [] = []
  hits (e ∷ es) = cons_hit (hit e) (hits es)

  -- The effects of the chains in turn, each with a context of its own.
  abbrev pub run_hits : List (Storage Message Context Match W × Match) → W → W
  run_hits [] w = w
  run_hits ((st, base_match) ∷ hs) w =
      run_hits hs (begin_execute st request env.fresh base_match w).2

  pub for_each-hits :
      (es : ResourceMap Message Context Match W) (is_handled : Bool) (w : W)
      → Compile env es
      → AllValues IsBuilt es
      → for_each env request es is_handled w
        ≡ done (is_nonempty (hits es) || is_handled, run_hits (hits es) w)
  unfolding for_each
  for_each-hits [] is_handled w c b = refl
  for_each-hits ((path, st) ∷ es) is_handled w ((re, e), c) b =
      elim (Option-cases (env.regex_match (env.target request) re)) [
        | inl miss ↦ ground (arith, for_each-hits es is_handled w c b.1)
        | inr (base_match, found) ↦
            let w' = (begin_execute st request env.fresh base_match w).2 in
            ground (
              arith,
              for_each-hits es true w' c b.1,
              begin_execute-IsBuilt st request env.fresh base_match w b.0,
            )
      ]

  pub run_hits-empty :
      (hs : List (Storage Message Context Match W × Match)) (w : W)
      → is_nonempty hs ≡ false
      → run_hits hs w ≡ w
  run_hits-empty [] w e = refl
  run_hits-empty (h ∷ hs) w e = cc

  -- A pattern that does not compile ends the loop with an exception, after the effects of the
  -- resources in front of it.
  pub for_each-throws :
      (front rest : ResourceMap Message Context Match W) (path : String)
      (st : Storage Message Context Match W) (is_handled : Bool) (w : W)
      → Compile env front
      → env.regex path ≡ none
      → for_each env request (front ++ (path, st) ∷ rest) is_handled w
        ≡ threw (run_hits (hits front) w)
  unfolding for_each
  for_each-throws [] rest path st is_handled w c e = ground arith
  for_each-throws ((p, t) ∷ front) rest path st is_handled w ((re, compiled), c) e =
      elim (Option-cases (env.regex_match (env.target request) re)) [
        | inl miss ↦ ground (arith, for_each-throws front rest path st is_handled w c e)
        | inr (base_match, found) ↦
            let (executed, _, w') = begin_execute t request env.fresh base_match w in
            ground (
              arith,
              for_each-throws front rest path st (if executed then true else is_handled) w' c e,
            )
      ]

  -- No walk over the resources ends in undefined behaviour.
  pub for_each-ne-undefined :
      (es : ResourceMap Message Context Match W) (is_handled : Bool) (w : W)
      → for_each env request es is_handled w ≢ undefined
  unfolding for_each
  for_each-ne-undefined [] is_handled w = ground arith
  for_each-ne-undefined ((path, st) ∷ es) is_handled w = elim (Option-cases (env.regex path)) [
    | inl e ↦ ground arith
    | inr (re, e) ↦ elim (Option-cases (env.regex_match (env.target request) re)) [
      | inl miss ↦ ground (arith, for_each-ne-undefined es is_handled w)
      | inr (base_match, found) ↦
          let (executed, _, w') = begin_execute st request env.fresh base_match w in
          ground (arith, for_each-ne-undefined es (if executed then true else is_handled) w')
    ]
  ]
