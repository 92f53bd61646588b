-- ===== src/Dispatcher/Assuming.antt =====
-- `ROUTER_ASSUME` (include/beast_router/base/config.hpp), with which the dispatcher promises the
-- compiler that the table has an entry for what is not found.
use beast_router.Base.{◌≡◌, Bool, true, false, Option, none, some, arith}
use beast_router.Base.Outcome.{Outcome, done, undefined, ◌>>=◌}
use beast_router.Base.Dict.{string_eq, find}
use beast_router.Dispatcher.{Env, handle_unknown}
use beast_router.Router.{unknown, verb_eq, MethodMap}
use beast_router.Storage.{begin_execute}

pub data Compiler : Type 0 where
  gcc other : Compiler

-- The iterator is not `cend()`.
abbrev is_found : {A : Type 0} → Option A → Bool
is_found none = false
is_found (some a) = true

module _ {W : Type 0} where
  -- The macro. Only GCC is told that what is behind a false condition is not reached.
  unfoldable pub router_assume : Compiler → (cond : Bool) → Outcome (Unit {0}) W
  router_assume gcc true = done tt
  router_assume gcc false = undefined
  router_assume other cond = done tt

  -- To dereference `cend()` is undefined.
  abbrev dereference : {A : Type 0} → Option A → Outcome A W
  dereference none = undefined
  dereference (some a) = done a

module _ {Message Context Match W Regex : Type 0} (env : Env Message Context Match W Regex) where
  -- The part of `do_process_request` for what is not found, with the macro.
  unfoldable pub handle_not_found :
      Compiler → MethodMap Message Context Match W → Message → W → Outcome W W
  unfolding router_assume
  handle_not_found compiler m request w = do
    let not_found = find unknown m
    _ ← router_assume compiler (is_found not_found)
    resource_map ← dereference not_found
    elim (find "" resource_map) [
      | none ↦ done w
      | some st ↦ let (_, _, w') = begin_execute st request env.fresh env.no_match w in done w'
    ]

  -- What the macro adds changes nothing, with either kind of compiler: where it is undefined, so is the
  -- dereferencing behind it.
  pub handle_not_found-handle_unknown :
      (compiler : Compiler) (m : MethodMap Message Context Match W) (request : Message) (w : W)
      → handle_not_found compiler m request w ≡ handle_unknown env m request w
  unfolding handle_not_found handle_unknown
  handle_not_found-handle_unknown gcc m request w = ground arith
  handle_not_found-handle_unknown other m request w = ground arith
