-- ===== src/Dispatcher.antt =====
-- include/beast_router/base/dispatcher.hpp: a message is handed to the chains of the resources that
-- match its target.
pub mod Assuming
pub mod Matching
pub mod Order
pub mod Requests
pub mod Sharing
pub mod Commuting
pub mod Registering
use beast_router.Base.{
  ℕ, Bool, true, false, String, List, [], ◌∷◌, Option, none, some, if◌then◌else◌,
}
use beast_router.Base.Outcome.{Outcome, done, threw, undefined, ◌>>=◌, bind-ne-undefined}
use beast_router.Base.Dict.{string_eq, find}
use beast_router.Storage.{begin_execute}
use beast_router.Router.{
  Verb, unknown, verb_eq, Storage, ResourceMap, MethodMap, Store, Router, get_mutex_pointer,
  get_resource_map,
}

-- What stands outside the repository: `regex` compiles a pattern (`none`: it throws
-- `std::regex_error`), `regex_match` matches a whole target, `no_match` is the empty `std::smatch`,
-- `iterate` puts a resource map into the order in which `std::unordered_map` is walked, and `target`
-- and `method` read the message. `fresh` is `context_type { impl }`.
pub record Env (Message Context Match W Regex : Type 0) : Type 0 where
  pub regex : String → Option Regex
  pub regex_match : String → Regex → Option Match
  pub no_match : Match
  pub iterate : ResourceMap Message Context Match W → ResourceMap Message Context Match W
  pub target : Message → String
  pub method : Message → Verb
  pub fresh : Context

pub record Dispatcher : Type 0 where
  pub m_method_map : ℕ
  pub m_mutex : ℕ

-- The constructor copies the router's pointers.
unfoldable pub dispatcher : Router → Dispatcher
unfolding get_resource_map get_mutex_pointer
dispatcher r = record { m_method_map = get_resource_map r; m_mutex = get_mutex_pointer r }

module _ {Message Context Match W Regex : Type 0} (env : Env Message Context Match W Regex) where
  -- The lambda of `std::for_each` over the resources; `is_handled` is what it captures.
  unfoldable pub for_each :
      Message → ResourceMap Message Context Match W → Bool → W → Outcome (Bool × W) W
  for_each request [] is_handled w = done (is_handled, w)
  for_each request ((path, st) ∷ rest) is_handled w = elim (env.regex path) [
    | none ↦ threw w
    | some re ↦ elim (env.regex_match (env.target request) re) [
      | none ↦ for_each request rest is_handled w
      | some base_match ↦
          let (executed, _, w') = begin_execute st request env.fresh base_match w in
          for_each request rest (if executed then true else is_handled) w'
    ]
  ]

  -- `find(method)` and, if it is there, the loop.
  unfoldable pub handle_method :
      MethodMap Message Context Match W → Message → W → Outcome (Bool × W) W
  handle_method m request w = elim (find (env.method request) m) [
    | none ↦ done (false, w)
    | some resource_map ↦ for_each request (env.iterate resource_map) false w
  ]

  -- The chain at the method `unknown` and the path "". To go on from `cend()` is undefined.
  unfoldable pub handle_unknown : MethodMap Message Context Match W → Message → W → Outcome W W
  handle_unknown m request w = elim (find unknown m) [
    | none ↦ undefined
    | some resource_map ↦ elim (find "" resource_map) [
      | none ↦ done w
      | some st ↦ let (_, _, w') = begin_execute st request env.fresh env.no_match w in done w'
    ]
  ]

  -- `do_process_request` of a server.
  unfoldable pub process_request : MethodMap Message Context Match W → Message → W → Outcome W W
  process_request m request w = do
    (is_handled, w') ← handle_method m request w
    if is_handled then done w' else handle_unknown m request w'

  -- `do_process_request` of a client.
  unfoldable pub process_response : MethodMap Message Context Match W → Message → W → Outcome W W
  process_response m response w = handle_unknown m response w

  -- The call through a dispatcher, which follows its pointer.
  unfoldable pub do_process_request :
      (is_request : Bool) → Dispatcher → Store Message Context Match W → Message → W → Outcome W W
  do_process_request true d s message w = process_request (s.method_map_at d.m_method_map) message w
  do_process_request false d s message w =
      process_response (s.method_map_at d.m_method_map) message w
