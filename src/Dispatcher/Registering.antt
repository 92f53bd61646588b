-- ===== src/Dispatcher/Registering.antt =====
-- Requests on two tables that were filled by different calls (include/beast_router/impl/router.ipp),
-- with the walk over the resources in any order (include/beast_router/base/dispatcher.hpp).
use beast_router.Base.{◌≡◌, true, String, List, All}
use beast_router.Router.{
  Verb, unknown, Storage, ResourceMap, MethodMap, Registration, register_all, initial,
}
use beast_router.Router.Tables.{resources, last_for, register_all-initial-IsServer}
use beast_router.Router.Routes.{
  register_all-HasPathsOnce, initial-HasPathsOnce, SameRoutes-perm, register_all-SameRoutes,
}
use beast_router.Dispatcher.{Env, process_request}
use beast_router.Dispatcher.Matching.{Compile, hits}
use beast_router.Dispatcher.Requests.{IsWalk}
use beast_router.Dispatcher.Commuting.{Commute, reordered, process_request-perm}

module _ {Message Context Match W : Type 0}
    (send_not_found : Message → Context → W → Context × W) where
  -- The table of a server after these calls.
  abbrev pub set_up :
      List (Registration Message Context Match W) → MethodMap Message Context Match W
  set_up rs = register_all rs (initial send_not_found true)

module _ {Message Context Match W Regex : Type 0} (env : Env Message Context Match W Regex)
    (other : ResourceMap Message Context Match W → ResourceMap Message Context Match W)
    (send_not_found : Message → Context → W → Context × W) where
  -- Two servers are set up by calls that agree on the last of them for each method and path, in
  -- whatever order and however often they register the rest. Then a request ends in the same way on
  -- both, under any two walks that visit each resource once, if the patterns of its method compile and
  -- the effects of the chains that match commute with one another.
  pub process_request-register_all :
      (P : Storage Message Context Match W × Match → Type 0)
      (rs qs : List (Registration Message Context Match W)) (request : Message) (w : W)
      → ((v : Verb) (p : String) → last_for v p rs ≡ last_for v p qs)
      → IsWalk env
      → IsWalk (reordered env other)
      → Compile env (resources (env.method request) (set_up send_not_found rs))
      → Commute env request P
      → All P (hits env request (resources (env.method request) (set_up send_not_found rs)))
      → process_request (reordered env other) (set_up send_not_found qs) request w
        ≡ process_request env (set_up send_not_found rs) request w
  process_request-register_all P rs qs request w agree walk walk' c commute a =
      let start = initial send_not_found true in
      let once = initial-HasPathsOnce Match send_not_found true in
      let same = register_all-SameRoutes rs qs start agree in
      process_request-perm env other P (set_up send_not_found rs) (set_up send_not_found qs) request
        w walk walk' (register_all-initial-IsServer send_not_found rs)
        (register_all-initial-IsServer send_not_found qs)
        (SameRoutes-perm (env.method request) _ _ (register_all-HasPathsOnce rs start once)
          (register_all-HasPathsOnce qs start once) same)
        (same unknown "") c commute a
