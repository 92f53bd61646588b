-- ===== src/Dispatcher/Requests.antt =====
-- What the dispatcher (include/beast_router/base/dispatcher.hpp) makes of a message, on a server and
-- on a client.
use mathlib.Core.List.{Permᴰ}
use beast_router.Base.{
  ◌≡◌, ◌≢◌, refl, sym, ◌∙◌, true, false, String, List, [], ◌∷◌, ◌++◌, none, some, arith,
  if◌then◌else◌, Option-cases, inl, inr, All, ◌⊎◌,
}
use beast_router.Base.Outcome.{done, threw, undefined, bind-ne-undefined}
use beast_router.Base.Dict.{string_eq, find, find-nil, AllValues, find-AllValues}
use beast_router.Storage.{begin_execute}
use beast_router.Storage.Laws.{IsBuilt}
use beast_router.Router.{
  unknown, verb_eq, Storage, ResourceMap, MethodMap, Registration, register, register_all,
  is_enabled, initial, gets, handles_response,
}
use beast_router.Router.Tables.{
  resources, registered, IsServer, register_all-initial-IsServer, register_all-fallback,
  handles_response-fallback,
}
use beast_router.Dispatcher.{Env, handle_method, handle_unknown, process_request, process_response}
use beast_router.Dispatcher.Matching.{
  is_nonempty, Compile, hits, run_hits, run_hits-empty, for_each-hits, for_each-throws,
  for_each-ne-undefined,
}
use beast_router.Dispatcher.Order.{AllValues-perm, hits-perm, is_nonempty-perm, Compile-perm}

module _ {Message Context Match W Regex : Type 0} (env : Env Message Context Match W Regex) where
  -- The state after the chain for what nothing matches.
  abbrev pub run_unknown : MethodMap Message Context Match W → Message → W → W
  run_unknown m message w = elim (registered unknown "" m) [
    | none ↦ w
    | some st ↦ (begin_execute st message env.fresh env.no_match w).2
  ]

  -- The walk visits each resource once.
  abbrev pub IsWalk : Type 0
  IsWalk = (es : ResourceMap Message Context Match W) → Permᴰ es (env.iterate es)

  resources-AreBuilt :
      (m : MethodMap Message Context Match W) (request : Message)
      → IsServer m
      → AllValues IsBuilt (resources (env.method request) m)
  resources-AreBuilt m request s = elim (Option-cases (find (env.method request) m)) [
    | inl e ↦ rw e tt
    | inr (rm, e) ↦ rw e (find-AllValues _ (env.method request) m s.built e)
  ]

  handle_unknown-IsServer :
      (m : MethodMap Message Context Match W) (message : Message) (w : W)
      → registered unknown "" m ≢ none
      → handle_unknown env m message w ≡ done (run_unknown m message w)
  unfolding handle_unknown
  handle_unknown-IsServer m message w h = elim (Option-cases (find unknown m)) [
    | inl e ↦ absurd (h (rw e (find-nil "")))
    | inr (rm, e) ↦ ground arith
  ]

  module _ (walk : IsWalk) (m : MethodMap Message Context Match W) (server : IsServer m)
      (request : Message) where
    -- The chains that match, in the order of the walk.
    abbrev pub matched : List (Storage Message Context Match W × Match)
    matched = hits env request (env.iterate (resources (env.method request) m))

    matched-perm : Permᴰ (hits env request (resources (env.method request) m)) matched
    matched-perm = hits-perm env request (walk (resources (env.method request) m))

    handle_method-hits :
        (w : W)
        → Compile env (resources (env.method request) m)
        → handle_method env m request w ≡ done (is_nonempty matched, run_hits env request matched w)
    unfolding handle_method
    handle_method-hits w c = elim (Option-cases (find (env.method request) m)) [
      | inl e ↦
          let empty : is_nonempty matched ≡ false =
            sym (is_nonempty-perm matched-perm) ∙ rw e refl in
          ground (arith, empty)
      | inr (rm, e) ↦
          let loop =
            for_each-hits env request (env.iterate (resources (env.method request) m)) false w
              (Compile-perm env (walk _) c)
              (AllValues-perm IsBuilt (walk _) (resources-AreBuilt m request server)) in
          ground (arith, loop)
    ]

    -- On a server's table, where the walk visits each resource once, a request for which the patterns
    -- of its method compile is always answered: by the chains of the resources of its method that
    -- match, once each in the order of the walk, or, if there are none, by the chain for what is not
    -- found.
    pub process_request-hits :
        (w : W)
        → Compile env (resources (env.method request) m)
        → (process_request env m request w
            ≡ done (
                if is_nonempty (hits env request (resources (env.method request) m))
                then run_hits env request matched w
                else run_unknown m request w))
          × Permᴰ (hits env request (resources (env.method request) m)) matched
    unfolding process_request
    process_request-hits w c = (
      ground (
        arith,
        handle_method-hits w c,
        is_nonempty-perm matched-perm,
        handle_unknown-IsServer m request (run_hits env request matched w) server.fallback,
        run_hits-empty env request matched w,
      ),
      matched-perm,
    )

  handle_method-ne-undefined :
      (m : MethodMap Message Context Match W) (request : Message) (w : W)
      → handle_method env m request w ≢ undefined
  unfolding handle_method
  handle_method-ne-undefined m request w = elim (Option-cases (find (env.method request) m)) [
    | inl e ↦ ground arith
    | inr (rm, e) ↦ ground (arith, for_each-ne-undefined env request (env.iterate rm) false w)
  ]

  -- On the table of a server, whatever calls have filled it, no request ends in undefined behaviour, also
  -- where a pattern does not compile: the constructor has registered a chain for what is not found, and no
  -- call takes it away.
  pub process_request-ne-undefined :
      (send_not_found : Message → Context → W → Context × W)
      (rs : List (Registration Message Context Match W)) (request : Message) (w : W)
      → process_request env (register_all rs (initial send_not_found true)) request w ≢ undefined
  unfolding process_request
  process_request-ne-undefined send_not_found rs request w =
      let m = register_all rs (initial send_not_found true) in
      let fallback = (register_all-initial-IsServer send_not_found rs).fallback in
      bind-ne-undefined (handle_method env m request w) _ (handle_method-ne-undefined m request w)
        λ r. ground (arith, handle_unknown-IsServer m request r.1 fallback)

  -- Where the table has an entry for a request's method, and the walk over its resources comes to a
  -- pattern that does not compile behind patterns that do, the request throws, after the effects of the
  -- chains in front of that pattern that match, whichever resource the request asks for.
  pub process_request-throws :
      (m : MethodMap Message Context Match W) (request : Message) (w : W)
      (front rest : ResourceMap Message Context Match W) (path : String)
      (st : Storage Message Context Match W)
      → env.iterate (resources (env.method request) m) ≡ front ++ (path, st) ∷ rest
      → find (env.method request) m ≢ none
      → Compile env front
      → env.regex path ≡ none
      → process_request env m request w ≡ threw (run_hits env request (hits env request front) w)
  unfolding process_request handle_method
  process_request-throws m request w front rest path st walked h c e =
      elim (Option-cases (find (env.method request) m)) [
        | inl missing ↦ absurd (h missing)
        | inr (rm, found) ↦
            let same : env.iterate rm ≡ front ++ (path, st) ∷ rest = ground arith in
            ground (arith, for_each-throws env request front rest path st false w c e)
      ]

  response-fallback :
      (r : Registration Message Context Match W) (rs : List (Registration Message Context Match W))
      → is_enabled false r ≡ true
      → registered unknown "" (register_all (r ∷ rs) []) ≢ none
  unfolding register_all
  response-fallback (handles_response hs) rs e =
      register_all-fallback rs (register (handles_response hs) []) (handles_response-fallback hs [])
  response-fallback (gets path hs) rs e = cc
  response-fallback _ rs e = cc

  -- A client, on which only the calls for clients are made, hands every response to the chain that
  -- `handle_response` has registered. Where none has been registered, the response ends in undefined
  -- behaviour.
  pub process_response-client :
      (send_not_found : Message → Context → W → Context × W)
      (rs : List (Registration Message Context Match W)) (response : Message) (w : W)
      → All (λ r. is_enabled false r ≡ true) rs
      → let m = register_all rs (initial send_not_found false) in
        ((rs ≡ []) × (process_response env m response w ≡ undefined))
        ⊎ ((registered unknown "" m ≢ none)
            × (process_response env m response w ≡ done (run_unknown m response w)))
  unfolding process_response initial
  process_response-client send_not_found [] response w a =
      inl (refl, unfold handle_unknown register_all find in refl)
  process_response-client send_not_found (r ∷ rs) response w a =
      let fallback = response-fallback r rs a.0 in
      inr (fallback, handle_unknown-IsServer (register_all (r ∷ rs) []) response w fallback)
