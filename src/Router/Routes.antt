-- ===== src/Router/Routes.antt =====
-- A routing table (include/beast_router/impl/router.ipp) by what it holds at each method and path,
-- whatever the order of its entries.
use mathlib.Core.List.{Permᴰ}
use beast_router.Base.{
  ◌≡◌, sym, ◌∙◌, Bool, true, false, String, List, [], ◌∷◌, Option-cases, inl, inr,
}
use beast_router.Base.Dict.{
  string_eq, find, AllValues, insert-AllValues, modify-AllValues, find-AllValues,
}
use beast_router.Base.Dict.Unique.{Unique, insert_or_assign-Unique, find-perm}
use beast_router.Router.{
  Verb, verb_eq, Storage, MethodMap, Registration, add_resource, register, register_all, initial,
  not_founds, default_not_found,
}
use beast_router.Router.Tables.{
  resources, registered, register_lem, last_for, registered-register_all,
}

module _ {Message Context Match W : Type 0} where
  -- Each path stands once among the resources of a method.
  abbrev pub HasPathsOnce : MethodMap Message Context Match W → Type 0
  HasPathsOnce m = AllValues Unique m

  add_resource-HasPathsOnce :
      (path : String) (method : Verb) (st : Storage Message Context Match W)
      (m : MethodMap Message Context Match W)
      → HasPathsOnce m
      → HasPathsOnce (add_resource path method st m)
  unfolding add_resource
  add_resource-HasPathsOnce path method st m u =
      modify-AllValues Unique method _ _ (insert_or_assign-Unique path st)
        (insert-AllValues Unique method [] m tt u)

  pub register_all-HasPathsOnce :
      (rs : List (Registration Message Context Match W)) (m : MethodMap Message Context Match W)
      → HasPathsOnce m
      → HasPathsOnce (register_all rs m)
  unfolding register_all
  register_all-HasPathsOnce [] m u = u
  register_all-HasPathsOnce (r ∷ rs) m u =
      register_all-HasPathsOnce rs (register r m)
        (rw (register_lem r m) (add_resource-HasPathsOnce _ _ _ m u))

  resources-Unique :
      (v : Verb) (m : MethodMap Message Context Match W) → HasPathsOnce m → Unique (resources v m)
  resources-Unique v m u = elim (Option-cases (find v m)) [
    | inl e ↦ rw e tt
    | inr (rm, e) ↦ rw e (find-AllValues Unique v m u e)
  ]

  -- Two tables hold the same chain at each method and path.
  abbrev pub SameRoutes :
      MethodMap Message Context Match W → MethodMap Message Context Match W → Type 0
  SameRoutes m n = (v : Verb) (p : String) → registered v p m ≡ registered v p n

  -- Then they have the same resources for each method, in some order.
  pub SameRoutes-perm :
      (v : Verb) (m n : MethodMap Message Context Match W)
      → HasPathsOnce m
      → HasPathsOnce n
      → SameRoutes m n
      → Permᴰ (resources v m) (resources v n)
  SameRoutes-perm v m n u u' same =
      find-perm (resources v m) (resources v n) (resources-Unique v m u) (resources-Unique v n u')
        (same v)

  -- Calls that agree on the last of them for each method and path leave the same routes.
  pub register_all-SameRoutes :
      (rs qs : List (Registration Message Context Match W)) (m : MethodMap Message Context Match W)
      → ((v : Verb) (p : String) → last_for v p rs ≡ last_for v p qs)
      → SameRoutes (register_all rs m) (register_all qs m)
  register_all-SameRoutes rs qs m agree v p =
      registered-register_all rs v p m ∙ rw (agree v p) (sym (registered-register_all qs v p m))

module _ {Message Context W : Type 0} (Match : Type 0) where
  pub initial-HasPathsOnce :
      (send_not_found : Message → Context → W → Context × W) (is_request : Bool)
      → HasPathsOnce {Match = Match} (initial send_not_found is_request)
  unfolding initial
  initial-HasPathsOnce send_not_found true =
      rw (register_lem (not_founds (default_not_found send_not_found)) [])
        (add_resource-HasPathsOnce _ _ _ [] tt)
  initial-HasPathsOnce send_not_found false = tt
