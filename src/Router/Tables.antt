-- ===== src/Router/Tables.antt =====
-- What the routing tables (include/beast_router/impl/router.ipp) hold after any registrations.
use beast_router.Base.{
  ◌≡◌, refl, true, String, List, [], ◌∷◌, Option, none, some, arith, ◌&&◌, str_eq, if◌then◌else◌,
  ◌≢◌, eq_refl,
}
use mathlib.Core.Option
use beast_router.Base.Dict.{
  string_eq, find, insert, insert_or_assign, find-insert, find-insert_or_assign, find-modify,
  AllValues, insert-AllValues, insert_or_assign-AllValues, modify-AllValues,
}
use beast_router.Storage.{Handler, storage}
use beast_router.Storage.Laws.{IsBuilt}
use beast_router.Router.{
  Verb, get, put, post, delete_, unknown, verb_beq, verb_eq, Storage, ResourceMap, MethodMap,
  Registration, gets, puts, posts, deletes, not_founds, handles_response, add_resource, register,
  register_all, default_not_found, initial,
}

module _ {Message Context Match W : Type 0} where
  -- The resources of a method, none where the method has no entry.
  abbrev pub resources :
      Verb → MethodMap Message Context Match W → ResourceMap Message Context Match W
  resources method m = Option.get_or (find method m) []

  -- The chain that is registered for a method and a path.
  abbrev pub registered :
      Verb → String → MethodMap Message Context Match W → Option (Storage Message Context Match W)
  registered method path m = find path (resources method m)

  resources-add_resource :
      (method v : Verb) (path : String) (st : Storage Message Context Match W)
      (m : MethodMap Message Context Match W)
      → resources v (add_resource path method st m)
        ≡ (if verb_beq method v then insert_or_assign path st (resources v m) else resources v m)
  unfolding add_resource
  resources-add_resource method v path st m = ground (
    arith,
    find-modify method v (insert_or_assign path st) (insert method [] m),
    find-insert method v [] m,
  )

  -- A registration replaces what stood at its method and path, and nothing else.
  pub registered-add_resource :
      (method v : Verb) (path p : String) (st : Storage Message Context Match W)
      (m : MethodMap Message Context Match W)
      → registered v p (add_resource path method st m)
        ≡ (if verb_beq method v && str_eq path p then some st else registered v p m)
  registered-add_resource method v path p st m = ground (
    arith,
    resources-add_resource method v path st m,
    find-insert_or_assign path p st (resources v m),
  )

  -- Where each call registers, and what.
  abbrev pub verb_of : Registration Message Context Match W → Verb
  verb_of (gets path hs) = get
  verb_of (puts path hs) = put
  verb_of (posts path hs) = post
  verb_of (deletes path hs) = delete_
  verb_of (not_founds hs) = unknown
  verb_of (handles_response hs) = unknown

  abbrev pub path_of : Registration Message Context Match W → String
  path_of (gets path hs) = path
  path_of (puts path hs) = path
  path_of (posts path hs) = path
  path_of (deletes path hs) = path
  path_of (not_founds hs) = ""
  path_of (handles_response hs) = ""

  abbrev pub handlers_of :
      Registration Message Context Match W → List (Handler Message Context Match W)
  handlers_of (gets path hs) = hs
  handlers_of (puts path hs) = hs
  handlers_of (posts path hs) = hs
  handlers_of (deletes path hs) = hs
  handlers_of (not_founds hs) = hs
  handlers_of (handles_response hs) = hs

  pub register_lem :
      (r : Registration Message Context Match W) (m : MethodMap Message Context Match W)
      → register r m ≡ add_resource (path_of r) (verb_of r) (storage (handlers_of r)) m
  unfolding register
  register_lem (gets path hs) m = refl
  register_lem (puts path hs) m = refl
  register_lem (posts path hs) m = refl
  register_lem (deletes path hs) m = refl
  register_lem (not_founds hs) m = refl
  register_lem (handles_response hs) m = refl

  -- The handlers of the last call for a method and a path.
  abbrev pub last_for :
      Verb
      → String
      → List (Registration Message Context Match W)
      → Option (List (Handler Message Context Match W))
  last_for v p [] = none
  last_for v p (r ∷ rs) = elim (last_for v p rs) [
    | some hs ↦ some hs
    | none ↦ if verb_beq (verb_of r) v && str_eq (path_of r) p then some (handlers_of r) else none
  ]

  -- After any calls the chain of a method and a path is that of the last call for them, and without
  -- such a call what it was before.
  pub registered-register_all :
      (rs : List (Registration Message Context Match W)) (v : Verb) (p : String)
      (m : MethodMap Message Context Match W)
      → registered v p (register_all rs m)
        ≡ elim (last_for v p rs) [ some hs ↦ some (storage hs) | none ↦ registered v p m ]
  unfolding register_all
  registered-register_all [] v p m = refl
  registered-register_all (r ∷ rs) v p m = ground (
    arith,
    registered-register_all rs v p (register r m),
    register_lem r m,
    registered-add_resource (verb_of r) v (path_of r) p (storage (handlers_of r)) m,
  )

  -- Every chain was made by the constructor of `storage`.
  abbrev pub AreBuilt : MethodMap Message Context Match W → Type 0
  AreBuilt m = AllValues (AllValues IsBuilt) m

  -- What the table of a server keeps: a chain for the case that nothing matches.
  pub record IsServer (m : MethodMap Message Context Match W) : Type 0 where
    pub built : AreBuilt m
    pub fallback : registered unknown "" m ≢ none

  add_resource-AreBuilt :
      (method : Verb) (path : String) (handlers : List (Handler Message Context Match W))
      (m : MethodMap Message Context Match W)
      → AreBuilt m
      → AreBuilt (add_resource path method (storage handlers) m)
  unfolding add_resource
  add_resource-AreBuilt method path handlers m b =
      modify-AllValues _ method _ _
        (λ rs h. insert_or_assign-AllValues _ path (storage handlers) rs (handlers, refl) h)
        (insert-AllValues _ method [] m tt b)

  register-AreBuilt :
      (r : Registration Message Context Match W) (m : MethodMap Message Context Match W)
      → AreBuilt m
      → AreBuilt (register r m)
  register-AreBuilt r m b =
      rw (register_lem r m) (add_resource-AreBuilt (verb_of r) (path_of r) (handlers_of r) m b)

  register-fallback :
      (r : Registration Message Context Match W) (m : MethodMap Message Context Match W)
      → registered unknown "" m ≢ none
      → registered unknown "" (register r m) ≢ none
  register-fallback r m h = ground (
    arith,
    register_lem r m,
    registered-add_resource (verb_of r) unknown (path_of r) "" (storage (handlers_of r)) m,
  )

  pub register_all-fallback :
      (rs : List (Registration Message Context Match W)) (m : MethodMap Message Context Match W)
      → registered unknown "" m ≢ none
      → registered unknown "" (register_all rs m) ≢ none
  unfolding register_all
  register_all-fallback [] m h = h
  register_all-fallback (r ∷ rs) m h =
      register_all-fallback rs (register r m) (register-fallback r m h)

  pub handles_response-fallback :
      (handlers : List (Handler Message Context Match W)) (m : MethodMap Message Context Match W)
      → registered unknown "" (register (handles_response handlers) m) ≢ none
  handles_response-fallback handlers m = ground (
    arith,
    register_lem (handles_response handlers) m,
    registered-add_resource unknown unknown "" "" (storage handlers) m,
    eq_refl "",
  )

  pub register_all-AreBuilt :
      (rs : List (Registration Message Context Match W)) (m : MethodMap Message Context Match W)
      → AreBuilt m
      → AreBuilt (register_all rs m)
  unfolding register_all
  register_all-AreBuilt [] m b = b
  register_all-AreBuilt (r ∷ rs) m b =
      register_all-AreBuilt rs (register r m) (register-AreBuilt r m b)

  pub register_all-IsServer :
      (rs : List (Registration Message Context Match W)) (m : MethodMap Message Context Match W)
      → IsServer m
      → IsServer (register_all rs m)
  unfolding register_all
  register_all-IsServer [] m s = s
  register_all-IsServer (r ∷ rs) m s = register_all-IsServer rs (register r m) (record {
    built = register-AreBuilt r m s.built;
    fallback = register-fallback r m s.fallback;
  })

  pub initial-IsServer :
      (send_not_found : Message → Context → W → Context × W)
      → IsServer (initial send_not_found true)
  unfolding initial
  initial-IsServer send_not_found = record {
    built = register-AreBuilt (not_founds (default_not_found send_not_found)) [] tt;
    fallback = ground (
      arith,
      register_lem (not_founds (default_not_found send_not_found)) [],
      registered-add_resource unknown unknown "" "" (storage (default_not_found send_not_found)) [],
      eq_refl "",
    );
  }

  -- The table of a server after any calls has only chains that the constructor of `storage` made, and
  -- has one for the case that nothing matches.
  pub register_all-initial-IsServer :
      (send_not_found : Message → Context → W → Context × W)
      (rs : List (Registration Message Context Match W))
      → IsServer (register_all rs (initial send_not_found true))
  register_all-initial-IsServer send_not_found rs =
      register_all-IsServer rs _ (initial-IsServer send_not_found)
