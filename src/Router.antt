-- ===== src/Router.antt =====
-- include/beast_router/router.hpp and impl/router.ipp: the routing tables. A router holds pointers,
-- which a dispatcher copies; the tables live in a store.
pub mod Routes
pub mod Tables
use beast_router.Base.{
  ℕ, suc, ◌+◌, ◌≡◌, refl, ◌↔◌, Bool, true, false, String, List, [], ◌∷◌, arith, ◌==◌, ==_iff,
  if◌then◌else◌,
}
use beast_router.Base.Dict.{Eq, string_eq, find, insert, insert_or_assign, modify}
use beast_router.Utility.{bool_type, function_pointer}
use beast_router.Storage.{Handler, Callback, on_message, storage}

-- `boost::beast::http::verb`: the five that the source names, and the others by their number.
pub data Verb : Type 0 where
  get put post delete_ unknown : Verb
  other : ℕ → Verb

abbrev pub verb_number : Verb → ℕ
verb_number unknown = 0
verb_number get = 1
verb_number put = 2
verb_number post = 3
verb_number delete_ = 4
verb_number (other n) = n + 5

pub verb_number-injective : (a b : Verb) → verb_number a ≡ verb_number b → a ≡ b
verb_number-injective a b h = ground arith

abbrev pub verb_beq : Verb → Verb → Bool
verb_beq a b = verb_number a == verb_number b

pub verb_beq_iff : (a b : Verb) → (verb_beq a b ≡ true) ↔ (a ≡ b)
verb_beq_iff a b = (λ h. verb_number-injective a b ((==_iff _ _).0 h), λ h. (==_iff _ _).1 (cc))

instance abbrev pub verb_eq : Eq Verb
verb_eq = record { beq = verb_beq; beq_iff = verb_beq_iff }

module _ (Message Context Match W : Type 0) where
  abbrev pub Storage : Type 0
  Storage = List (Callback Message Context Match W)

  abbrev pub ResourceMap : Type 0
  ResourceMap = List (String × Storage)

  abbrev pub MethodMap : Type 0
  MethodMap = List (Verb × ResourceMap)

  -- What `new` has given out: the method maps by their address. Mutexes are known by address alone.
  pub record Store : Type 0 where
    pub method_map_at : ℕ → MethodMap
    pub next : ℕ

  -- The calls that fill a table, with the handlers that they are given.
  pub data Registration : Type 0 where
    gets puts posts deletes : String → List (Handler Message Context Match W) → Registration
    not_founds handles_response : List (Handler Message Context Match W) → Registration

pub record Router : Type 0 where
  pub m_method_map : ℕ
  pub m_mutex : ℕ

unfoldable pub get_mutex_pointer : Router → ℕ
get_mutex_pointer r = r.m_mutex

unfoldable pub get_resource_map : Router → ℕ
get_resource_map r = r.m_method_map

module _ {Message Context W : Type 0} (send_not_found : Message → Context → W → Context × W) where
  -- `send_not_found` is `ctx.send(make_string_response(...))` of the session.
  unfoldable pub not_found_handler : Message → Context → W → Bool × Context × W
  not_found_handler rq ctx w = let (ctx', w') = send_not_found rq ctx w in (false, ctx', w')

module _ {Message Context Match W : Type 0} where
  unfoldable pub add_resource :
      String
      → Verb
      → Storage Message Context Match W
      → MethodMap Message Context Match W
      → MethodMap Message Context Match W
  add_resource path method st m = modify method (insert_or_assign path st) (insert method [] m)

  -- `get()`, `put()`, `post()`, `delete_()`, `not_found()` and `handle_response()`.
  unfoldable pub register :
      Registration Message Context Match W
      → MethodMap Message Context Match W
      → MethodMap Message Context Match W
  register (gets path on_request) = add_resource path get (storage on_request)
  register (puts path on_request) = add_resource path put (storage on_request)
  register (posts path on_request) = add_resource path post (storage on_request)
  register (deletes path on_request) = add_resource path delete_ (storage on_request)
  register (not_founds on_action) = add_resource "" unknown (storage on_action)
  register (handles_response on_action) = add_resource "" unknown (storage on_action)

  -- The `enable_if` of each call: `handle_response()` is for clients, the others for servers.
  abbrev pub is_enabled : (is_request : Bool) → Registration Message Context Match W → Bool
  is_enabled true (handles_response on_action) = false
  is_enabled true r = true
  is_enabled false (handles_response on_action) = true
  is_enabled false r = false

  unfoldable pub register_all :
      List (Registration Message Context Match W)
      → MethodMap Message Context Match W
      → MethodMap Message Context Match W
  register_all [] m = m
  register_all (r ∷ rs) m = register_all rs (register r m)

  abbrev pub write :
      ℕ
      → MethodMap Message Context Match W
      → Store Message Context Match W
      → Store Message Context Match W
  write p m s = record s { method_map_at = λ q. if q == p then m else s.method_map_at q }

  -- A registration through a router.
  unfoldable pub register_at :
      Router
      → Registration Message Context Match W
      → Store Message Context Match W
      → Store Message Context Match W
  register_at router r s =
      write router.m_method_map (register r (s.method_map_at router.m_method_map)) s

  module _ (send_not_found : Message → Context → W → Context × W) where
    abbrev pub default_not_found : List (Handler Message Context Match W)
    default_not_found =
        record {
          callable = function_pointer bool_type;
          func = on_message (not_found_handler send_not_found);
        }
        ∷ []

    -- The constructor's table: `if constexpr (is_request::value)`.
    unfoldable pub initial : (is_request : Bool) → MethodMap Message Context Match W
    initial true = register (not_founds default_not_found) []
    initial false = []

    -- The constructor, with the two addresses that it takes.
    unfoldable pub router :
        (is_request : Bool) → Store Message Context Match W → Router × Store Message Context Match W
    router is_request s = (
      record { m_method_map = s.next; m_mutex = suc s.next },
      write s.next (initial is_request) (record s { next = s.next + 2 }),
    )

-- The two routers after `swap(first, second)`.
unfoldable pub swap : Router → Router → Router × Router
swap first second = (
  record { m_method_map = second.m_method_map; m_mutex = second.m_mutex },
  record { m_method_map = first.m_method_map; m_mutex = first.m_mutex },
)
