-- ===== src/HttpUtility/Text.antt =====
-- The two `std::string` members that include/beast_router/common/impl/http_utility.ipp calls:
-- `rfind` of a dot and `substr`. Positions count characters.
use Prim.Native.Nat.{ℕ, zero, suc}
use Prim.Native.Char.{Char, code}
use Prim.Native.String.{String, [], ◌∷◌, ◌++◌, count}
use text.Mathlib.TextLemmas.{nil-append, cons-append, length-nil, length-cons}
use mathlib.Core.Path.{◌≡◌, refl}
use mathlib.Core.Bool.{Bool, true, false, ◌||◌}
use mathlib.Core.Option.{Option, none, some}
use native.Mathlib.Omega.{arith}
use beast_router.Base.{◌==◌, if◌then◌else◌}

abbrev pub is_dot : Char → Bool
is_dot c = code c == 46

-- `none` is `npos`.
unfoldable pub rfind_dot : String → Option ℕ
rfind_dot [] = none
rfind_dot (c ∷ s) = elim (rfind_dot s) [
  | some idx ↦ some (suc idx)
  | none ↦ if is_dot c then some 0 else none
]

unfoldable pub substr : (pos : ℕ) → String → String
substr zero s = s
substr (suc n) [] = []
substr (suc n) (c ∷ s) = substr n s

abbrev pub has_dot : String → Bool
has_dot [] = false
has_dot (c ∷ s) = is_dot c || has_dot s

pub rfind_dot-none : (s : String) → has_dot s ≡ false → rfind_dot s ≡ none
unfolding rfind_dot
rfind_dot-none [] h = refl
rfind_dot-none (c ∷ s) h = ground (arith, rfind_dot-none s)

-- The last dot of a stem, a dot and an extension without one is the dot between them.
pub rfind_dot-between :
    (stem ext : String) (dot : Char)
    → is_dot dot ≡ true
    → has_dot ext ≡ false
    → rfind_dot (stem ++ dot ∷ ext) ≡ some (count stem)
unfolding rfind_dot
rfind_dot-between [] ext dot d h =
    rw (nil-append (dot ∷ ext)) (ground (arith, rfind_dot-none ext h, length-nil))
rfind_dot-between (c ∷ stem) ext dot d h =
    rw (cons-append c stem (dot ∷ ext))
      (ground (arith, rfind_dot-between stem ext dot d h, length-cons c stem))

pub substr-between :
    (stem ext : String) (dot : Char) → substr (suc (count stem)) (stem ++ dot ∷ ext) ≡ ext
unfolding substr
substr-between [] ext dot = rw (nil-append (dot ∷ ext)) refl
substr-between (c ∷ stem) ext dot =
    rw (cons-append c stem (dot ∷ ext), length-cons c stem) (substr-between stem ext dot)
