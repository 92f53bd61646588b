-- ===== src/Utility.antt =====
-- include/beast_router/common/utility.hpp: the type traits, read as functions of what they inspect,
-- and the iterator over a tuple.
pub mod Laws
use beast_router.Base.{
  ℕ, zero, suc, Bool, true, false, ◌&&◌, List, [], ◌∷◌, ◌++◌, Option, none, some, ◌==◌, get_elem?,
  if◌then◌else◌,
}

-- The return types that the library tells apart.
pub data ReturnType : Type 0 where
  void_type bool_type other_type : ReturnType

-- A callable type as the traits see it: a closure type has no `result_type` member, a
-- `std::function` has one.
pub data CallableType : Type 0 where
  closure std_function function_pointer function_reference : ReturnType → CallableType
  const_reference : CallableType → CallableType

-- The partial specialisations are chosen by the exact type: a reference to a class has no member
-- type, and a reference to a pointer is not a pointer.
unfoldable pub func_traits_result : CallableType → ReturnType
func_traits_result (closure r) = void_type
func_traits_result (std_function r) = r
func_traits_result (function_pointer r) = r
func_traits_result (function_reference r) = r
func_traits_result (const_reference t) = void_type

-- The types that `is_chrono_duration` tells apart.
pub data TimeType : Type 0 where
  chrono_duration const_duration duration_reference : (rep period : ℕ) → TimeType
  not_duration : TimeType

unfoldable pub is_chrono_duration : TimeType → Bool
is_chrono_duration (chrono_duration rep period) = true
is_chrono_duration (const_duration rep period) = false
is_chrono_duration (duration_reference rep period) = false
is_chrono_duration not_duration = false

-- `std::is_same` of two instances of `bool_pack`.
pub is_same_pack : List Bool → List Bool → Bool
is_same_pack [] [] = true
is_same_pack (true ∷ v) (true ∷ w) = is_same_pack v w
is_same_pack (false ∷ v) (false ∷ w) = is_same_pack v w
is_same_pack _ _ = false

unfoldable pub is_all_true : List Bool → Bool
unfolding is_same_pack
is_all_true v = is_same_pack (true ∷ v) (v ++ true ∷ [])

-- The types whose size `is_class_creatable` takes.
pub data Scalar : Type 0 where
  char_type long_type bool_scalar : Scalar

-- `long` as on the 64-bit targets; `char` and `bool` are one byte.
sizeof : Scalar → ℕ
sizeof char_type = 1
sizeof long_type = 8
sizeof bool_scalar = 1

-- The return type of the overload of `test` that is chosen; the argument says if the braced
-- initialisation is well formed.
test : Bool → Scalar
test true = char_type
test false = long_type

-- The type of a comparison of two sizes.
type_of_comparison : (left right : ℕ) → Scalar
type_of_comparison left right = bool_scalar

-- The operand of the outer `sizeof` is the comparison.
unfoldable pub is_class_creatable : Bool → Bool
unfolding sizeof test type_of_comparison
is_class_creatable well_formed =
    if sizeof (type_of_comparison (sizeof (test well_formed)) (sizeof char_type)) == 0
    then false
    else true

-- `std::make_index_sequence`, from `k` on.
unfoldable pub index_sequence : ℕ → ℕ → List ℕ
index_sequence k zero = []
index_sequence k (suc n) = k ∷ index_sequence (suc k) n

-- `func` is called at each index of the pack that equals `idx`; `s` is what it changes.
unfoldable pub tuple_func_idx :
    {A S : Type 0} (idx : ℕ) (tuple : List A) (idxs : List ℕ) (func : A → S → S) → S → S
tuple_func_idx idx tuple [] func s = s
tuple_func_idx idx tuple (i ∷ idxs) func s =
    tuple_func_idx idx tuple idxs func
      (if idx == i then elim (get_elem? tuple i) [ none ↦ s | some a ↦ func a s ] else s)
