-- ===== src/Utility/Laws.antt =====
-- The traits and the tuple iterator of include/beast_router/common/utility.hpp against descriptions
-- of them.
use beast_router.Base.{
  ℕ, zero, suc, ◌+◌, ◌≤◌, ◌<◌, ◌≡◌, refl, ◌↔◌, Bool, true, false, List, [], ◌∷◌, ◌++◌, some, All,
  get_elem?, arith,
}
use beast_router.Utility.{
  is_same_pack, is_all_true, is_class_creatable, index_sequence, tuple_func_idx,
}

is_same_pack-All :
    (v : List Bool) → All (λ b. b ≡ true) v → is_same_pack (true ∷ v) (v ++ true ∷ []) ≡ true
unfolding is_same_pack
is_same_pack-All [] h = refl
is_same_pack-All (true ∷ v) h = is_same_pack-All v h.1
is_same_pack-All (false ∷ v) h = cc (h.0)

All-is_same_pack :
    (v : List Bool) → is_same_pack (true ∷ v) (v ++ true ∷ []) ≡ true → All (λ b. b ≡ true) v
unfolding is_same_pack
All-is_same_pack [] h = tt
All-is_same_pack (true ∷ v) h = (refl, All-is_same_pack v h)
All-is_same_pack (false ∷ v) h = cc

-- The comparison of the two shifted packs holds exactly when every condition does.
pub is_all_true_iff : (v : List Bool) → (is_all_true v ≡ true) ↔ All (λ b. b ≡ true) v
unfolding is_all_true
is_all_true_iff v = (All-is_same_pack v, is_same_pack-All v)

-- The trait has the same value for a class that can be created from the arguments and for one that
-- cannot, and the value is true.
pub is_class_creatable_constant :
    (well_formed other : Bool)
    → (is_class_creatable well_formed ≡ is_class_creatable other)
      × (is_class_creatable well_formed ≡ true)
unfolding is_class_creatable
is_class_creatable_constant a b = (refl, refl)

module _ {A S : Type 0} (tuple : List A) (func : A → S → S) where
  -- An index below the pack is not visited.
  tuple_func_idx-below :
      (idx k n : ℕ) (s : S) → idx < k → tuple_func_idx idx tuple (index_sequence k n) func s ≡ s
  unfolding tuple_func_idx index_sequence
  tuple_func_idx-below idx k zero s h = refl
  tuple_func_idx-below idx k (suc n) s h = ground (arith, tuple_func_idx-below idx (suc k) n s)

  -- An index of the pack is visited once, with the element of the tuple that stands there.
  pub tuple_func_idx-at :
      (idx k n : ℕ) (s : S) (a : A)
      → k ≤ idx
      → idx < k + n
      → get_elem? tuple idx ≡ some a
      → tuple_func_idx idx tuple (index_sequence k n) func s ≡ func a s
  unfolding tuple_func_idx index_sequence
  tuple_func_idx-at idx k zero s a low high e = absurd (omega arith)
  tuple_func_idx-at idx k (suc n) s a low high e =
      ground
        (arith, tuple_func_idx-below idx (suc k) n (func a s), tuple_func_idx-at idx (suc k) n s a)
