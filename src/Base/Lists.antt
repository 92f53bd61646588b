-- ===== src/Base/Lists.antt =====
-- Lists measured and indexed by native numbers, under the library's names, and predicates on them.
use Prim.Native.Nat.{ℕ, zero, suc, ◌+◌, ◌≤◌, ◌<◌}
use mathlib.Core.Path.{ap, ◌≡◌, refl}
use mathlib.Core.List.{map, List, [], ◌∷◌, ◌++◌}
use mathlib.Core.Option.{Option, none, some}
use native.Mathlib.Omega.{arith}

module _ {ℓ} {A : Type ℓ} where
  abbrev pub length : List A → ℕ
  length [] = 0
  length (x ∷ xs) = suc (length xs)

  abbrev pub get_elem? : List A → ℕ → Option A
  get_elem? [] i = none
  get_elem? (x ∷ xs) zero = some x
  get_elem? (x ∷ xs) (suc i) = get_elem? xs i

  pub length-append : (xs ys : List A) → length (xs ++ ys) ≡ length xs + length ys
  length-append [] ys = omega arith
  length-append (x ∷ xs) ys = omega (arith, length-append xs ys)

  -- Every element has the property.
  abbrev pub All {κ} : (A → Type κ) → List A → Type κ
  All P [] = Unit
  All P (x ∷ xs) = P x × All P xs

  pub All-append {κ} : (P : A → Type κ) (xs ys : List A) → All P xs → All P ys → All P (xs ++ ys)
  All-append P [] ys h k = k
  All-append P (x ∷ xs) ys h k = (h.0, All-append P xs ys h.1 k)

  -- Every element after the first `n`.
  abbrev pub drop : ℕ → List A → List A
  drop zero xs = xs
  drop (suc n) [] = []
  drop (suc n) (x ∷ xs) = drop n xs

  pub drop-length : (xs : List A) → drop (length xs) xs ≡ []
  drop-length [] = refl
  drop-length (x ∷ xs) = drop-length xs

  -- Below the length there is an element, and the rest begins with it.
  pub drop-cons :
      (n : ℕ) (xs : List A)
      → n < length xs
      → (a : A) × (get_elem? xs n ≡ some a) × (drop n xs ≡ a ∷ drop (suc n) xs)
  drop-cons n [] h = absurd (omega arith)
  drop-cons zero (x ∷ xs) h = (x, refl, refl)
  drop-cons (suc n) (x ∷ xs) h = drop-cons n xs (omega arith)

  pub drop-append : (n : ℕ) (xs ys : List A) → n ≤ length xs → drop n (xs ++ ys) ≡ drop n xs ++ ys
  drop-append zero xs ys h = refl
  drop-append (suc n) [] ys h = absurd (omega arith)
  drop-append (suc n) (x ∷ xs) ys h = drop-append n xs ys (omega arith)

  -- One element more is gone where the rest began with it.
  pub drop-suc :
      (n : ℕ) (xs ys : List A) (a : A)
      → drop n xs ≡ a ∷ ys
      → (drop (suc n) xs ≡ ys) × (suc n ≤ length xs)
  drop-suc zero [] ys a e = ground arith
  drop-suc zero (x ∷ xs) ys a e = (ground arith, omega arith)
  drop-suc (suc n) [] ys a e = ground arith
  drop-suc (suc n) (x ∷ xs) ys a e = let (f, g) = drop-suc n xs ys a e in (f, omega arith)

  pub All-append_one {κ} :
      (P : A → Type κ) (xs : List A) (a : A) → All P xs → P a → All P (xs ++ a ∷ [])
  All-append_one P xs a h k = All-append P xs (a ∷ []) h (k, tt)

  -- One element in place of another.
  pub All-replace {κ} :
      (P : A → Type κ) (xs ys : List A) (a a' : A)
      → (P a → P a')
      → All P (xs ++ a ∷ ys)
      → All P (xs ++ a' ∷ ys)
  All-replace P [] ys a a' f h = (f h.0, h.1)
  All-replace P (x ∷ xs) ys a a' f h = (h.0, All-replace P xs ys a a' f h.1)

  pub All-mono {κ μ} :
      {P : A → Type κ} {Q : A → Type μ}
      → ((a : A) → P a → Q a)
      → (xs : List A) → All P xs
      → All Q xs
  All-mono f [] h = tt
  All-mono f (x ∷ xs) h = (f x h.0, All-mono f xs h.1)

  pub map-replace {κ} :
      {B : Type κ} (f : A → B) (xs ys : List A) (a a' : A)
      → f a' ≡ f a
      → map f (xs ++ a' ∷ ys) ≡ map f (xs ++ a ∷ ys)
  map-replace f [] ys a a' e = ap (λ b. b ∷ map f ys) e
  map-replace f (x ∷ xs) ys a a' e = ap (λ bs. f x ∷ bs) (map-replace f xs ys a a' e)

  pub length-replace : (xs ys : List A) (a a' : A) → length (xs ++ a' ∷ ys) ≡ length (xs ++ a ∷ ys)
  length-replace [] ys a a' = refl
  length-replace (x ∷ xs) ys a a' = ap suc (length-replace xs ys a a')
