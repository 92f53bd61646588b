-- ===== src/Base/Outcome.antt =====
-- How a call of the C++ code ends: with a value, by an exception with the state at that point, or in
-- undefined behaviour.
use mathlib.Core.Path.{◌≡◌, refl}
use mathlib.Core.Logic.{◌≢◌}
use native.Mathlib.Omega.{arith}

pub data Outcome (A W : Type 0) : Type 0 where
  done : A → Outcome A W
  threw : W → Outcome A W
  undefined : Outcome A W

infixl 5 ◌>>=◌
abbrev pub ◌>>=◌ : {A B W : Type 0} → Outcome A W → (A → Outcome B W) → Outcome B W
done a >>= f = f a
threw w >>= f = threw w
undefined >>= f = undefined

pub bind-ne-undefined :
    {A B W : Type 0} (o : Outcome A W) (f : A → Outcome B W)
    → o ≢ undefined
    → ((a : A) → f a ≢ undefined)
    → (o >>= f) ≢ undefined
bind-ne-undefined (done a) f h k = k a
bind-ne-undefined (threw w) f h k = ground arith
bind-ne-undefined undefined f h k = absurd (h refl)

pub bind_assoc :
    {A B D W : Type 0} (o : Outcome A W) (f : A → Outcome B W) (g : B → Outcome D W)
    → ((o >>= f) >>= g) ≡ (o >>= λ a. f a >>= g)
bind_assoc (done a) f g = refl
bind_assoc (threw w) f g = refl
bind_assoc undefined f g = refl

pub bind_cong :
    {A B W : Type 0} (o : Outcome A W) (f g : A → Outcome B W)
    → ((a : A) → f a ≡ g a)
    → (o >>= f) ≡ (o >>= g)
bind_cong (done a) f g h = h a
bind_cong (threw w) f g h = refl
bind_cong undefined f g h = refl
