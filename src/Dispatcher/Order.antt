-- ===== src/Dispatcher/Order.antt =====
-- The chains that match, under another order of the walk over the resources
-- (include/beast_router/base/dispatcher.hpp).
use mathlib.Core.Path.{subst, subst₂}
use mathlib.Core.List.{Permᴰ}
use mathlib.Core.List.Permᴰ
use beast_router.Base.{◌≡◌, refl, ◌∙◌, List, [], ◌∷◌, Option, none, some, arith}
use beast_router.Base.Dict.{string_eq, AllValues}
use beast_router.Router.{Storage, ResourceMap}
use beast_router.Dispatcher.{Env}
use beast_router.Dispatcher.Matching.{hit, cons_hit, hits, is_nonempty, Compile}

module _ {A : Type 0} where
  cons_hit-perm :
      (o : Option A) {hs gs : List A} → Permᴰ hs gs → Permᴰ (cons_hit o hs) (cons_hit o gs)
  cons_hit-perm none p = p
  cons_hit-perm (some h) p = Permᴰ.cons refl p

  cons_hit-swap :
      (o q : Option A) (hs : List A)
      → Permᴰ (cons_hit o (cons_hit q hs)) (cons_hit q (cons_hit o hs))
  cons_hit-swap none q hs = Permᴰ.refl _
  cons_hit-swap (some h) none hs = Permᴰ.refl _
  cons_hit-swap (some h) (some g) hs = Permᴰ.swap refl refl

  pub is_nonempty-perm : {hs gs : List A} → Permᴰ hs gs → is_nonempty hs ≡ is_nonempty gs
  is_nonempty-perm Permᴰ.nil = refl
  is_nonempty-perm (Permᴰ.cons e p) = refl
  is_nonempty-perm (Permᴰ.swap e f) = refl
  is_nonempty-perm (Permᴰ.trans p q) = is_nonempty-perm p ∙ is_nonempty-perm q

  perm-empty : {hs gs : List A} → Permᴰ hs gs → hs ≡ [] → gs ≡ []
  perm-empty Permᴰ.nil h = refl
  perm-empty (Permᴰ.cons e p) h = absurd (ground arith)
  perm-empty (Permᴰ.swap e f) h = absurd (ground arith)
  perm-empty (Permᴰ.trans p q) h = perm-empty q (perm-empty p h)

  -- One element has one order.
  pub perm-one : {hs gs : List A} (x : A) → Permᴰ hs gs → hs ≡ x ∷ [] → gs ≡ x ∷ []
  perm-one x Permᴰ.nil h = absurd (ground arith)
  perm-one x (Permᴰ.cons e p) h = let empty = perm-empty p (ground arith) in ground arith
  perm-one x (Permᴰ.swap e f) h = absurd (ground arith)
  perm-one x (Permᴰ.trans p q) h = perm-one x q (perm-one x p h)

module _ {Message Context Match W : Type 0} where
  -- What holds of the resources holds of them in another order.
  pub AllValues-perm :
      (P : Storage Message Context Match W → Type 0) {es fs : ResourceMap Message Context Match W}
      → Permᴰ es fs
      → AllValues P es
      → AllValues P fs
  AllValues-perm P Permᴰ.nil h = tt
  AllValues-perm P (Permᴰ.cons e p) h = (subst (λ x. P x.1) e h.0, AllValues-perm P p h.1)
  AllValues-perm P (Permᴰ.swap e f) h =
      (subst (λ x. P x.1) f h.1.0, (subst (λ x. P x.1) e h.0, h.1.1))
  AllValues-perm P (Permᴰ.trans p q) h = AllValues-perm P q (AllValues-perm P p h)

module _ {Message Context Match W Regex : Type 0} (env : Env Message Context Match W Regex)
    (request : Message) where
  -- Another order of the resources gives the same hits in another order.
  pub hits-perm :
      {es fs : ResourceMap Message Context Match W}
      → Permᴰ es fs
      → Permᴰ (hits env request es) (hits env request fs)
  hits-perm Permᴰ.nil = Permᴰ.nil
  hits-perm (Permᴰ.cons {a = a} {b = b} {l₁ = l₁} {l₂ = l₂} e p) =
      subst (λ x. Permᴰ (hits env request (a ∷ l₁)) (hits env request (x ∷ l₂))) e
        (cons_hit-perm (hit env request a) (hits-perm p))
  hits-perm (Permᴰ.swap {a = a} {b = b} {l = l} e f) =
      subst₂ (λ x y. Permᴰ (hits env request (a ∷ b ∷ l)) (hits env request (y ∷ x ∷ l))) e f
        (cons_hit-swap (hit env request a) (hit env request b) (hits env request l))
  hits-perm (Permᴰ.trans p q) = Permᴰ.trans (hits-perm p) (hits-perm q)

module _ {Message Context Match W Regex : Type 0} (env : Env Message Context Match W Regex) where
  pub Compile-perm :
      {es fs : ResourceMap Message Context Match W} → Permᴰ es fs → Compile env es → Compile env fs
  Compile-perm Permᴰ.nil h = tt
  Compile-perm (Permᴰ.cons e p) h =
      (subst (λ x. (re : Regex) × (env.regex x.0 ≡ some re)) e h.0, Compile-perm p h.1)
  Compile-perm (Permᴰ.swap e f) h = (
    subst (λ x. (re : Regex) × (env.regex x.0 ≡ some re)) f h.1.0,
    (subst (λ x. (re : Regex) × (env.regex x.0 ≡ some re)) e h.0, h.1.1),
  )
  Compile-perm (Permᴰ.trans p q) h = Compile-perm q (Compile-perm p h)
