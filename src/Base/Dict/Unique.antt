-- ===== src/Base/Dict/Unique.antt =====
-- Keyed containers whose keys stand once: what can be looked up determines their entries up to order.
use mathlib.Core.List.{Permᴰ}
use mathlib.Core.List.Permᴰ
use beast_router.Base.Tests.{if◌then◌else◌, Bool-cases}
use beast_router.Base.Dict.{Eq, find, insert_or_assign, find-insert_or_assign}
use mathlib.Core.Path.{◌≡◌, refl, sym}
use mathlib.Core.Logic.{inl, inr}
use mathlib.Core.Option.{none, some}
use mathlib.Core.List.{List, [], ◌∷◌}
use native.Mathlib.Omega.{arith}

module _ {ℓ κ} {K : Type ℓ} ⦃e : Eq K⦄ {V : Type κ} where
  abbrev pub Unique : List (K × V) → Type κ
  Unique [] = Unit
  Unique ((k, v) ∷ m) = (find k m ≡ none) × Unique m

  pub insert_or_assign-Unique :
      (k : K) (v : V) (m : List (K × V)) → Unique m → Unique (insert_or_assign k v m)
  unfolding insert_or_assign find
  insert_or_assign-Unique k v [] u = (refl, tt)
  insert_or_assign-Unique k v ((j, w) ∷ m) u = elim (Bool-cases (e.beq j k)) [
    | inl same ↦ rw same u
    | inr other ↦ rw other (
      ground (arith, find-insert_or_assign k j v m, e.beq_iff k j, e.beq_iff j k, u.0),
      insert_or_assign-Unique k v m u.1,
    )
  ]

  -- The entries without that of a key.
  without : K → List (K × V) → List (K × V)
  without k [] = []
  without k ((j, w) ∷ m) = if e.beq j k then m else (j, w) ∷ without k m

  find-without :
      (k j : K) (m : List (K × V))
      → Unique m
      → find j (without k m) ≡ (if e.beq k j then none else find j m)
  unfolding without find
  find-without k j [] u = ground arith
  find-without k j ((i, w) ∷ m) u =
      ground (arith, e.beq_iff k j, e.beq_iff i k, e.beq_iff i j, find-without k j m, u.0)

  without-Unique : (k : K) (m : List (K × V)) → Unique m → Unique (without k m)
  unfolding without
  without-Unique k [] u = tt
  without-Unique k ((j, w) ∷ m) u = elim (Bool-cases (e.beq j k)) [
    | inl same ↦ rw same u.1
    | inr other ↦ rw other (ground (arith, find-without k j m u.1, u.0), without-Unique k m u.1)
  ]

  -- An entry that can be found stands before the others in some order.
  without-perm :
      (k : K) {v : V} (m : List (K × V)) → find k m ≡ some v → Permᴰ ((k, v) ∷ without k m) m
  unfolding without find
  without-perm k [] h = absurd (ground arith)
  without-perm k {v} ((j, w) ∷ m) h = elim (Bool-cases (e.beq j k)) [
    | inl same ↦ rw same (Permᴰ.cons (ground (arith, e.beq_iff j k)) (Permᴰ.refl m))
    | inr other ↦
        let rest : find k m ≡ some v = ground arith in
        rw other (Permᴰ.trans (Permᴰ.swap refl refl) (Permᴰ.cons refl (without-perm k m rest)))
  ]

  find-none-empty : (m : List (K × V)) → ((k : K) → find k m ≡ none) → m ≡ []
  unfolding find
  find-none-empty [] h = refl
  find-none-empty ((k, v) ∷ m) h = absurd (ground (arith, h k, e.beq_iff k k))

  -- Containers in which the same can be looked up have the same entries.
  pub find-perm :
      (m n : List (K × V)) → Unique m → Unique n → ((k : K) → find k m ≡ find k n) → Permᴰ m n
  unfolding find
  find-perm [] n u u' h = rw (find-none-empty n (λ k. sym (h k))) Permᴰ.nil
  find-perm ((k, v) ∷ m) n u u' h =
      let found : find k n ≡ some v = ground (arith, h k, e.beq_iff k k) in
      let rest = λ (j : K).
        let there = find-without k j n u' in
        let same : find j m ≡ find j (without k n) =
          ground (arith, there, h j, u.0, e.beq_iff k j) in
        same in
      Permᴰ.trans (Permᴰ.cons refl (find-perm m (without k n) u.1 (without-Unique k n u') rest))
        (without-perm k n found)
