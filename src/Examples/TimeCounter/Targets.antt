-- ===== src/Examples/TimeCounter/Targets.antt =====
-- The tests of a request's target in examples/time-counter/main.cpp.
use Prim.Native.Char.{Char, code}
use Prim.Native.String.{String, [], ◌∷◌, ◌++◌}
use text.Mathlib.TextLemmas.{nil-append, cons-append}
use mathlib.Core.Path.{◌≡◌, refl, sym, ◌∙◌, ap}
use mathlib.Core.Logic.{◌⊎◌, inl, inr}
use mathlib.Core.Bool.{Bool, true, false, not, ◌||◌, ◌&&◌}
use native.Mathlib.Omega.{arith}
use beast_router.Base.{◌==◌, Bool-cases}

-- `rq.target()[0] == '/'` of a target that is not empty.
unfoldable pub starts_with_slash : String → Bool
starts_with_slash [] = false
starts_with_slash (c ∷ s) = code c == 47

abbrev pub starts_with_dot : String → Bool
starts_with_dot [] = false
starts_with_dot (c ∷ s) = code c == 46

-- `rq.target().find("..") != npos`.
unfoldable pub has_dots : String → Bool
has_dots [] = false
has_dots (c ∷ s) = (code c == 46 && starts_with_dot s) || has_dots s

-- A text with a dot, code 46, that follows a dot.
pub record Dots (t : String) : Type 0 where
  pub before : String
  pub after : String
  pub first : Char
  pub second : Char
  pub first_code : code first ≡ 46
  pub second_code : code second ≡ 46
  pub parts : t ≡ before ++ (first ∷ second ∷ after)

-- A target that begins with a slash, code 47, and in which no dot follows a dot.
abbrev pub Legal : String → Type 0
Legal t = ((c : Char) × (s : String) × (t ≡ c ∷ s) × (code c ≡ 47)) × (¬ Dots t)

starts_with_slash_lem :
    (t : String)
    → starts_with_slash t ≡ true
    → (c : Char) × (s : String) × (t ≡ c ∷ s) × (code c ≡ 47)
unfolding starts_with_slash
starts_with_slash_lem [] h = absurd (ground arith)
starts_with_slash_lem (c ∷ s) h = (c, s, refl, ground arith)

has_dots-append :
    (p q : String) (d e : Char) → code d ≡ 46 → code e ≡ 46 → has_dots (p ++ (d ∷ e ∷ q)) ≡ true
unfolding has_dots
has_dots-append [] q d e f g = rw (nil-append (d ∷ e ∷ q)) (ground arith)
has_dots-append (c ∷ p) q d e f g =
    rw (cons-append c p (d ∷ e ∷ q)) (ground (arith, has_dots-append p q d e f g))

Dots-cons : (c : Char) (s : String) → Dots s → Dots (c ∷ s)
Dots-cons c s d = record {
  before = c ∷ d.before;
  after = d.after;
  first = d.first;
  second = d.second;
  first_code = d.first_code;
  second_code = d.second_code;
  parts = ap (λ w. c ∷ w) d.parts ∙ sym (cons-append c d.before (d.first ∷ d.second ∷ d.after));
}

Dots-at_once : (c : Char) (s : String) → code c ≡ 46 → starts_with_dot s ≡ true → Dots (c ∷ s)
Dots-at_once c [] e h = absurd (ground arith)
Dots-at_once c (d ∷ s) e h = record {
  before = [];
  after = s;
  first = c;
  second = d;
  first_code = e;
  second_code = ground arith;
  parts = sym (nil-append (c ∷ d ∷ s));
}

has_dots-Dots : (s : String) → has_dots s ≡ true → Dots s
unfolding has_dots
has_dots-Dots [] h = absurd (ground arith)
has_dots-Dots (c ∷ s) h = elim (Bool-cases (has_dots s)) [
  | inl later ↦ Dots-cons c s (has_dots-Dots s later)
  | inr none ↦ Dots-at_once c s (ground arith) (ground arith)
]

Dots-has_dots : (s : String) → Dots s → has_dots s ≡ true
Dots-has_dots s d =
    ap has_dots d.parts
    ∙ has_dots-append d.before d.after d.first d.second d.first_code d.second_code

abbrev pub is_illegal : String → Bool
is_illegal t = not (starts_with_slash t) || has_dots t

-- A target passes both tests just when it is legal.
pub Legal-cases :
    (t : String) → (Legal t × (is_illegal t ≡ false)) ⊎ ((¬ Legal t) × (is_illegal t ≡ true))
unfolding starts_with_slash
Legal-cases t = elim (Bool-cases (starts_with_slash t)) [
  | inl absolute ↦ elim (Bool-cases (has_dots t)) [
    | inl dots ↦ inr (λ l. l.1 (has_dots-Dots t dots), ground arith)
    | inr none ↦
        inl
          ((starts_with_slash_lem t absolute, λ d. ground (arith, Dots-has_dots t d)), ground arith)
  ]
  | inr relative ↦
      inr (λ l. let (c, s, e, slash) = l.0 in ground (arith, ap starts_with_slash e), ground arith)
]
