-- ===== src/Codegen/Generate/Yields.antt =====
-- What holds of the result of a computation of the monad of src/codegen/generator.ts, if there is one.
use typescript2cxx.Prelude.{
  ◌≡◌, inl, inr, Bool, true, false, if◌then◌else◌, Option, some, none, Option-cases, Text, OfSome,
  arith,
}
use typescript2cxx.Codegen.Monad.{Generator, M, ◌>>=◌, pure, lift}

unfoldable pub Yields : {A : Type 0} → (A → Type 0) → M A → Type 0
Yields {A} P m = (g g' : Generator) (a : A) → m g ≡ some (a, g') → P a

some-inj :
    {A : Type 0} (a b : A) (g g' : Generator)
    → ◌≡◌ {A = Option (A × Generator)} (some (a, g)) (some (b, g'))
    → a ≡ b
some-inj a b g g' e = cc

pub Yields-pure : {A : Type 0} (P : A → Type 0) (a : A) → P a → Yields P (pure a)
unfolding Yields
Yields-pure P a h g g' b e = rw (← some-inj a b g g' e) h

pub Yields-bind :
    {A B : Type 0} {P : A → Type 0} (Q : B → Type 0) (m : M A) (k : A → M B)
    → Yields P m
    → ((a : A) → P a → Yields Q (k a))
    → Yields Q (m >>= k)
unfolding Yields
Yields-bind Q m k h hk g g'' b e = elim (Option-cases (m g)) [
  | inl f ↦ absurd (ground (arith, e, f))
  | inr ((a, g'), f) ↦ hk a (h g g' a f) g' g'' b (ground (arith, e, f))
]

pub Yields-lift : (P : Text → Type 0) (o : Option Text) → OfSome P o → Yields P (lift o)
unfolding Yields
Yields-lift P none h g g' b e = absurd (ground (arith, e))
Yields-lift P (some a) h g g' b e = rw (← some-inj a b g g' e) h

pub Yields-if :
    {A : Type 0} (P : A → Type 0) (b : Bool) (m n : M A)
    → Yields P m
    → Yields P n
    → Yields P (if b then m else n)
Yields-if P true m n h k = h
Yields-if P false m n h k = k

pub Yields-elim :
    {A : Type 0} (P : A → Type 0) (b : Bool) (m n : M A)
    → Yields P m
    → Yields P n
    → Yields P (elim b as (λ _. M A) [ true ↦ m | false ↦ n ])
Yields-elim P true m n h k = h
Yields-elim P false m n h k = k

abbrev pub Whatever : {A : Type 0} → A → Type 0
Whatever a = Unit {0}

pub Yields-Whatever : {A : Type 0} (m : M A) → Yields Whatever m
unfolding Yields
Yields-Whatever m g g' a e = tt

pub Yields-none : {A : Type 0} (P : A → Type 0) → Yields P (lift none)
unfolding Yields
Yields-none P g g' a e = absurd (ground (arith, e))
