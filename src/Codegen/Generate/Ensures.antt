-- ===== src/Codegen/Generate/Ensures.antt =====
-- Computations of the monad of src/codegen/generator.ts that always give a result, which satisfies a
-- predicate, and that leave the indentation as they found it.
use typescript2cxx.Prelude.{
  ℕ, suc, ◌+◌, ◌-◌, ◌≤◌, ◌≡◌, refl, Bool, true, false, if◌then◌else◌, Option, some, List, [], ◌∷◌,
  ◌++◌, Text, append-nil, append_assoc, arith, includes,
}
use typescript2cxx.Codegen.Monad.{
  Generator, M, ◌>>=◌, ◌>>◌, pure, lift, deeper, shallower, get_indent, add_include, next_temp,
}

-- The state after a computation: the same indentation, the includes with more behind them, and a
-- counter that has not gone back.
pub record Stays (g g' : Generator) : Type 0 where
  pub same_indent : g'.indent ≡ g.indent
  pub more_includes : (more : List Text) × (g'.includes ≡ g.includes ++ more)
  pub no_fewer_temps : g.temps ≤ g'.temps

pub Stays_refl : (g : Generator) → Stays g g
Stays_refl g = record {
  same_indent = refl;
  more_includes = ([], rw (append-nil g.includes) refl);
  no_fewer_temps = omega arith;
}

pub Stays_trans : {g h k : Generator} → Stays g h → Stays h k → Stays g k
Stays_trans {g} {h} {k} s t = record {
  same_indent = rw (t.same_indent) s.same_indent;
  more_includes = (
    s.more_includes.0 ++ t.more_includes.0,
    rw (t.more_includes.1, s.more_includes.1)
        (append_assoc g.includes s.more_includes.0 t.more_includes.0),
  );
  no_fewer_temps = omega (arith, s.no_fewer_temps, t.no_fewer_temps);
}

unfoldable pub Ensures : {A : Type 0} → (A → Type 0) → M A → Type 0
Ensures {A} P m =
    (g : Generator) → (a : A) × (g' : Generator) × (m g ≡ some (a, g')) × Stays g g' × P a

pub Ensures-pure : {A : Type 0} (P : A → Type 0) (a : A) → P a → Ensures P (pure a)
unfolding Ensures
Ensures-pure P a h g = (a, g, refl, Stays_refl g, h)

pub Ensures-bind :
    {A B : Type 0} {P : A → Type 0} (Q : B → Type 0) (m : M A) (k : A → M B)
    → Ensures P m
    → ((a : A) → P a → Ensures Q (k a))
    → Ensures Q (m >>= k)
unfolding Ensures
Ensures-bind Q m k h hk g =
    let (a, g', e, s, p) = h g in
    let (b, g'', e', s', q) = hk a p g' in (b, g'', rw (◌>>=◌, e) e', Stays_trans s s', q)

-- Whatever the result.
abbrev pub Any : {A : Type 0} → A → Type 0
Any a = Unit {0}

pub forget : {A : Type 0} (P : A → Type 0) (m : M A) → Ensures P m → Ensures Any m
unfolding Ensures
forget P m h g = let (a, g', e, s, p) = h g in (a, g', e, s, tt)

pub Ensures-lift :
    {A : Type 0} (P : A → Type 0) (o : Option A)
    → ((a : A) × (o ≡ some a) × P a)
    → Ensures P (lift o)
unfolding Ensures
Ensures-lift P o (a, e, p) g = (a, g, rw e refl, Stays_refl g, p)

pub Ensures-if :
    {A : Type 0} (P : A → Type 0) (b : Bool) (m n : M A)
    → Ensures P m
    → Ensures P n
    → Ensures P (if b then m else n)
Ensures-if P true m n h k = h
Ensures-if P false m n h k = k

pub Ensures-elim :
    {A : Type 0} (P : A → Type 0) (b : Bool) (m n : M A)
    → (b ≡ true → Ensures P m)
    → (b ≡ false → Ensures P n)
    → Ensures P (elim b as (λ _. M A) [ true ↦ m | false ↦ n ])
Ensures-elim P true m n h k = h refl
Ensures-elim P false m n h k = k refl

pub Ensures-next_temp : Ensures (λ n. Unit {0}) next_temp
unfolding Ensures next_temp
Ensures-next_temp g = (
  g.temps,
  record g { temps = suc g.temps },
  refl,
  record {
    same_indent = refl;
    more_includes = ([], rw (append-nil g.includes) refl);
    no_fewer_temps = omega arith;
  },
  tt,
)

pub Ensures-get_indent : Ensures (λ n. Unit {0}) get_indent
unfolding Ensures get_indent
Ensures-get_indent g = (g.indent, g, refl, Stays_refl g, tt)

more :
    (b : Bool) (xs : List Text) (x : Text)
    → (ys : List Text) × ((if b then xs else xs ++ (x ∷ [])) ≡ xs ++ ys)
more true xs x = ([], rw (append-nil xs) refl)
more false xs x = (x ∷ [], refl)

pub Ensures-add_include : (file : Text) → Ensures (λ u. Unit {0}) (add_include file)
unfolding Ensures add_include
Ensures-add_include file g = (
  tt,
  _,
  refl,
  record {
    same_indent = refl;
    more_includes = more (includes g.includes file) g.includes file;
    no_fewer_temps = omega arith;
  },
  tt,
)

-- The state of a part one level deeper, back at its level.
out :
    {g g' : Generator}
    → Stays (record g { indent = g.indent + 1 }) g'
    → Stays g (record g' { indent = g'.indent - 1 })
out s = record {
  same_indent = omega (arith, s.same_indent);
  more_includes = s.more_includes;
  no_fewer_temps = s.no_fewer_temps;
}

-- A part that is one level deeper.
pub Ensures-deeper :
    {A B : Type 0} {P : A → Type 0} (Q : B → Type 0) (m : M A) (k : A → M B)
    → Ensures P m
    → ((a : A) → P a → Ensures Q (k a))
    → Ensures Q (deeper >> (m >>= λ a. shallower >> k a))
unfolding Ensures deeper shallower
Ensures-deeper Q m k h hk g =
    let (a, g', e, s, p) = h (record g { indent = g.indent + 1 }) in
    let (b, g'', e', s', q) = hk a p (record g' { indent = g'.indent - 1 }) in
    (b, g'', rw (◌>>=◌, e) e', Stays_trans (out s) s', q)

-- The same where the indentation is read on the way.
pub Ensures-deeper_indent :
    {A B : Type 0} {P : A → Type 0} (Q : B → Type 0) (m : M A) (k : A → ℕ → B)
    → Ensures P m
    → ((a : A) (n : ℕ) → P a → Q (k a n))
    → Ensures Q (deeper >> (m >>= λ a. get_indent >>= λ n. shallower >> pure (k a n)))
unfolding Ensures deeper shallower get_indent
Ensures-deeper_indent Q m k h hk g =
    let (a, g', e, s, p) = h (record g { indent = g.indent + 1 }) in
    (
      k a g'.indent,
      record g' { indent = g'.indent - 1 },
      rw (◌>>=◌, e) refl,
      out s,
      hk a g'.indent p,
    )

pub Ensures-deeper_twice :
    {A B C : Type 0} {P : A → Type 0} {P' : B → Type 0} (Q : C → Type 0) (m : M A) (m' : M B)
    (k : A → ℕ → B → C)
    → Ensures P m
    → Ensures P' m'
    → ((a : A) (n : ℕ) (b : B) → P a → P' b → Q (k a n b))
    → Ensures Q (deeper >> (m >>= λ a. get_indent >>= λ n. m' >>= λ b. shallower >> pure (k a n b)))
unfolding Ensures deeper shallower get_indent
Ensures-deeper_twice Q m m' k h h' hk g =
    let (a, g', e, s, p) = h (record g { indent = g.indent + 1 }) in
    let (b, g'', e', s', p') = h' g' in
    (
      k a g'.indent b,
      record g'' { indent = g''.indent - 1 },
      rw (◌>>=◌, e, e') refl,
      out (Stays_trans s s'),
      hk a g'.indent b p p',
    )
