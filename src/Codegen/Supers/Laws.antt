-- ===== src/Codegen/Supers/Laws.antt =====
-- What `findSuperConstructorCall` of src/codegen/generator.ts finds has no code.
use typescript2cxx.Prelude.{
  ◌≡◌, refl, ◌⊎◌, inl, inr, Bool, true, false, Bool-cases, some, Option-cases, [], Text, arith, ap,
  sym,
}
use typescript2cxx.Codegen.Nodes.{
  Expression, Expressions, Statement, Statements, call, expression_statement, end, next,
}
use typescript2cxx.Codegen.Monad.{Reader, Generator, M, ◌>>=◌}
use typescript2cxx.Codegen.Pieces.{is_super, terminated}
use typescript2cxx.Codegen.Generate.{generate_expression, generate_statement}
use typescript2cxx.Codegen.Supers.{super_call, find_super_constructor_call}

-- The statements of a body.
abbrev pub Among : Statement → Statements → Type 0
Among s end = ⊥
Among s (next t body) = (s ≡ t) ⊎ Among s body

-- The statement makes no code and changes nothing.
abbrev pub MakesNothing : Statement → Type 0
MakesNothing s = (r : Reader) (g : Generator) → generate_statement s r g ≡ some ([], g)

chosen :
    (b : Bool) (m n : M Text) (g : Generator)
    → b ≡ true
    → elim b as (λ _. M Text) [ true ↦ m | false ↦ n ] g ≡ m g
chosen true m n g h = refl
chosen false m n g h = absurd (ground (arith, h))

no_code_of_super :
    (callee : Expression) (args : Expressions) (r : Reader) (g : Generator)
    → is_super callee ≡ true
    → generate_expression (call callee args) r g ≡ some ([], g)
unfolding generate_expression
no_code_of_super callee args r g h = chosen (is_super callee) _ _ g h

super-MakesNothing :
    (callee : Expression) (args : Expressions)
    → is_super callee ≡ true
    → MakesNothing (expression_statement (call callee args))
unfolding generate_statement terminated
super-MakesNothing callee args h r g = rw (◌>>=◌, no_code_of_super callee args r g h) refl

super_call-MakesNothing :
    (s : Statement) (c : Expression)
    → super_call s ≡ some c
    → (expression_statement c ≡ s) × MakesNothing (expression_statement c)
unfolding super_call
super_call-MakesNothing (expression_statement (call callee args)) c e =
    elim (Bool-cases (is_super callee)) [
      | inl h ↦
          let same : call callee args ≡ c = ground (arith, e, h) in
          (ap expression_statement (sym same), rw (← same) (super-MakesNothing callee args h))
      | inr h ↦ absurd (ground (arith, e, h))
    ]
super_call-MakesNothing _ c e = absurd (ground (arith, e))

found_call :
    (body : Statements) (c : Expression)
    → find_super_constructor_call body ≡ some c
    → Among (expression_statement c) body × MakesNothing (expression_statement c)
unfolding find_super_constructor_call
found_call end c e = absurd (ground (arith, e))
found_call (next t body) c e = elim (Option-cases (super_call t)) [
  | inl h ↦ let (a, m) = found_call body c (ground (arith, e, h)) in (inr a, m)
  | inr (d, h) ↦
      let same : d ≡ c = ground (arith, e, h) in
      let (a, m) = super_call-MakesNothing t d h in (inl (rw (← same) a), rw (← same) m)
]

-- A call that is found is a statement of the body, and that statement makes no code and changes
-- nothing.
pub find_super_constructor_call-code :
    (body : Statements) (c : Expression) (r : Reader) (g : Generator)
    → find_super_constructor_call body ≡ some c
    → Among (expression_statement c) body
      × (generate_statement (expression_statement c) r g ≡ some ([], g))
find_super_constructor_call-code body c r g e = let (a, m) = found_call body c e in (a, m r g)
