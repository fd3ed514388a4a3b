-- ===== src/Codegen/Supers.antt =====
-- `findSuperConstructorCall` of src/codegen/generator.ts.
pub mod Laws
use typescript2cxx.Prelude.{
  ◌≡◌, refl, inl, inr, Bool, true, false, Bool-cases, Option, some, none, [], ◌++◌, Text, txt,
  text_eq, arith,
}
use typescript2cxx.Codegen.Nodes.{
  Expression, Expressions, Statement, Statements, call, expression_statement, end, next,
}
use typescript2cxx.Codegen.Monad.{Reader, Generator}
use typescript2cxx.Codegen.Pieces.{is_super, terminated}
use typescript2cxx.Codegen.Generate.{generate_expression, generate_statement}

-- A call of `super` that is a statement of its own.
unfoldable pub super_call : Statement → Option Expression
super_call (expression_statement (call callee args)) = elim (is_super callee) [
  | true ↦ some (call callee args)
  | false ↦ none
]
super_call _ = none

unfoldable pub find_super_constructor_call : Statements → Option Expression
unfolding super_call
find_super_constructor_call end = none
find_super_constructor_call (next s body) =
    let rest = find_super_constructor_call body in
    elim (super_call s) [ some c ↦ some c | none ↦ rest ]
