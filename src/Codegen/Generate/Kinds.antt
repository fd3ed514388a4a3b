-- ===== src/Codegen/Generate/Kinds.antt =====
-- What single kinds of expressions and statements do in `generateExpression` and `generateStatement`
-- of src/codegen/generator.ts.
use typescript2cxx.Prelude.{
  suc, ◌≡◌, ◌+◌, ◌<◌, refl, inl, inr, true, false, Option-cases, none, some, [], ◌∷◌, ◌++◌, Text,
  txt, arith, All, text_eq, lookup, printed, Bool, Option, false,
}
use typescript2cxx.Codegen.Identifier.{generate_identifier, IrIdentifier, identifier_map}
use typescript2cxx.Codegen.Nodes.{
  Expression, Expressions, Properties, Statement, LoopVariable, identifier, unary, call, member,
  object_expression, for_in,
}
use typescript2cxx.Codegen.Monad.{Reader, Generator, ◌>>=◌, deeper, get_indent, next_temp}
use typescript2cxx.Codegen.Operators.{lines_code, indent_text, unary_code, prefix_code, object_code}
use typescript2cxx.Codegen.Member.Access.{named_access, first_is_upper}
use typescript2cxx.Codegen.Pieces.{
  for_in_head, for_in_line, is_super, property_text, loop_identifier,
}
use typescript2cxx.Codegen.Regular.{
  IsNonempty, RegularExpression, RegularProperties, RegularStatement,
}
use typescript2cxx.Codegen.Generate.{
  generate_access, generate_expression, generate_properties, generate_statement,
}
use typescript2cxx.Codegen.Generate.Ensures.{Ensures}
use typescript2cxx.Codegen.Generate.Steps.{one_deeper-Ensures}
use typescript2cxx.Codegen.Generate.Total.{expression, statement, entries}

-- `-(-e)` comes out as `--e` does: the two units of code are joined with nothing between them.
pub double_minus :
    (e : Expression) (r : Reader) (g : Generator)
    → generate_expression (unary (txt "-") true (unary (txt "-") true e)) r g
      ≡ generate_expression (unary (txt "--") true e) r g
unfolding generate_expression unary_code prefix_code text_eq txt
double_minus e r g = elim (Option-cases (generate_expression e r g)) [
  | inl h ↦ ground (arith, h)
  | inr ((code, g'), h) ↦ ground (arith, h)
]

-- A property of what a call of `super` comes out as is a `TypeError`: the call has no code, and the
-- first unit of the empty text has no `toUpperCase`; if no import maps the empty name to a namespace.
pub super_member-none :
    (args : Expressions) (id : IrIdentifier) (r : Reader) (g : Generator)
    → lookup [] r.namespace_imports ≡ none
    → generate_expression
        (member
          (call (identifier (record { name = txt "super"; cpp_name = none })) args)
          (identifier id)
          false)
        r
        g
      ≡ none
unfolding generate_expression generate_access is_super property_text named_access first_is_upper
    text_eq txt
super_member-none args id r g h = rw (generate_access, h) refl

read_own : Text → Option Text
read_own name = lookup name identifier_map

is_missing : Option Text → Bool
is_missing none = true
is_missing (some t) = false

module _ (r : Reader) (mapped : All (λ p. IsNonempty p.1) r.names.rest_param_mappings) where
  -- An object literal of regular properties (see Regular) takes the next name, and what it holds takes
  -- later ones; if no rest parameter is mapped to the empty name.
  pub object_expression-names :
      (ps : Properties)
      → RegularProperties ps
      → (g : Generator)
      → (lines : Text) × (g' : Generator) × (generate_expression (object_expression ps) r g
          ≡ some (object_code (txt "obj_temp_" ++ r.show g.temps) lines, g'))
        × (generate_properties ps
              (txt "obj_temp_" ++ r.show g.temps)
              r
              (record g { temps = suc g.temps })
            ≡ some (lines, g'))
        × (g.temps < g'.temps)
  unfolding generate_expression next_temp Ensures
  object_expression-names ps h g =
      let (lines, g', e, s, _) =
        entries r mapped ps (txt "obj_temp_" ++ r.show g.temps) h
          (record g { temps = suc g.temps }) in
      (lines, g', rw e refl, e, omega (arith, s.no_fewer_temps))

  -- A `for … in` loop over a regular right side with a regular body (see Regular) leaves the code after
  -- it one level deeper than the code before it; if no rest parameter is mapped to the empty name.
  pub for_in-indent :
      (left : LoopVariable) (right : Expression) (body : Statement)
      → RegularExpression right
      → RegularStatement body
      → (g : Generator)
      → (code : Text) × (g' : Generator) × (generate_statement (for_in left right body) r g
          ≡ some (code, g'))
        × (g'.indent ≡ suc g.indent)
  unfolding generate_statement Ensures deeper get_indent
  for_in-indent left right body h k g =
      let (o, g', e, s, _) = expression r mapped right h g in
      let (lines, g'', e', s', _) =
        one_deeper-Ensures _ (statement r mapped body k) (record g' { indent = g'.indent + 1 }) in
      (
        lines_code (for_in_head (printed (generate_identifier (loop_identifier left) r.names)) o) (
            (indent_text (g'.indent + 1)
              ++ for_in_line (printed (generate_identifier (loop_identifier left) r.names)))
            ∷ lines),
        g'',
        rw (◌>>=◌, e, e') refl,
        omega (arith, s.same_indent, s'.same_indent),
      )
