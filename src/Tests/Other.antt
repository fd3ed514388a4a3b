-- ===== src/Tests/Other.antt =====
-- The theorems on the guards of src/ir/ and src/codegen/generator.ts and on src/errors.ts at concrete inputs.
use typescript2cxx.Prelude.{
  all, ◌≡◌, refl, true, not, ◌&&◌, some, none, List, [], ◌∷◌, ◌++◌, map, any, txt, split_lines,
}
use typescript2cxx.Ir.Kind.{IrNodeKind}
use typescript2cxx.Ir.Node.{IrNode}
use typescript2cxx.Ir.Guards.{is_ir_statement, is_ir_expression}
use typescript2cxx.Ir.Interfaces.{
  extends, is_member_kind, is_expression, is_statement, unknown_expression, unknown_declaration,
  is_ir_expression-exact, is_ir_statement-exact,
}
use typescript2cxx.Errors.{
  TranspilerError, ErrorReporter, ShowsNumbers, parse_error, code_gen_error, new_reporter,
  get_errors, get_warnings, has_errors, to_string, format_errors,
}
use typescript2cxx.Errors.Laws.{
  Call, on_error, on_warning, on_clear, calls, reported, warned, is_error, calls-clear,
  format_errors-lines,
}

abbrev node_of : IrNodeKind → IrNode
node_of k = record {
  kind = k;
  is_async = none;
  is_generator = none;
  is_exported = none;
  decorators = none;
}

abbrev move : IrNode
move = node_of IrNodeKind.move_expression

is_ir_expression-exact_example :
    is_ir_expression move
    ≡ (any is_expression (extends move.kind) && not (unknown_expression move.kind))
is_ir_expression-exact_example = is_ir_expression-exact move

abbrev import_node : IrNode
import_node = node_of IrNodeKind.import_declaration

is_ir_statement-exact_example :
    (is_ir_statement import_node
      ≡ (any is_statement (extends import_node.kind) && not (unknown_declaration import_node.kind)))
    × ((is_ir_statement import_node && not (all is_statement (extends import_node.kind)))
        ≡ is_member_kind import_node.kind)
is_ir_statement-exact_example = is_ir_statement-exact import_node

abbrev loop : IrNode
loop = node_of IrNodeKind.for_of_statement

abbrev alias : IrNode
alias = node_of IrNodeKind.type_alias_declaration

abbrev failure : TranspilerError
unfolding parse_error
failure = parse_error (txt "bad") (some (record { file = txt "a.ts"; line = 3; column = 1 }))

abbrev after : List Call
after = on_warning failure ∷ on_error failure ∷ []

calls-clear_example :
    let r = calls ((on_error failure ∷ []) ++ on_clear ∷ after) new_reporter in
    (get_errors r ≡ reported after)
    × ((get_warnings r ≡ warned after) × (has_errors r ≡ any is_error after))
calls-clear_example = calls-clear (on_error failure ∷ []) after refl

-- One digit for every number.
abbrev show_one : ShowsNumbers
show_one n = txt "1"

abbrev reporter : ErrorReporter
reporter = record { errors = code_gen_error (txt "x") none ∷ []; warnings = [] }

some_error : has_errors reporter ≡ true
unfolding has_errors
some_error = refl

format_errors-lines_example :
    split_lines (format_errors show_one reporter) ≡ map (to_string show_one) reporter.errors
unfolding to_string code_gen_error txt
format_errors-lines_example = format_errors-lines show_one reporter some_error (
  (
    refl,
    (
      refl,
      (
        refl,
        (
          refl,
          (
            refl,
            (
              refl,
              (refl, (refl, (refl, (refl, (refl, (refl, (refl, (refl, (refl, (refl, tt)))))))))),
            ),
          ),
        ),
      ),
    ),
  ),
  tt,
)
