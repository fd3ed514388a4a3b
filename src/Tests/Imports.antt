-- ===== src/Tests/Imports.antt =====
-- The theorems on imports and calls of `super` in src/codegen/generator.ts at concrete inputs.
use typescript2cxx.Prelude.{◌≡◌, refl, true, false, some, none, [], txt, text_eq}
use typescript2cxx.Codegen.Literal.{nan}
use typescript2cxx.Codegen.Nodes.{
  Expression, Statements, identifier, call, expression_statement, no_code, end, next, nil,
}
use typescript2cxx.Codegen.Monad.{Reader, Generator}
use typescript2cxx.Codegen.Generate.{generate_statement}
use typescript2cxx.Codegen.Pieces.{is_super}
use typescript2cxx.Codegen.Supers.{super_call, find_super_constructor_call}
use typescript2cxx.Codegen.Supers.Laws.{Among, find_super_constructor_call-code}

abbrev reader : Reader
reader = record {
  names = record { user_namespaces = []; rest_param_mappings = [] };
  namespace_imports = [];
  current_class = none;
  current_base_class = none;
  is_header = true;
  is_async = false;
  show = λ n. txt "0";
  to_number = λ s. nan;
  to_lower_case = λ s. s;
  to_upper_case = λ s. s;
}

abbrev generator : Generator
generator = record { indent = 1; includes = []; temps = 0 }

-- `super();`, after a statement that makes no code.
abbrev super_of : Expression
super_of = call (identifier (record { name = txt "super"; cpp_name = none })) nil

abbrev constructor_body : Statements
constructor_body = next no_code (next (expression_statement super_of) end)

found : find_super_constructor_call constructor_body ≡ some super_of
unfolding find_super_constructor_call super_call is_super txt text_eq
found = refl

find_super_constructor_call-code_example :
    Among (expression_statement super_of) constructor_body
    × (generate_statement (expression_statement super_of) reader generator ≡ some ([], generator))
find_super_constructor_call-code_example =
    find_super_constructor_call-code constructor_body super_of reader generator found
