-- ===== src/Tests/TypeChecker.antt =====
-- The theorems on src/type-checker/simple-checker.ts at concrete inputs.
use typescript2cxx.Prelude.{◌≡◌, refl, some, txt, text_eq, inherited}
use typescript2cxx.Prelude.Brackets.{IsBalanced}
use typescript2cxx.TypeChecker.Nodes.{
  TypeNode, TypeName, nil, cons, absent, present, no_params, param, keyword, string, number,
  array_type, union_type, function_type, type_reference,
}
use typescript2cxx.TypeChecker.Cpp.{map_to_cpp_type}
use typescript2cxx.TypeChecker.Cpp.Balanced.{Names, map_to_cpp_type-IsBalanced}
use typescript2cxx.TypeChecker.Cpp.Union.{map_to_cpp_type-union_comm}

abbrev map_name : TypeName
unfolding inherited txt text_eq
map_name = record { text = txt "Map"; own = refl }

-- `(a: Map<string>, b) => number[]`
abbrev callback : TypeNode
callback =
    function_type
      (param (present (type_reference (some map_name) (cons (keyword string) nil)))
        (param absent no_params))
      (present (array_type (keyword number)))

map_to_cpp_type-IsBalanced_example : IsBalanced (map_to_cpp_type callback)
unfolding Names txt map_name
map_to_cpp_type-IsBalanced_example =
    map_to_cpp_type-IsBalanced callback ((((refl, (refl, (refl, tt))), (tt, tt)), (tt, tt)), tt)

map_to_cpp_type-union_comm_example :
    map_to_cpp_type (union_type (cons (keyword string) (cons (array_type (keyword number)) nil)))
    ≡ map_to_cpp_type (union_type (cons (array_type (keyword number)) (cons (keyword string) nil)))
map_to_cpp_type-union_comm_example =
    map_to_cpp_type-union_comm (keyword string) (array_type (keyword number))
