-- ===== src/Codegen/Infer.antt =====
-- `inferTypeFromInitializer` and `inferExpressionType` of src/codegen/generator.ts, but for the
-- branch that makes code, and the element type of `generateArray`.
use typescript2cxx.Prelude.{
  ◌||◌, Option, some, none, List, [], ◌∷◌, ◌++◌, if◌then◌else◌, Text, txt, text_eq, includes,
}
use typescript2cxx.Codegen.Nodes.{Expression, Expressions, literal, binary, array, nil, hole, cons}
use typescript2cxx.Codegen.Operators.{value_type}
use typescript2cxx.Codegen.CppType.{map_type_text}
use typescript2cxx.Codegen.Pointers.{is_primitive}

abbrev pub type_or : Option Text → Text → Text
type_or none other = other
type_or (some t) other = t

-- The first literal whose value shows a type.
unfoldable pub element_type : Expressions → Text
element_type nil = txt "js::any"
element_type (hole es) = element_type es
element_type (cons (literal lit) es) = type_or (value_type lit.value) (element_type es)
element_type (cons e es) = element_type es

abbrev pub arithmetic : List Text
arithmetic = txt "-" ∷ txt "*" ∷ txt "/" ∷ txt "%" ∷ []

abbrev pub comparisons : List Text
comparisons =
    txt "==" ∷ txt "!=" ∷ txt "===" ∷ txt "!==" ∷ txt "<" ∷ txt ">" ∷ txt "<=" ∷ txt ">=" ∷ []

-- The type of a binary expression, of those of its operands.
unfoldable pub operator_type : Text → Text → Text → Text
operator_type operator left right =
    if text_eq operator (txt "+")
    then (if text_eq left (txt "js::string") || text_eq right (txt "js::string")
        then txt "js::string"
        else txt "js::number")
    else if includes arithmetic operator
    then txt "js::number"
    else if includes comparisons operator
    then txt "bool"
    else txt "js::any"

unfoldable pub infer_expression_type : Expression → Text
unfolding operator_type
infer_expression_type (literal lit) = type_or (value_type lit.value) (txt "js::any")
infer_expression_type (binary operator left right) =
    operator_type operator (infer_expression_type left) (infer_expression_type right)
infer_expression_type _ = txt "js::any"

-- `lit.cppType || "auto"`
abbrev pub type_or_auto : Option Text → Text
type_or_auto none = txt "auto"
type_or_auto (some []) = txt "auto"
type_or_auto (some (c ∷ s)) = c ∷ s

-- The type of a `new` expression, of the code of the class.
unfoldable pub class_type : Text → Text
class_type name = if is_primitive name then name else txt "std::shared_ptr<" ++ (name ++ txt ">")

unfoldable pub infer_type : Expression → Option Text
unfolding element_type infer_expression_type
infer_type (literal lit) = map_type_text (type_or_auto lit.cpp_type)
infer_type (array nil) = some (txt "js::array<js::any>")
infer_type (array (hole es)) = some (txt "js::array<" ++ (element_type es ++ txt ">"))
infer_type (array (cons e es)) = some (txt "js::array<" ++ (element_type (cons e es) ++ txt ">"))
infer_type (binary operator left right) =
    some (operator_type operator (infer_expression_type left) (infer_expression_type right))
infer_type _ = some (txt "js::any")
