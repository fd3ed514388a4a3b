-- ===== src/Codegen/Operators.antt =====
-- The code of single expressions and statements in src/codegen/generator.ts, of the code of their
-- parts.
use typescript2cxx.Prelude.{
  ℕ, zero, suc, Bool, true, false, ◌&&◌, ◌||◌, not, Option, some, none, List, [], ◌∷◌, ◌++◌,
  if◌then◌else◌, Text, txt, text_eq, join, includes, split_lines, starts_with, map,
}
use typescript2cxx.Codegen.Literal.{Value, IrLiteral, string, number, boolean, to_string, escape}

abbrev pub paren : Text → Text
paren s = txt "(" ++ (s ++ txt ")")

-- `callee(arguments)`
abbrev pub call_code : Text → List Text → Text
call_code callee args = callee ++ paren (join (txt ", ") args)

-- The names of runtime types in `instanceof`.
unfoldable pub instance_name : Text → Text
instance_name right =
    if text_eq right (txt "js::array")
    then txt "Array"
    else if text_eq right (txt "js::string")
    then txt "String"
    else if text_eq right (txt "js::number")
    then txt "Number"
    else if text_eq right (txt "js::object")
    then txt "Object"
    else right

-- `generateBinary`; the include of `**` is added by the caller.
unfoldable pub binary_code : Text → Text → Text → Text
unfolding instance_name
binary_code operator left right =
    if text_eq operator (txt "===") || text_eq operator (txt "==")
    then paren (left ++ (txt " == " ++ right))
    else if text_eq operator (txt "!==") || text_eq operator (txt "!=")
    then (if text_eq right (txt "js::undefined")
        then left ++ txt ".has_value()"
        else paren (left ++ (txt " != " ++ right)))
    else if text_eq operator (txt "??")
    then paren (left ++ (txt ".has_value() ? " ++ (left ++ (txt " : " ++ right))))
    else if text_eq operator (txt "**")
    then txt "js::number"
      ++ paren (txt "std::pow" ++ paren (left ++ (txt ".value(), " ++ (right ++ txt ".value()"))))
    else if text_eq operator (txt "instanceof")
    then txt "js::instanceof_op"
      ++ paren (left ++ (txt ", " ++ (txt "\"" ++ (instance_name right ++ txt "\""))))
    else if text_eq operator (txt "in")
    then txt "js::in_op" ++ paren (left ++ (txt ", " ++ right))
    else paren (left ++ (txt " " ++ (operator ++ (txt " " ++ right))))

-- The end of `generateUnary`.
unfoldable pub prefix_code : Text → Bool → Text → Text
prefix_code operator true operand = operator ++ operand
prefix_code operator false operand = operand ++ operator

-- `generateUnary` but for `delete`.
unfoldable pub unary_code : Text → Bool → Text → Text
unfolding prefix_code
unary_code operator prefix operand =
    if text_eq operator (txt "typeof")
    then txt "js::typeof_op" ++ paren operand
    else if text_eq operator (txt "void")
    then paren (txt "void" ++ (paren operand ++ txt ", js::undefined"))
    else prefix_code operator prefix operand

-- `delete` of a member.
unfoldable pub delete_computed : Text → Text → Text
delete_computed object property =
    txt "js::delete_property" ++ paren (object ++ (txt ", js::toString" ++ paren property))

unfoldable pub delete_named : Text → Text → Text
delete_named object name =
    txt "js::delete_property" ++ paren (object ++ (txt ", \"" ++ (name ++ txt "\"")))

-- `generateOptionalChaining` of a member.
unfoldable pub optional_code : Bool → Text → Text → Text
optional_code true object property = paren (
    object
    ++ (txt " != nullptr ? "
        ++ (paren (txt "*" ++ object) ++ (txt "[" ++ (property ++ txt "] : js::undefined")))))
optional_code false object property = paren (
    object
    ++ (txt " != nullptr ? " ++ (object ++ (txt "->" ++ (property ++ txt " : js::undefined")))))

-- `generateAssignment`
unfoldable pub assignment_code : Text → Text → Text → Text
assignment_code operator left right =
    let assign = paren (left ++ (txt " = " ++ right)) in
    if text_eq operator (txt "&&=")
    then paren
        (txt "js::to_boolean" ++ (paren left ++ (txt " ? " ++ (assign ++ (txt " : " ++ left)))))
    else if text_eq operator (txt "||=")
    then paren
        (txt "js::to_boolean" ++ (paren left ++ (txt " ? " ++ (left ++ (txt " : " ++ assign)))))
    else if text_eq operator (txt "??=")
    then paren (
        txt "js::is_null_or_undefined"
        ++ (paren left ++ (txt " ? " ++ (assign ++ (txt " : " ++ left)))))
    else left ++ (txt " " ++ (operator ++ (txt " " ++ right)))

-- The literal of a text part, as in `generateLiteral`.
unfoldable pub text_part : IrLiteral → Text
text_part lit = txt "\"" ++ (escape (to_string lit.value) ++ txt "\"_S")

-- The end of `generateTemplateLiteral`, of the code of the parts.
unfoldable pub template_code : List Text → Text
template_code [] = txt "\"\"_S"
template_code (part ∷ []) = part
template_code (part ∷ q ∷ parts) = paren (join (txt " + ") (part ∷ q ∷ parts))

-- The element type that a literal shows.
abbrev pub value_type : Value → Option Text
value_type (number n) = some (txt "js::number")
value_type (string s) = some (txt "js::string")
value_type (boolean b) = some (txt "bool")
value_type _ = none

abbrev pub braces : Text → Text
braces s = txt "{" ++ (s ++ txt "}")

-- An array with no spread element.
unfoldable pub array_code : Text → List Text → Text
array_code element_type elements =
    txt "js::array<" ++ (element_type ++ (txt ">" ++ braces (join (txt ", ") elements)))

-- One round of the loop over the elements of an array with a spread one.
abbrev pub concat_array : Text → Text → Text
concat_array result arg = result ++ (txt ".concat" ++ paren arg)

abbrev pub concat_element : Text → Text → Text
concat_element result value = concat_array result (txt "js::array<js::any>" ++ braces value)

abbrev pub conditional_code : Text → Text → Text → Text
conditional_code test consequent alternate =
    paren (test ++ (txt " ? " ++ (consequent ++ (txt " : " ++ alternate))))

abbrev pub runtime_classes : List Text
runtime_classes =
    txt "js::Date"
    ∷ txt "js::RegExp"
    ∷ txt "js::Error"
    ∷ txt "js::TypeError"
    ∷ txt "js::ReferenceError"
    ∷ txt "js::SyntaxError"
    ∷ txt "js::RangeError"
    ∷ []

unfoldable pub new_code : Text → List Text → Text
new_code callee args =
    if includes runtime_classes callee
    then call_code callee args
    else call_code (txt "std::make_shared<" ++ (callee ++ txt ">")) args

-- The object literal: its start, the line of a property, and its end.
unfoldable pub object_code : Text → Text → Text
object_code name properties =
    txt "[]() "
    ++ (braces (
          txt "\n      js::object "
          ++ (name
              ++ (txt ";"
                  ++ (properties
                      ++ (txt "\n      return js::any" ++ (paren name ++ txt ";\n    "))))))
        ++ txt "()")

unfoldable pub property_code : Text → Text → Text → Text
property_code name key value =
    txt "\n      " ++ (name ++ (txt ".set" ++ (paren (key ++ (txt ", " ++ value)) ++ txt ";")))

-- The capture of a lambda.
abbrev pub capture_code : Option Text → Bool → Text
capture_code none is_arrow = txt "[]"
capture_code (some []) is_arrow = txt "[]"
capture_code (some (c ∷ s)) true = txt "[&]"
capture_code (some (c ∷ s)) false = txt "[=]"

abbrev pub lambda_head : Text → List Text → Text → Text
lambda_head capture params return_type = capture ++ (paren (join (txt ", ") params) ++ return_type)

-- `p.type || "js::any"`
abbrev pub type_or_any : Text → Text
type_or_any [] = txt "js::any"
type_or_any (c ∷ s) = c ∷ s

-- `" ".repeat(4 * n)`
unfoldable pub indent_text : ℕ → Text
indent_text zero = []
indent_text (suc n) = txt "    " ++ indent_text n

-- `line ? this.getIndent(context) + line : ""`
abbrev pub indent_line : ℕ → Text → Text
indent_line n [] = []
indent_line n (c ∷ s) = indent_text n ++ (c ∷ s)

-- The lines of the code of a statement, indented; none of the empty code.
unfoldable pub indented : ℕ → Text → List Text
indented n [] = []
indented n (c ∷ s) = map (indent_line n) (split_lines (c ∷ s))

-- Lines between the head of a statement and its closing brace.
unfoldable pub lines_code : Text → List Text → Text
lines_code head lines = join (txt "\n") (head ∷ (lines ++ (txt "}" ∷ [])))

-- A value that is of an async function or not.
unfoldable pub return_code : Bool → Option Text → Text
return_code true (some value) = txt "co_return " ++ (value ++ txt ";")
return_code false (some value) = txt "return " ++ (value ++ txt ";")
return_code true none = txt "co_return;"
return_code false none = txt "return;"

-- `if (label)`: an empty label counts as none.
unfoldable pub jump_code : Text → Text → Option Text → Text
jump_code word suffix none = word ++ txt ";"
jump_code word suffix (some []) = word ++ txt ";"
jump_code word suffix (some (c ∷ s)) = txt "goto " ++ ((c ∷ s) ++ (suffix ++ txt ";"))

-- `shouldBeConst`: the declaration or the assertion says so, and no mutable array is declared.
abbrev pub should_be_const : Bool → Bool → Text → Bool
should_be_const is_const assertion cpp_type =
    (is_const || assertion) && (not (starts_with cpp_type (txt "js::array")) || assertion)

abbrev pub const_code : Bool → Text
const_code true = txt "const "
const_code false = []

-- ` = ${…}`, or nothing without an initializer.
abbrev pub initializer_code : Option Text → Text
initializer_code none = []
initializer_code (some code) = txt " = " ++ code

unfoldable pub declarator_code : Bool → Bool → Text → Text → Option Text → Text
declarator_code true const cpp_type name init =
    txt "extern " ++ (const_code const ++ (cpp_type ++ (txt " " ++ (name ++ txt ";"))))
declarator_code false const cpp_type name init =
    const_code const ++ (cpp_type ++ (txt " " ++ (name ++ (initializer_code init ++ txt ";"))))
