-- ===== src/Codegen/Identifier.antt =====
-- `generateIdentifier` of src/codegen/generator.ts.
pub mod Laws
use typescript2cxx.Prelude.{
  Bool, Option, some, none, List, [], ◌∷◌, ◌++◌, if◌then◌else◌, Text, txt, includes, lookup,
  PropertyValue, text_value, read,
}

-- The fields of an `IRIdentifier` that are read.
pub record IrIdentifier : Type 0 where
  pub name : Text
  pub cpp_name : Option Text

-- The fields of the `CodeGenContext` that are read; no mapping of rest parameters is an empty one.
pub record Context : Type 0 where
  pub user_namespaces : List Text
  pub rest_param_mappings : List (Text × Text)

unfoldable pub cpp_reserved_words : List Text
cpp_reserved_words =
    txt "alignas"
    ∷ txt "alignof"
    ∷ txt "and"
    ∷ txt "and_eq"
    ∷ txt "asm"
    ∷ txt "auto"
    ∷ txt "bitand"
    ∷ txt "bitor"
    ∷ txt "bool"
    ∷ txt "break"
    ∷ txt "case"
    ∷ txt "catch"
    ∷ txt "char"
    ∷ txt "char8_t"
    ∷ txt "char16_t"
    ∷ txt "char32_t"
    ∷ txt "class"
    ∷ txt "compl"
    ∷ txt "concept"
    ∷ txt "const"
    ∷ txt "consteval"
    ∷ txt "constexpr"
    ∷ txt "constinit"
    ∷ txt "const_cast"
    ∷ txt "continue"
    ∷ txt "co_await"
    ∷ txt "co_return"
    ∷ txt "co_yield"
    ∷ txt "decltype"
    ∷ txt "default"
    ∷ txt "delete"
    ∷ txt "do"
    ∷ txt "double"
    ∷ txt "dynamic_cast"
    ∷ txt "else"
    ∷ txt "enum"
    ∷ txt "explicit"
    ∷ txt "export"
    ∷ txt "extern"
    ∷ txt "false"
    ∷ txt "float"
    ∷ txt "for"
    ∷ txt "friend"
    ∷ txt "goto"
    ∷ txt "if"
    ∷ txt "inline"
    ∷ txt "int"
    ∷ txt "long"
    ∷ txt "mutable"
    ∷ txt "namespace"
    ∷ txt "new"
    ∷ txt "noexcept"
    ∷ txt "not"
    ∷ txt "not_eq"
    ∷ txt "nullptr"
    ∷ txt "operator"
    ∷ txt "or"
    ∷ txt "or_eq"
    ∷ txt "private"
    ∷ txt "protected"
    ∷ txt "public"
    ∷ txt "register"
    ∷ txt "reinterpret_cast"
    ∷ txt "requires"
    ∷ txt "return"
    ∷ txt "short"
    ∷ txt "signed"
    ∷ txt "sizeof"
    ∷ txt "static"
    ∷ txt "static_assert"
    ∷ txt "static_cast"
    ∷ txt "struct"
    ∷ txt "switch"
    ∷ txt "template"
    ∷ txt "this"
    ∷ txt "thread_local"
    ∷ txt "throw"
    ∷ txt "true"
    ∷ txt "try"
    ∷ txt "typedef"
    ∷ txt "typeid"
    ∷ txt "typename"
    ∷ txt "union"
    ∷ txt "unsigned"
    ∷ txt "using"
    ∷ txt "virtual"
    ∷ txt "void"
    ∷ txt "volatile"
    ∷ txt "wchar_t"
    ∷ txt "while"
    ∷ txt "xor"
    ∷ txt "xor_eq"
    ∷ []

unfoldable pub identifier_map : List (Text × Text)
identifier_map =
    (txt "console", txt "js::console")
    ∷ (txt "undefined", txt "js::undefined")
    ∷ (txt "null", txt "js::null")
    ∷ (txt "NaN", txt "js::number::NaN")
    ∷ (txt "Infinity", txt "js::number::POSITIVE_INFINITY")
    ∷ (txt "Math", txt "js::Math")
    ∷ (txt "Date", txt "js::Date")
    ∷ (txt "Object", txt "js::Object")
    ∷ (txt "RegExp", txt "js::RegExp")
    ∷ (txt "Error", txt "js::Error")
    ∷ (txt "TypeError", txt "js::TypeError")
    ∷ (txt "ReferenceError", txt "js::ReferenceError")
    ∷ (txt "SyntaxError", txt "js::SyntaxError")
    ∷ (txt "RangeError", txt "js::RangeError")
    ∷ (txt "EvalError", txt "js::EvalError")
    ∷ (txt "URIError", txt "js::URIError")
    ∷ (txt "AggregateError", txt "js::AggregateError")
    ∷ (txt "JSON", txt "js::JSON")
    ∷ (txt "parseInt", txt "js::parseInt")
    ∷ (txt "parseFloat", txt "js::parseFloat")
    ∷ (txt "isNaN", txt "js::isNaN")
    ∷ (txt "isFinite", txt "js::isFinite")
    ∷ (txt "encodeURI", txt "js::encodeURI")
    ∷ (txt "decodeURI", txt "js::decodeURI")
    ∷ (txt "encodeURIComponent", txt "js::encodeURIComponent")
    ∷ (txt "decodeURIComponent", txt "js::decodeURIComponent")
    ∷ (txt "Array", txt "js::array")
    ∷ []

-- `id.cppName || id.name`
abbrev pub cpp_name_or : Option Text → Text → Text
cpp_name_or none name = name
cpp_name_or (some []) name = name
cpp_name_or (some (c ∷ s)) name = c ∷ s

-- `cppReservedWords.has(name) ? `${name}_` : name`
unfoldable pub escape_reserved : Text → Text
escape_reserved name = if includes cpp_reserved_words name then name ++ txt "_" else name

-- What the runtime calls a name, unless the user has a namespace of that name: an entry of the table,
-- none of which is empty, or the function or object that the table inherits under that name.
unfoldable pub mapped_name : Context → Text → Option PropertyValue
mapped_name context name =
    if includes context.user_namespaces name then none else read name identifier_map

-- `generateIdentifier`, whose result is a function or an object for an inherited name.
unfoldable pub generate_identifier : IrIdentifier → Context → PropertyValue
unfolding mapped_name escape_reserved
generate_identifier id context = elim (mapped_name context id.name) [
  | some mapped ↦ mapped
  | none ↦ text_value (elim (lookup id.name context.rest_param_mappings) [
    | some array ↦ array
    | none ↦ escape_reserved (cpp_name_or id.cpp_name id.name)
  ])
]
