-- ===== src/Codegen/Enums.antt =====
-- `generateEnum` and `generateInterface` of src/codegen/generator.ts.
pub mod Laws
use typescript2cxx.Prelude.{
  Bool, true, false, not, List, [], ◌∷◌, ◌++◌, if◌then◌else◌, any, Text, txt,
}
use typescript2cxx.Codegen.Literal.{
  Number, Value, IrLiteral, string, number, number_string, to_string, is_truthy, is_string,
}
use typescript2cxx.Codegen.Nodes.{Expression, MaybeExpression, literal, absent, present}
use typescript2cxx.Codegen.Monad.{Reader, M, ◌>>=◌, pure}
use typescript2cxx.Codegen.Generate.{generate_expression}

-- The name and the initializer of each member.
abbrev pub EnumMembers : Type 0
EnumMembers = List (Text × MaybeExpression)

-- What the source file has of a member.
pub record Defined : Type 0 where
  pub name : Text
  pub value : Text
  pub is_string : Bool

-- `js::number(…)`
abbrev pub number_code : Text → Text
number_code s = txt "js::number(" ++ (s ++ txt ")")

-- Whether the initializer is a literal with a string.
abbrev pub has_string : MaybeExpression → Bool
has_string (present (literal lit)) = is_string lit.value
has_string _ = false

-- `literal.value || 0`
abbrev pub value_or_zero : Value → Text
value_or_zero v = if is_truthy v then to_string v else txt "0"

-- A line of a `const enum` in the header.
abbrev pub constant_line : Text → Text → Text
constant_line name value = txt "    constexpr int " ++ (name ++ (txt " = " ++ (value ++ txt ";\n")))

-- A line of another enum in the header.
abbrev pub declaration_line : Text → Bool → Text
declaration_line name true = txt "    extern const js::string " ++ (name ++ txt ";\n")
declaration_line name false = txt "    extern const js::number " ++ (name ++ txt ";\n")

unfoldable pub declaration_lines : EnumMembers → Text
declaration_lines [] = []
declaration_lines ((name, init) ∷ members) =
    declaration_line name (has_string init) ++ declaration_lines members

unfoldable pub has_numeric_members : EnumMembers → Bool
has_numeric_members [] = false
has_numeric_members ((name, init) ∷ members) =
    let rest = has_numeric_members members in if has_string init then rest else true

-- The declaration of the reverse mapping.
abbrev pub get_name_declaration : Bool → Text
get_name_declaration numeric =
    if numeric then txt "    js::string getName(js::number key);\n" else []

-- The header of an enum that is not `const`.
unfoldable pub enum_header : Text → EnumMembers → Text
unfolding declaration_lines has_numeric_members
enum_header name members =
    txt "// Enum "
    ++ (name
        ++ (txt "\nnamespace "
            ++ (name
                ++ (txt " {\n"
                    ++ (declaration_lines members
                        ++ (get_name_declaration (has_numeric_members members) ++ txt "}\n"))))))

-- The definition of a member in the source file.
abbrev pub definition_line : Text → Defined → Text
definition_line enum_name d =
    (if d.is_string then txt "const js::string " else txt "const js::number ")
    ++ (enum_name ++ (txt "::" ++ (d.name ++ (txt " = " ++ (d.value ++ txt ";\n")))))

abbrev pub definition_lines : Text → List Defined → Text
definition_lines enum_name [] = []
definition_lines enum_name (d ∷ ds) = definition_line enum_name d ++ definition_lines enum_name ds

-- The lines of the reverse mapping.
abbrev pub get_name_lines : List Defined → Text
get_name_lines [] = []
get_name_lines (d ∷ ds) =
    (if d.is_string
      then []
      else txt "    if (key.value() == "
        ++ (d.value ++ (txt ".value()) return \"" ++ (d.name ++ txt "\"_S;\n"))))
    ++ get_name_lines ds

unfoldable pub any_numeric : List Defined → Bool
any_numeric [] = false
any_numeric (d ∷ ds) = let rest = any_numeric ds in if d.is_string then rest else true

unfoldable pub get_name_definition : Text → List Defined → Text
unfolding any_numeric
get_name_definition enum_name ds =
    if any_numeric ds
    then txt "\njs::string "
      ++ (enum_name
          ++ (txt "::getName(js::number key) {\n"
              ++ (get_name_lines ds ++ txt "    return \"undefined\"_S;\n}\n")))
    else []

-- The source file of an enum that is not `const`.
abbrev pub enum_source : Text → List Defined → Text
enum_source name ds =
    txt "// Enum "
    ++ (name
        ++ (txt " implementation\n" ++ (definition_lines name ds ++ get_name_definition name ds)))

abbrev pub constant_header : Text → Text → Text
constant_header name lines =
    txt "// Const enum "
    ++ (name ++ (txt "\nnamespace " ++ (name ++ (txt " {\n" ++ (lines ++ txt "}\n")))))

-- The numbers 0 and `value + 1` are the language's.
module _ (zero : Number) (plus_one : Number → Number) where
  -- `currentValue` after a literal.
  abbrev pub value_after : Value → Number → Number
  value_after (number n) current = plus_one n
  value_after v current = current

  -- The loop over the members of a `const enum`, from `currentValue`. The field `raw` of a literal is
  -- `String(value)`.
  unfoldable pub constant_lines : EnumMembers → Number → Reader → M Text
  constant_lines [] current r = pure []
  constant_lines ((name, absent) ∷ members) current r = do
    lines ← constant_lines members (plus_one current) r
    pure (constant_line name (number_string current) ++ lines)
  constant_lines ((name, present (literal lit)) ∷ members) current r = do
    lines ← constant_lines members (value_after lit.value current) r
    pure (constant_line name (to_string lit.value) ++ lines)
  constant_lines ((name, present e) ∷ members) current r = do
    value ← generate_expression e r
    lines ← constant_lines members current r
    pure (constant_line name value ++ lines)

  -- The loop over the members of another enum in the source file, from `currentValue`.
  unfoldable pub define_members : EnumMembers → Number → Reader → M (List Defined)
  define_members [] current r = pure []
  define_members ((name, absent) ∷ members) current r = do
    ds ← define_members members (plus_one current) r
    pure (
        record { name = name; value = number_code (number_string current); is_string = false } ∷ ds)
  define_members ((name, present (literal lit)) ∷ members) current r = do
    ds ← define_members members (value_after lit.value current) r
    pure (
        record {
          name = name;
          value =
              if is_string lit.value
              then txt "\"" ++ (to_string lit.value ++ txt "\"_S")
              else number_code (value_or_zero lit.value);
          is_string = is_string lit.value;
        }
        ∷ ds)
  define_members ((name, present e) ∷ members) current r = do
    value ← generate_expression e r
    ds ← define_members members current r
    pure (record { name = name; value = value; is_string = false } ∷ ds)

  -- `generateEnum`
  unfoldable pub generate_enum : Text → Bool → EnumMembers → Reader → M Text
  unfolding constant_lines define_members enum_header get_name_definition
  generate_enum name is_const members r = elim r.is_header [
    | true ↦ elim is_const [
      | true ↦ do lines ← constant_lines members zero r; pure (constant_header name lines)
      | false ↦ pure (enum_header name members)
    ]
    | false ↦ elim is_const [
      | true ↦ pure []
      | false ↦ do ds ← define_members members zero r; pure (enum_source name ds)
    ]
  ]

-- `generateInterface`
unfoldable pub generate_interface : Text → Reader → Text
generate_interface name r =
    if r.is_header
    then txt "// Interface "
      ++ (name
          ++ (txt "\nclass I"
              ++ (name
                  ++ (txt " {\npublic:\n    virtual ~I"
                      ++ (name ++ txt "() = default;\n    // TODO: Interface members\n};")))))
    else []
