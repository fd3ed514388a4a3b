-- ===== src/Codegen/Member/Access.antt =====
-- The code of a member access in `generateMember` of src/codegen/generator.ts, of the code of the
-- object and the text of the property.
use typescript2cxx.Prelude.{
  Bool, ◌&&◌, not, Option, some, none, List, [], ◌∷◌, ◌++◌, if◌then◌else◌, Text, txt, text_eq,
  includes, starts_with, ends_with,
}
use typescript2cxx.Codegen.CppType.{has_part}
use typescript2cxx.Codegen.Member.{
  is_enum_name, is_known_static_type, is_smart_pointer_variable, match_function, clean_property,
}

-- `object.property`, `object->property`, `object::property` and `object[property]`.
abbrev pub dot : Text → Text → Text
dot object property = object ++ (txt "." ++ property)

abbrev pub arrow : Text → Text → Text
arrow object property = object ++ (txt "->" ++ property)

abbrev pub scope : Text → Text → Text
scope object property = object ++ (txt "::" ++ property)

abbrev pub index : Text → Text → Text
index object property = object ++ (txt "[" ++ (property ++ txt "]"))

-- A match of one of the expressions for malformed method names, or what else is done.
abbrev pub dot_match : Text → Option Text → Text → Text
dot_match object (some method) other = dot object method
dot_match object none other = other

-- A computed access, of an object and a property that are texts.
unfoldable pub computed_access : (Text → Text) → Text → Text → Text
computed_access to_lower_case object property =
    if is_enum_name object
      && not (starts_with object (txt "js::"))
      && not (is_known_static_type object)
    then object ++ (txt "::getName(" ++ (property ++ txt ")"))
    else if text_eq property (txt "\"function toString() { [native code] }\"")
    then object ++ txt ".toString"
    else dot_match object (match_function (txt "\"function") property) (
        if is_smart_pointer_variable to_lower_case object
        then arrow object (clean_property property)
        else index object property)

abbrev pub array_methods : List Text
array_methods =
    txt "map"
    ∷ txt "filter"
    ∷ txt "reduce"
    ∷ txt "push"
    ∷ txt "pop"
    ∷ txt "length"
    ∷ txt "empty"
    ∷ txt "forEach"
    ∷ txt "find"
    ∷ txt "findIndex"
    ∷ txt "some"
    ∷ txt "every"
    ∷ txt "includes"
    ∷ txt "concat"
    ∷ txt "slice"
    ∷ txt "join"
    ∷ []

abbrev pub string_methods : List Text
string_methods =
    txt "length"
    ∷ txt "charAt"
    ∷ txt "trim"
    ∷ txt "toUpperCase"
    ∷ txt "toLowerCase"
    ∷ txt "includes"
    ∷ txt "substring"
    ∷ txt "substr"
    ∷ txt "slice"
    ∷ txt "indexOf"
    ∷ txt "lastIndexOf"
    ∷ txt "split"
    ∷ txt "replace"
    ∷ txt "match"
    ∷ []

abbrev pub error_methods : List Text
error_methods = txt "toString" ∷ txt "getMessage" ∷ txt "getName" ∷ txt "getErrors" ∷ []

abbrev pub date_methods : List Text
date_methods =
    txt "toString"
    ∷ txt "getFullYear"
    ∷ txt "getMonth"
    ∷ txt "getDate"
    ∷ txt "getHours"
    ∷ txt "getMinutes"
    ∷ txt "getSeconds"
    ∷ txt "getMilliseconds"
    ∷ txt "getTime"
    ∷ txt "setFullYear"
    ∷ txt "setMonth"
    ∷ txt "setDate"
    ∷ txt "setHours"
    ∷ txt "setMinutes"
    ∷ txt "setSeconds"
    ∷ txt "setMilliseconds"
    ∷ txt "toISOString"
    ∷ txt "toDateString"
    ∷ txt "toTimeString"
    ∷ []

abbrev pub static_classes : List Text
static_classes = txt "js::Math" ∷ txt "js::Date" ∷ txt "js::Object" ∷ txt "js::JSON" ∷ []

-- `length` is called, the other methods are named.
abbrev pub method_access : Text → Text → Text
method_access object property =
    if text_eq property (txt "length") then object ++ txt ".length()" else dot object property

-- The branches from the malformed method names on.
unfoldable pub value_access : (Text → Text) → Text → Text → Text
value_access to_lower_case object property =
    let smart = is_smart_pointer_variable to_lower_case object in
    dot_match object (match_function (txt "function") property) (
      if includes error_methods property
      then (if smart then arrow object property else dot object property)
      else if includes date_methods property
      then dot object property
      else if smart
      then arrow object property
      else if not (is_known_static_type object)
      then object ++ (txt "[\"" ++ (property ++ txt "\"]"))
      else dot object property)

-- `object[0] === object[0].toUpperCase()`; the first unit of the empty text is `undefined`, and the
-- call throws.
unfoldable pub first_is_upper : (Text → Text) → Text → Option Bool
first_is_upper to_upper_case [] = none
first_is_upper to_upper_case (c ∷ s) = some (text_eq (c ∷ []) (to_upper_case (c ∷ [])))

-- The branches after the test of the first unit, of its result.
unfoldable pub instance_access : (Text → Text) → Bool → Text → Text → Text
unfolding value_access
instance_access to_lower_case upper object property =
    if upper
      && not (has_part (txt "->") object)
      && not (has_part (txt ".") object)
      && not (starts_with object (txt "js::"))
    then scope object property
    else if starts_with object (txt "js::")
        && not (has_part (txt "->") object)
        && not (has_part (txt ".") object)
    then (if includes static_classes object then scope object property else dot object property)
    else if starts_with property (txt "\"") && ends_with property (txt "\"")
    then index object property
    else if includes array_methods property
    then method_access object property
    else if includes string_methods property
    then method_access object property
    else value_access to_lower_case object property

-- `context.currentBaseClass || "BaseClass"`
abbrev pub base_class : Option Text → Text
base_class none = txt "BaseClass"
base_class (some []) = txt "BaseClass"
base_class (some (c ∷ s)) = c ∷ s

abbrev pub instance_of_test : (Text → Text) → Text → Text → Option Bool → Option Text
instance_of_test to_lower_case object property none = none
instance_of_test to_lower_case object property (some upper) =
    some (instance_access to_lower_case upper object property)

-- An access that is not computed; `none` where the code throws. The object is a text: an identifier that
-- comes out as a function, at which the code throws too, has no code in the first place.
unfoldable pub named_access :
    (Text → Text) → (Text → Text) → Option Text → Text → Text → Option Text
unfolding instance_access first_is_upper
named_access to_lower_case to_upper_case current_base object property =
    if text_eq object (txt "super")
    then some (scope (base_class current_base) property)
    else if text_eq object (txt "this")
    then some (arrow object property)
    else if includes static_classes object
    then some (scope object property)
    else instance_of_test to_lower_case object property (first_is_upper to_upper_case object)
