-- ===== src/Codegen/Member.antt =====
-- The tests on texts that `generateMember` of src/codegen/generator.ts makes: `isKnownStaticType`,
-- `isSmartPointerVariable` and its regular expressions.
pub mod Access
pub mod Clean
use typescript2cxx.Prelude.{
  ℕ, Bool, true, false, ◌&&◌, ◌||◌, Option, some, none, List, [], ◌∷◌, ◌==◌, leb, if◌then◌else◌,
  any, Text, txt, text_eq, includes, starts_with, ends_with, is_space, drop, count_units,
}
use mathlib.Core.List.{reverse}
use typescript2cxx.Codegen.CppType.{has_part}

abbrev pub is_upper : ℕ → Bool
is_upper c = leb b'A' c && leb c b'Z'

abbrev pub is_lower : ℕ → Bool
is_lower c = leb b'a' c && leb c b'z'

abbrev pub is_alphanumeric : ℕ → Bool
is_alphanumeric c = is_upper c || is_lower c || (leb b'0' c && leb c b'9')

-- `\w`
abbrev pub is_word_unit : ℕ → Bool
is_word_unit c = is_alphanumeric c || c == b'_'

unfoldable pub all_units : (ℕ → Bool) → Text → Bool
all_units p [] = true
all_units p (c ∷ s) = p c && all_units p s

-- `/^[A-Z][a-zA-Z0-9]*$/`
unfoldable pub is_enum_name : Text → Bool
unfolding all_units
is_enum_name [] = false
is_enum_name (c ∷ s) = is_upper c && all_units is_alphanumeric s

unfoldable pub is_known_static_type : Text → Bool
is_known_static_type object =
    starts_with object (txt "js::")
    || text_eq object (txt "this")
    || text_eq object (txt "super")
    || has_part (txt "::") object
    || has_part (txt "->") object
    || has_part (txt ".") object

unfoldable pub smart_pointer_patterns : List Text
smart_pointer_patterns =
    txt "p"
    ∷ txt "obj"
    ∷ txt "instance"
    ∷ txt "ptr"
    ∷ txt "item"
    ∷ txt "element"
    ∷ txt "node"
    ∷ txt "object"
    ∷ txt "entity"
    ∷ txt "component"
    ∷ txt "example"
    ∷ txt "user"
    ∷ txt "account"
    ∷ txt "client"
    ∷ txt "server"
    ∷ txt "connection"
    ∷ txt "session"
    ∷ txt "dog"
    ∷ txt "cat"
    ∷ txt "animal"
    ∷ txt "pet"
    ∷ txt "car"
    ∷ txt "vehicle"
    ∷ txt "bike"
    ∷ txt "truck"
    ∷ txt "rect"
    ∷ txt "rectangle"
    ∷ txt "circle"
    ∷ txt "square"
    ∷ txt "shape"
    ∷ txt "triangle"
    ∷ txt "factory"
    ∷ txt "builder"
    ∷ txt "singleton"
    ∷ txt "manager"
    ∷ txt "controller"
    ∷ txt "service"
    ∷ txt "concrete"
    ∷ txt "instance"
    ∷ txt "impl"
    ∷ txt "implementation"
    ∷ txt "temp"
    ∷ txt "result"
    ∷ txt "target"
    ∷ txt "source"
    ∷ txt "data"
    ∷ txt "err"
    ∷ txt "exception"
    ∷ txt "evalErr"
    ∷ txt "uriErr"
    ∷ txt "aggErr"
    ∷ txt "calc"
    ∷ txt "calculator"
    ∷ txt "processor"
    ∷ txt "computer"
    ∷ []

-- `/^[a-zA-Z0-9]*[A-Z]/`
unfoldable pub has_upper_first : Text → Bool
has_upper_first [] = false
has_upper_first (c ∷ s) = is_upper c || (is_alphanumeric c && has_upper_first s)

-- `/^[a-z][a-zA-Z0-9]*[A-Z]/`
unfoldable pub is_camel_case : Text → Bool
unfolding has_upper_first
is_camel_case [] = false
is_camel_case (c ∷ s) = is_lower c && has_upper_first s

-- Given the language's `toLowerCase`.
unfoldable pub is_smart_pointer_variable : (Text → Text) → Text → Bool
unfolding is_camel_case
is_smart_pointer_variable to_lower_case name =
    includes smart_pointer_patterns (to_lower_case name)
    || is_camel_case name
    || any (ends_with name) (txt "Instance" ∷ txt "Object" ∷ txt "Obj" ∷ txt "Ptr" ∷ txt "Ref" ∷ [])

unfoldable pub skip_spaces : Text → Text
skip_spaces [] = []
skip_spaces (c ∷ s) = let rest = skip_spaces s in if is_space c then rest else c ∷ s

-- The longest word that a text starts with, and what follows it.
unfoldable pub take_word : Text → Text × Text
take_word [] = ([], [])
take_word (c ∷ s) =
    let (word, rest) = take_word s in if is_word_unit c then (c ∷ word, rest) else ([], c ∷ s)

-- What `\s*\(` after the word leaves of the match.
abbrev pub before_paren : Text → Text → Option Text
before_paren [] rest = none
before_paren (c ∷ word) rest =
    if starts_with (skip_spaces rest) (txt "(") then some (c ∷ word) else none

-- `\s+(\w+)\s*\(` at the start of a text: the word.
unfoldable pub function_name : Text → Option Text
unfolding skip_spaces take_word
function_name [] = none
function_name (c ∷ s) =
    if is_space c
    then (let (word, rest) = take_word (skip_spaces s) in before_paren word rest)
    else none

-- `property.match(/…function\s+(\w+)\s*\(/)` with a text in place of the dots.
unfoldable pub match_function : Text → Text → Option Text
unfolding function_name
match_function before [] = none
match_function before (c ∷ s) =
    let later = match_function before s in
    if starts_with (c ∷ s) before
    then elim (function_name (drop (count_units before) (c ∷ s))) [
      | some word ↦ some word
      | none ↦ later
    ]
    else later

abbrev pub is_quote : ℕ → Bool
is_quote c = c == b'"' || c == b'\''

-- `replace(/^["']/, "")`
abbrev pub without_first_quote : Text → Text
without_first_quote [] = []
without_first_quote (c ∷ s) = if is_quote c then s else c ∷ s

-- `property.replace(/^["']|["']$/g, "")`
unfoldable pub clean_property : Text → Text
clean_property s = reverse (without_first_quote (reverse (without_first_quote s)))
