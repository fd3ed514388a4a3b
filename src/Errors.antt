-- ===== src/Errors.antt =====
-- The errors and the error reporter of src/errors.ts.
pub mod Laws
use typescript2cxx.Prelude.{
  ℕ, Bool, Option, some, none, List, [], ◌∷◌, ◌++◌, map, ltb, length, Text, txt, join,
}

pub record SourceLocation : Type 0 where
  pub file : Text
  pub line : ℕ
  pub column : ℕ

-- What each class adds to `TranspilerError`.
pub data Details : Type 0 where
  plain : Details
  feature : Text → Details
  type_name : Option Text → Details
  cycle : List Text → Details
  hint : Option Text → Details
  plugin_name : Text → Details

pub record TranspilerError : Type 0 where
  pub name : Text
  pub message : Text
  pub code : Text
  pub location : Option SourceLocation
  pub details : Details

-- The constructor of each class.
unfoldable pub transpiler_error : Text → Text → Option SourceLocation → TranspilerError
transpiler_error message code location = record {
  name = txt "TranspilerError";
  message = message;
  code = code;
  location = location;
  details = plain;
}

unfoldable pub parse_error : Text → Option SourceLocation → TranspilerError
parse_error message location = record {
  name = txt "ParseError";
  message = message;
  code = txt "PARSE_ERROR";
  location = location;
  details = plain;
}

unfoldable pub code_gen_error : Text → Option SourceLocation → TranspilerError
code_gen_error message location = record {
  name = txt "CodeGenError";
  message = message;
  code = txt "CODEGEN_ERROR";
  location = location;
  details = plain;
}

unfoldable pub unsupported_feature_error : Text → Option SourceLocation → TranspilerError
unsupported_feature_error f location = record {
  name = txt "UnsupportedFeatureError";
  message = txt "Unsupported TypeScript feature: " ++ f;
  code = txt "UNSUPPORTED_FEATURE";
  location = location;
  details = feature f;
}

unfoldable pub type_resolution_error : Text → Option Text → Option SourceLocation → TranspilerError
type_resolution_error message name location = record {
  name = txt "TypeResolutionError";
  message = message;
  code = txt "TYPE_ERROR";
  location = location;
  details = type_name name;
}

unfoldable pub circular_dependency_error : List Text → Option SourceLocation → TranspilerError
circular_dependency_error names location = record {
  name = txt "CircularDependencyError";
  message = txt "Circular dependency detected: " ++ join (txt " -> ") names;
  code = txt "CIRCULAR_DEPENDENCY";
  location = location;
  details = cycle names;
}

unfoldable pub memory_management_error :
    Text → Option Text → Option SourceLocation → TranspilerError
memory_management_error message h location = record {
  name = txt "MemoryManagementError";
  message = message;
  code = txt "MEMORY_ERROR";
  location = location;
  details = hint h;
}

unfoldable pub plugin_error : Text → Text → Option SourceLocation → TranspilerError
plugin_error plugin message location = record {
  name = txt "PluginError";
  message = txt "Plugin \"" ++ plugin ++ txt "\": " ++ message;
  code = txt "PLUGIN_ERROR";
  location = location;
  details = plugin_name plugin;
}

-- The string values of the enum `ErrorCode`.
unfoldable pub error_codes : List Text
error_codes =
    txt "TSC001"
    ∷ txt "TSC002"
    ∷ txt "TSC003"
    ∷ txt "TSC101"
    ∷ txt "TSC102"
    ∷ txt "TSC103"
    ∷ txt "TSC104"
    ∷ txt "TSC201"
    ∷ txt "TSC202"
    ∷ txt "TSC203"
    ∷ txt "TSC301"
    ∷ txt "TSC302"
    ∷ txt "TSC303"
    ∷ txt "TSC401"
    ∷ txt "TSC402"
    ∷ txt "TSC403"
    ∷ txt "TSC501"
    ∷ txt "TSC502"
    ∷ txt "TSC503"
    ∷ txt "TSC601"
    ∷ txt "TSC602"
    ∷ txt "TSC666"
    ∷ []

-- The decimal digits of a number, as a template string writes it.
abbrev pub ShowsNumbers : Type 0
ShowsNumbers = ℕ → Text

-- `toString`, given how the language writes a number.
unfoldable pub to_string : ShowsNumbers → TranspilerError → Text
to_string show e = elim e.location [
  | some l ↦
      l.file
      ++ txt ":"
      ++ show l.line
      ++ txt ":"
      ++ show l.column
      ++ txt " - "
      ++ e.code
      ++ txt ": "
      ++ e.message
  | none ↦ e.code ++ txt ": " ++ e.message
]

-- `ErrorReporter`
pub record ErrorReporter : Type 0 where
  pub errors : List TranspilerError
  pub warnings : List TranspilerError

unfoldable pub new_reporter : ErrorReporter
new_reporter = record { errors = []; warnings = [] }

unfoldable pub error : TranspilerError → ErrorReporter → ErrorReporter
error e r = record { errors = r.errors ++ (e ∷ []); warnings = r.warnings }

unfoldable pub warning : TranspilerError → ErrorReporter → ErrorReporter
warning e r = record { errors = r.errors; warnings = r.warnings ++ (e ∷ []) }

unfoldable pub has_errors : ErrorReporter → Bool
has_errors r = ltb 0 (length r.errors)

abbrev pub get_errors : ErrorReporter → List TranspilerError
get_errors r = r.errors

abbrev pub get_warnings : ErrorReporter → List TranspilerError
get_warnings r = r.warnings

unfoldable pub clear : ErrorReporter → ErrorReporter
clear r = record { errors = []; warnings = [] }

unfoldable pub format_errors : ShowsNumbers → ErrorReporter → Text
unfolding to_string
format_errors show r = join (txt "\n") (map (to_string show) r.errors)
