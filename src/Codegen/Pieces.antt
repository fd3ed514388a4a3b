-- ===== src/Codegen/Pieces.antt =====
-- The steps of `generateExpression` and `generateStatement` of src/codegen/generator.ts that call
-- neither of them, and what they do with the code of a part.
pub mod Loop
use typescript2cxx.Prelude.{
  ℕ, Bool, true, false, Option, some, none, List, [], ◌∷◌, ◌++◌, if◌then◌else◌, Text, txt, text_eq,
  join, printed, as_text,
}
use typescript2cxx.Codegen.Identifier.{IrIdentifier, Context, generate_identifier}
use typescript2cxx.Codegen.Literal.{to_string}
use typescript2cxx.Codegen.CppType.{map_type}
use typescript2cxx.Codegen.Nodes.{
  Expression, Expressions, LoopVariable, identifier, literal, spread, nil, hole, cons, declared,
  assigned,
}
use typescript2cxx.Codegen.Monad.{M, ◌>>=◌, pure, lift}
use typescript2cxx.Codegen.Operators.{paren, braces}

-- `callee.kind === Identifier && callee.name === "super"`
unfoldable pub is_super : Expression → Bool
is_super (identifier id) = text_eq id.name (txt "super")
is_super _ = false

-- The code of an expression where the methods of a string may be called on it. What an identifier
-- with an inherited name comes out as has none: a member access then throws a `TypeError`, and what
-- prints it in a template string is not followed.
unfoldable pub identifier_code : IrIdentifier → Context → M Text
identifier_code id names = lift (as_text (generate_identifier id names))

-- The code of the property of an access, of its own code: where it is not computed, an identifier is
-- only printed.
unfoldable pub placed_code : Bool → Expression → Context → M Text → M Text
placed_code false (identifier id) names code = pure (printed (generate_identifier id names))
placed_code _ _ names code = code

-- `(property as IRIdentifier).name`
unfoldable pub name_of : Expression → Text
name_of (identifier id) = id.name
name_of _ = txt "undefined"

-- The property of an access that is not computed: an identifier's name as it stands.
unfoldable pub property_text : Expression → M Text → M Text
property_text (identifier id) code = pure id.name
property_text _ code = code

unfoldable pub has_spread : Expressions → Bool
has_spread nil = false
has_spread (hole es) = has_spread es
has_spread (cons (spread e) es) = true
has_spread (cons e es) = has_spread es

-- The key of a property by a literal, and by any other expression that is not computed.
unfoldable pub key_text : Expression → M Text → M Text
key_text (identifier id) code = pure (txt "\"" ++ (id.name ++ txt "\""))
key_text (literal lit) code = pure (txt "\"" ++ (to_string lit.value ++ txt "\""))
key_text _ code = do text ← code; pure (txt "js::toString" ++ paren text)

-- ` -> ${type}`, unless there is no type or it is `any`.
unfoldable pub return_type_code : Option Text → M Text
return_type_code none = pure []
return_type_code (some []) = pure []
return_type_code (some (c ∷ s)) =
    if text_eq (c ∷ s) (txt "any")
    then pure []
    else do type ← lift (map_type (c ∷ s)); pure (txt " -> " ++ type)

-- The two ends of `generateLambda`, of the code of the statements and of a returned expression.
unfoldable pub lambda_block : Text → List Text → Text
lambda_block head lines =
    head ++ (txt " " ++ braces (txt "\n" ++ (join (txt "\n") lines ++ txt "\n")))

unfoldable pub lambda_return : Text → Text → Text
lambda_return head code = head ++ (txt " " ++ braces (txt " return " ++ (code ++ txt "; ")))

-- The identifier of a loop variable, and the head of a loop over it.
abbrev pub loop_identifier : LoopVariable → IrIdentifier
loop_identifier (declared const id) = id
loop_identifier (assigned id) = id

unfoldable pub for_of_head : LoopVariable → Text → Text → Text
for_of_head (declared true id) name iterable =
    txt "for (const auto& " ++ (name ++ (txt " : " ++ (iterable ++ txt ") {")))
for_of_head (declared false id) name iterable =
    txt "for ( auto& " ++ (name ++ (txt " : " ++ (iterable ++ txt ") {")))
for_of_head (assigned id) name iterable =
    txt "for (auto& " ++ (name ++ (txt " : " ++ (iterable ++ txt ") {")))

unfoldable pub for_in_head : Text → Text → Text
for_in_head name object_code =
    txt "for (auto& "
    ++ (name ++ (txt "_pair : js::Object::entries(" ++ (object_code ++ txt ")) {")))

-- `catchClause.param?.name || "e"`
abbrev pub catch_name : Option Text → Text
catch_name none = txt "e"
catch_name (some []) = txt "e"
catch_name (some (c ∷ s)) = c ∷ s

-- `varCode.replace(/;$/, "")`
unfoldable pub without_semicolon : Text → Text
without_semicolon [] = []
without_semicolon (c ∷ []) = if text_eq (c ∷ []) (txt ";") then [] else c ∷ []
without_semicolon (c ∷ d ∷ s) = c ∷ without_semicolon (d ∷ s)

unfoldable pub for_in_line : Text → Text
for_in_line name = txt "auto " ++ (name ++ (txt " = " ++ (name ++ txt "_pair.first;")))

abbrev pub text_or_empty : Option Text → Text
text_or_empty none = []
text_or_empty (some s) = s

-- The label of a case; no test is the default one.
unfoldable pub case_head : Option Text → Text
case_head none = txt "default:"
case_head (some code) = txt "case " ++ (code ++ txt ":")

-- The end of `generateExpressionStatement`: no code, no statement.
unfoldable pub terminated : Text → Text
terminated [] = []
terminated (c ∷ s) = (c ∷ s) ++ txt ";"
