-- ===== src/Codegen/Identifier/Laws.antt =====
-- The names that `generateIdentifier` of src/codegen/generator.ts makes are C++ identifiers.
use typescript2cxx.Prelude.{
  ◌≡◌, refl, inl, inr, Bool, true, false, not, Bool-cases, Option, some, none, List, [], ◌∷◌, ◌++◌,
  if◌then◌else◌, arith, All, all, Text, txt, text_eq, text_eq→eq, includes, lookup, native_function,
  OfSome, lookup-All, inherited-OfSome, PropertyValue, text_value, object_value, printed, read,
  inherited, OfPrinted, IsOwnValue, read-OfPrinted, read-IsOwnValue,
}
use typescript2cxx.Codegen.Identifier.{
  IrIdentifier, Context, cpp_reserved_words, identifier_map, cpp_name_or, escape_reserved,
  mapped_name, generate_identifier,
}

-- Not a word that C++ reserves.
abbrev pub IsFree : Text → Type 0
IsFree name = includes cpp_reserved_words name ≡ false

-- Each reserved word with the underscore is free, by evaluation.
escaped_free : all (λ w. not (includes cpp_reserved_words (w ++ txt "_"))) cpp_reserved_words ≡ true
unfolding cpp_reserved_words txt text_eq
escaped_free = refl

pub all-includes :
    (p : Text → Bool) (ws : List Text) (w : Text)
    → all p ws ≡ true
    → includes ws w ≡ true
    → p w ≡ true
all-includes p [] w h k = cc
all-includes p (x ∷ ws) w h k = elim (Bool-cases (text_eq x w)) [
  | inl same ↦ rw (← text_eq→eq x w same) (ground arith)
  | inr other ↦ all-includes p ws w (ground arith) (ground arith)
]

escape_reserved-IsFree : (name : Text) → IsFree (escape_reserved name)
unfolding escape_reserved
escape_reserved-IsFree name = elim (Bool-cases (includes cpp_reserved_words name)) [
  | inl reserved ↦
      let free =
        all-includes (λ w. not (includes cpp_reserved_words (w ++ txt "_"))) cpp_reserved_words name
          escaped_free reserved in
      rw reserved (ground arith)
  | inr free ↦ rw free free
]

identifier_map-IsFree : All (λ p. IsFree p.1) identifier_map
unfolding identifier_map cpp_reserved_words txt text_eq
identifier_map-IsFree = (
  refl,
  (
    refl,
    (
      refl,
      (
        refl,
        (
          refl,
          (
            refl,
            (
              refl,
              (
                refl,
                (
                  refl,
                  (
                    refl,
                    (
                      refl,
                      (
                        refl,
                        (
                          refl,
                          (
                            refl,
                            (
                              refl,
                              (
                                refl,
                                (
                                  refl,
                                  (
                                    refl,
                                    (
                                      refl,
                                      (
                                        refl,
                                        (refl, (refl, (refl, (refl, (refl, (refl, (refl, tt))))))),
                                      ),
                                    ),
                                  ),
                                ),
                              ),
                            ),
                          ),
                        ),
                      ),
                    ),
                  ),
                ),
              ),
            ),
          ),
        ),
      ),
    ),
  ),
)

native_function-IsFree : (name : Text) → IsFree (native_function name)
unfolding cpp_reserved_words txt text_eq
native_function-IsFree name = refl

object-IsFree : IsFree (txt "[object Object]")
unfolding cpp_reserved_words txt text_eq
object-IsFree = refl

mapped_name-IsFree : (context : Context) (name : Text) → OfPrinted IsFree (mapped_name context name)
unfolding mapped_name
mapped_name-IsFree context name = elim (Bool-cases (includes context.user_namespaces name)) [
  | inl user ↦ rw user tt
  | inr other ↦ rw other (
      read-OfPrinted IsFree name identifier_map identifier_map-IsFree (
        inherited-OfSome IsFree name (native_function-IsFree name)
          (native_function-IsFree (txt "Object")) object-IsFree))
]

pub OfSome-of_cases :
    (P : Text → Type 0) (mapped : Option PropertyValue) (array : Option Text) (name : Text)
    → OfPrinted P mapped
    → OfSome P array
    → P name
    → P (
        printed (elim mapped [
          | some m ↦ m
          | none ↦ text_value (elim array [ some a ↦ a | none ↦ name ])
        ]))
OfSome-of_cases P (some m) array name h k l = h
OfSome-of_cases P none (some a) name h k l = k
OfSome-of_cases P none none name h k l = l

pub OfSome-of : (P : Text → Type 0) (o : Option Text) → ((t : Text) → o ≡ some t → P t) → OfSome P o
OfSome-of P none h = tt
OfSome-of P (some t) h = h t refl

-- No identifier is printed as a word that C++ reserves, if no rest parameter is mapped to one.
pub generate_identifier-IsFree :
    (id : IrIdentifier) (context : Context)
    → All (λ p. IsFree p.1) context.rest_param_mappings
    → IsFree (printed (generate_identifier id context))
unfolding generate_identifier
generate_identifier-IsFree id context h =
    OfSome-of_cases IsFree (mapped_name context id.name)
      (lookup id.name context.rest_param_mappings) _ (mapped_name-IsFree context id.name)
      (OfSome-of IsFree _ (λ t e. lookup-All IsFree id.name context.rest_param_mappings h e))
      (escape_reserved-IsFree (cpp_name_or id.cpp_name id.name))

own_text :
    (mapped : Option PropertyValue) (array : Option Text) (name : Text)
    → IsOwnValue mapped
    → (t : Text) × (elim mapped [
      | some m ↦ m
      | none ↦ text_value (elim array [ some a ↦ a | none ↦ name ])
    ]
        ≡ text_value t)
own_text (some (text_value t)) array name h = (t, refl)
own_text (some (object_value t)) array name h = elim h [ ]
own_text none array name h = (_, refl)

own_if :
    (b : Bool) (value : Option PropertyValue)
    → IsOwnValue value
    → IsOwnValue (if b then none else value)
own_if true value h = tt
own_if false value h = h

-- An identifier with a name that no object inherits comes out as a text.
pub generate_identifier-text :
    (id : IrIdentifier) (context : Context)
    → inherited id.name ≡ none
    → (t : Text) × (generate_identifier id context ≡ text_value t)
unfolding generate_identifier mapped_name
generate_identifier-text id context h =
    own_text (mapped_name context id.name) (lookup id.name context.rest_param_mappings) _ (
      own_if (includes context.user_namespaces id.name) (read id.name identifier_map)
        (read-IsOwnValue id.name identifier_map h))

-- A name that the source program uses as it is.
abbrev pub named : Text → IrIdentifier
named name = record { name = name; cpp_name = none }

-- Neither the runtime nor a rest parameter has another name for it.
pub record IsUnmapped (context : Context) (name : Text) : Type 0 where
  pub not_mapped : mapped_name context name ≡ none
  pub not_rest : lookup name context.rest_param_mappings ≡ none
