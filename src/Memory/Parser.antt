-- ===== src/Memory/Parser.antt =====
-- `MemoryAnnotationParser` of src/memory/annotations.ts.
pub mod Laws
use typescript2cxx.Prelude.{
  ℕ, suc, ◌+◌, Bool, true, false, ◌||◌, Option, some, none, List, [], ◌∷◌, ◌++◌, if◌then◌else◌,
  Text, txt, text_eq, starts_with, trim, split_lines, is_empty,
}
use typescript2cxx.Memory.{MemoryAnnotation, weak, unique, shared, none as no_annotation}

-- What the language does: what the two regular expressions find in a line (the index of a match and the
-- name of the annotation; the name of a property), the decimal digits of a number, and `toLowerCase`.
pub record Language : Type 0 where
  pub match_annotation : Text → Option (ℕ × Text)
  pub match_property : Text → Option Text
  pub show : ℕ → Text
  pub to_lower_case : Text → Text

pub record AnnotationInfo : Type 0 where
  pub annotation : MemoryAnnotation
  pub line : ℕ
  pub column : ℕ

-- `Map<string, AnnotationInfo>`
abbrev pub Annotations : Type 0
Annotations = List (Text × AnnotationInfo)

abbrev pub set_annotation : Text → AnnotationInfo → Annotations → Annotations
set_annotation key info [] = (key, info) ∷ []
set_annotation key info ((k, i) ∷ annotations) =
    let rest = set_annotation key info annotations in
    if text_eq k key then (k, info) ∷ annotations else (k, i) ∷ rest

abbrev pub find_annotation : Text → Annotations → Option AnnotationInfo
find_annotation key [] = none
find_annotation key ((k, i) ∷ annotations) =
    let rest = find_annotation key annotations in if text_eq k key then some i else rest

-- `line.includes(part)`
unfoldable pub has_part : Text → Text → Bool
has_part [] part = starts_with [] part
has_part (c ∷ s) part = starts_with (c ∷ s) part || has_part s part

-- `parseAnnotationName`
unfoldable pub parse_annotation_name : Language → Text → MemoryAnnotation
parse_annotation_name language name =
    if text_eq (language.to_lower_case name) (txt "weak")
    then weak
    else if text_eq (language.to_lower_case name) (txt "unique")
    then unique
    else if text_eq (language.to_lower_case name) (txt "shared")
    then shared
    else no_annotation

-- `findNextProperty`, of the lines from an index on.
unfoldable pub find_next_property : Language → List Text → ℕ → Option (Text × ℕ)
unfolding has_part
find_next_property language [] i = none
find_next_property language (raw ∷ lines) i =
    let line = trim raw in
    let next = find_next_property language lines (suc i) in
    if is_empty line || (starts_with line (txt "//") || starts_with line (txt "/*"))
    then next
    else elim (language.match_property line) [
      | some name ↦ some (name, i + 1)
      | none ↦
          if has_part line (txt "(") || (has_part line (txt "{") || has_part line (txt "class"))
          then none
          else next
    ]

-- The keys of the map.
unfoldable pub annotation_key : Language → Text → ℕ → Text → Text
annotation_key language filename line name =
    filename ++ (txt ":" ++ (language.show line ++ (txt ":" ++ name)))

-- The loop of `parse`, over the lines from an index on.
unfoldable pub parse_lines : Language → Text → List Text → ℕ → Annotations → Annotations
unfolding find_next_property annotation_key parse_annotation_name
parse_lines language filename [] i annotations = annotations
parse_lines language filename (line ∷ lines) i annotations =
    parse_lines language filename lines (suc i) (elim (language.match_annotation line) [
      | none ↦ annotations
      | some (index, annotation_name) ↦ elim (find_next_property language lines (i + 1)) [
        | none ↦ annotations
        | some (name, property_line) ↦
            set_annotation (annotation_key language filename property_line name)
              (record {
                annotation = parse_annotation_name language annotation_name;
                line = i + 1;
                column = index;
              })
              annotations
      ]
    ])

-- `parse`, which clears the map first.
unfoldable pub parse : Language → Text → Text → Annotations
unfolding parse_lines
parse language source filename = parse_lines language filename (split_lines source) 0 []

-- `getAnnotation`
unfoldable pub get_annotation : Language → Annotations → Text → ℕ → Text → MemoryAnnotation
unfolding annotation_key
get_annotation language annotations filename line name =
    elim (find_annotation (annotation_key language filename line name) annotations) [
      | none ↦ no_annotation
      | some info ↦ info.annotation
    ]
