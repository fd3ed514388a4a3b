-- ===== src/Transform/Module/Annotations.antt =====
-- Memory annotations in src/transform/transformer.ts.
use typescript2cxx.Prelude.{◌≡◌, refl, [], Text}
use typescript2cxx.Memory.Parser.{parse, get_annotation}
use typescript2cxx.Memory.Parser.Laws.{HasDigits, get_annotation-first_line}
use typescript2cxx.Codegen.Pointers.{auto}
use typescript2cxx.Transform.Monad.{Transformer}
use typescript2cxx.Transform.Module.Ast.{PropertyNode}
use typescript2cxx.Transform.Module.Members.{
  Options, get_property_name, get_line_number, convert_memory_annotation, property_memory,
  transform_property_definition,
}

module _ (options : Options) (digits : HasDigits options.language) (source : Text) where
  property_memory-auto :
      (name : Text)
      → options.annotations ≡ parse options.language source options.filename
      → property_memory options name ≡ auto
  unfolding property_memory get_line_number convert_memory_annotation
  property_memory-auto name e =
      rw (e, get_annotation-first_line options.language digits source options.filename name) refl

  property_memory-same :
      (name : Text)
      → options.annotations ≡ parse options.language source options.filename
      → property_memory options name ≡ property_memory (record options { annotations = [] }) name
  unfolding property_memory get_annotation get_line_number convert_memory_annotation
  property_memory-same name e = property_memory-auto name e

  -- The annotations that are parsed from the source change nothing: a property is transformed as it is
  -- without any annotation; if the digits of numbers differ and hold no colon.
  pub transform_property_definition-annotations :
      (p : PropertyNode) (t : Transformer)
      → options.annotations ≡ parse options.language source options.filename
      → transform_property_definition p options t
        ≡ transform_property_definition p (record options { annotations = [] }) t
  unfolding transform_property_definition
  transform_property_definition-annotations p t e =
      rw (transform_property_definition, property_memory-same (get_property_name p.name) e) refl
