-- ===== src/Codegen/Member/Clean.antt =====
-- What the quotes that `generateMember` of src/codegen/generator.ts takes off a computed property are.
use typescript2cxx.Prelude.{◌≡◌, refl, ap, ◌∙◌, ◌++◌, Text, txt}
use mathlib.Core.List.{reverse, reverse-append, reverse-reverse}
use typescript2cxx.Codegen.Member.{clean_property, without_first_quote}

-- Of a text in quotes both are taken off. Of the code of a string literal only the first one is, since
-- the suffix stands behind the other: the rest of it opens a string that is not closed.
clean_property-literal :
    (s : Text)
    → (clean_property (txt "\"" ++ (s ++ txt "\"")) ≡ s)
      × (clean_property (txt "\"" ++ (s ++ txt "\"_S")) ≡ s ++ txt "\"_S")
unfolding clean_property txt
clean_property-literal s = (
  rw (reverse-append s (txt "\"")) (reverse-reverse s),
  let last : without_first_quote (reverse (s ++ txt "\"_S")) ≡ reverse (s ++ txt "\"_S") =
        rw (reverse-append s (txt "\"_S")) refl in
      ap reverse last ∙ reverse-reverse (s ++ txt "\"_S"),
)
