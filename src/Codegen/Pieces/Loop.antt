-- ===== src/Codegen/Pieces/Loop.antt =====
-- The declarations in the head of a `for` loop in `generateFor` of src/codegen/generator.ts.
use typescript2cxx.Prelude.{
  ◌≡◌, refl, ap, ◌∙◌, Bool, false, Option, [], ◌∷◌, ◌++◌, append_assoc, Text, txt, text_eq, join,
}
use typescript2cxx.Codegen.Operators.{declarator_code, const_code, initializer_code}
use typescript2cxx.Codegen.Pieces.{without_semicolon}

pub without_semicolon-append : (s : Text) → without_semicolon (s ++ txt ";") ≡ s
unfolding without_semicolon txt text_eq
without_semicolon-append [] = refl
without_semicolon-append (c ∷ []) = refl
without_semicolon-append (c ∷ d ∷ s) = rw (without_semicolon-append (d ∷ s)) refl

regroup :
    (a b c d e f h i : Text)
    → (a ++ (b ++ (txt " " ++ (c ++ (d ++ txt ";")))))
        ++ (txt "\n" ++ (e ++ (f ++ (txt " " ++ (h ++ (i ++ txt ";"))))))
      ≡ (a ++ (b ++ (txt " " ++ (c ++ (d ++ (txt ";\n" ++ (e ++ (f ++ (txt " " ++ (h ++ i))))))))))
        ++ txt ";"
unfolding txt
regroup a b c d e f h i = simp (append_assoc)

-- Only the semicolon of the last declaration is taken off the head of a loop: with two of them, that of
-- the first stays, on a line of its own, before those that the head has anyway.
without_semicolon-declarators :
    (const const' : Bool) (type name type' name' : Text) (init init' : Option Text)
    → without_semicolon (
        join (txt "\n") (
          declarator_code false const type name init
          ∷ declarator_code false const' type' name' init'
          ∷ []))
      ≡ const_code const
        ++ (type
            ++ (txt " "
                ++ (name
                    ++ (initializer_code init
                        ++ (txt ";\n"
                            ++ (const_code const'
                                ++ (type' ++ (txt " " ++ (name' ++ initializer_code init')))))))))
unfolding declarator_code
without_semicolon-declarators const const' type name type' name' init init' =
    ap without_semicolon (
      regroup (const_code const) type name (initializer_code init) (const_code const') type' name'
        (initializer_code init'))
    ∙ without_semicolon-append (
        const_code const
        ++ (type
            ++ (txt " "
                ++ (name
                    ++ (initializer_code init
                        ++ (txt ";\n"
                            ++ (const_code const'
                                ++ (type' ++ (txt " " ++ (name' ++ initializer_code init'))))))))))
