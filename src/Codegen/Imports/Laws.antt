-- ===== src/Codegen/Imports/Laws.antt =====
-- The headers and the namespaces of imports in src/codegen/generator.ts.
use typescript2cxx.Prelude.{
  ◌≡◌, refl, true, false, List, [], ◌∷◌, ◌++◌, Text, txt, text_eq_self, All, includes, starts_with,
  ends_with, arith,
}
use mathlib.Core.List.{reverse-append}
use typescript2cxx.Codegen.CppType.{slice_end}
use typescript2cxx.Codegen.CppType.Laws.{slice_end-append}
use typescript2cxx.Codegen.Imports.{
  IrImport, Imported, without_suffix, is_local, resolve_import_path, module_name, add_text,
  generate_import_includes,
}

starts_with-append : (s t p : Text) → starts_with s p ≡ true → starts_with (s ++ t) p ≡ true
unfolding starts_with
starts_with-append s t [] h = refl
starts_with-append [] t (p ∷ ps) h = ground (arith, h)
starts_with-append (c ∷ s) t (p ∷ ps) h = ground (arith, starts_with-append s t ps)

is_local-append : (s t : Text) → is_local s ≡ true → is_local (s ++ t) ≡ true
unfolding is_local
is_local-append s t h = ground (
  arith,
  starts_with-append s t (txt "./"),
  starts_with-append s t (txt "../"),
  starts_with-append s t (txt "/"),
)

ends_with-ts : (s : Text) → ends_with (s ++ txt ".ts") (txt ".ts") ≡ true
unfolding ends_with starts_with txt
ends_with-ts s = rw (reverse-append s (txt ".ts")) refl

ends_with-js :
    (s : Text)
    → (ends_with (s ++ txt ".js") (txt ".ts") ≡ false)
      × (ends_with (s ++ txt ".js") (txt ".js") ≡ true)
unfolding ends_with starts_with txt
ends_with-js s = rw (reverse-append s (txt ".js")) (refl, refl)

slice_end-ts : (s : Text) → slice_end 3 (s ++ txt ".ts") ≡ s
unfolding txt
slice_end-ts s = slice_end-append s (txt ".ts")

slice_end-js : (s : Text) → slice_end 3 (s ++ txt ".js") ≡ s
unfolding txt
slice_end-js s = slice_end-append s (txt ".js")

without_suffix-append :
    (s : Text) → (without_suffix (s ++ txt ".ts") ≡ s) × (without_suffix (s ++ txt ".js") ≡ s)
unfolding without_suffix
without_suffix-append s = (
  rw (ends_with-ts s) (slice_end-ts s),
  rw ((ends_with-js s).0, (ends_with-js s).1) (slice_end-js s),
)

-- A local path comes to the same header with the suffix .ts and with .js: the path in quotes, with .h
-- behind it.
resolve_import_path-suffix :
    (s : Text)
    → is_local s ≡ true
    → (resolve_import_path (s ++ txt ".ts") ≡ txt "\"" ++ (s ++ txt ".h\""))
      × (resolve_import_path (s ++ txt ".js") ≡ txt "\"" ++ (s ++ txt ".h\""))
unfolding resolve_import_path
resolve_import_path-suffix s h = (
  rw (is_local-append s (txt ".ts") h, (without_suffix-append s).0) refl,
  rw (is_local-append s (txt ".js") h, (without_suffix-append s).1) refl,
)

-- The namespace of a module in the parent folder keeps the path: it is `../` and the name.
module_name-parent : (s : Text) → module_name (txt "../" ++ (s ++ txt ".ts")) ≡ txt "../" ++ s
unfolding module_name txt starts_with
module_name-parent s = (without_suffix-append (txt "../" ++ s)).0

includes-append :
    (xs ys : List Text) (x : Text) → includes xs x ≡ true → includes (xs ++ ys) x ≡ true
includes-append [] ys x h = ground (arith, h)
includes-append (y ∷ xs) ys x h = ground (arith, includes-append xs ys x)

includes-last : (xs : List Text) (x : Text) → includes (xs ++ x ∷ []) x ≡ true
includes-last [] x = rw (text_eq_self x) refl
includes-last (y ∷ xs) x = ground (arith, includes-last xs x)

add_text-new : (xs : List Text) (x : Text) → includes (add_text xs x) x ≡ true
unfolding add_text
add_text-new xs x = ground (arith, includes-last xs x)

add_text-old :
    (xs : List Text) (x y : Text) → includes xs y ≡ true → includes (add_text xs x) y ≡ true
unfolding add_text
add_text-old xs x y h = ground (arith, includes-append xs (x ∷ []) y)

includes-kept :
    (is : List IrImport) (m : Imported) (x : Text)
    → includes m.includes x ≡ true
    → includes (generate_import_includes is m).includes x ≡ true
unfolding generate_import_includes
includes-kept [] m x h = h
includes-kept (i ∷ is) m x h = includes-kept is _ x (add_text-old m.includes _ x h)

-- After all imports are read, the header of each is among the includes.
generate_import_includes-All :
    (is : List IrImport) (m : Imported)
    → All
        (λ i. includes (generate_import_includes is m).includes (resolve_import_path i.from) ≡ true)
        is
unfolding generate_import_includes
generate_import_includes-All [] m = tt
generate_import_includes-All (i ∷ is) m = (
  includes-kept is _ (resolve_import_path i.from)
      (add_text-new m.includes (resolve_import_path i.from)),
  generate_import_includes-All is _,
)
