-- ===== src/Codegen/Imports.antt =====
-- `generateImportIncludes` and `resolveImportPath` of src/codegen/generator.ts.
pub mod Laws
use typescript2cxx.Prelude.{
  Bool, true, false, ◌&&◌, ◌||◌, Option, some, none, List, [], ◌∷◌, ◌++◌, if◌then◌else◌, Text, txt,
  text_eq, includes, starts_with, ends_with, drop,
}
use typescript2cxx.Codegen.CppType.{slice_end}

-- The fields of an `IRImport` that are read.
pub record IrImport : Type 0 where
  pub from : Text
  pub is_namespace : Bool
  pub namespace : Option Text

-- `replace(/\.ts$|\.js$/, "")`
unfoldable pub without_suffix : Text → Text
without_suffix path =
    if ends_with path (txt ".ts") || ends_with path (txt ".js") then slice_end 3 path else path

unfoldable pub is_local : Text → Bool
is_local path =
    starts_with path (txt "./") || starts_with path (txt "../") || starts_with path (txt "/")

unfoldable pub resolve_import_path : Text → Text
unfolding without_suffix is_local
resolve_import_path path =
    if is_local path
    then txt "\"" ++ (without_suffix path ++ txt ".h\"")
    else txt "<" ++ (path ++ txt ".h>")

-- `from.replace(/^\.\//, "").replace(/\.(ts|js)$/, "")`
unfoldable pub module_name : Text → Text
unfolding without_suffix
module_name from = without_suffix (if starts_with from (txt "./") then drop 2 from else from)

-- `context.includes` and `context.namespaceImports`.
pub record Imported : Type 0 where
  pub includes : List Text
  pub namespace_imports : List (Text × Text)

-- `Set.add` and `Map.set`.
unfoldable pub add_text : List Text → Text → List Text
add_text xs x = if includes xs x then xs else xs ++ x ∷ []

unfoldable pub set_entry : List (Text × Text) → Text → Text → List (Text × Text)
set_entry [] key value = (key, value) ∷ []
set_entry ((k, v) ∷ pairs) key value =
    let rest = set_entry pairs key value in
    if text_eq k key then (key, value) ∷ pairs else (k, v) ∷ rest

-- A namespace import with a name is kept under that name.
unfoldable pub add_namespace : IrImport → List (Text × Text) → List (Text × Text)
unfolding set_entry module_name
add_namespace i pairs = elim i.namespace [
  | none ↦ pairs
  | some [] ↦ pairs
  | some (c ∷ s) ↦ if i.is_namespace then set_entry pairs (c ∷ s) (module_name i.from) else pairs
]

unfoldable pub generate_import_includes : List IrImport → Imported → Imported
unfolding add_text add_namespace resolve_import_path
generate_import_includes [] m = m
generate_import_includes (i ∷ is) m = generate_import_includes is (record {
  includes = add_text m.includes (resolve_import_path i.from);
  namespace_imports = add_namespace i m.namespace_imports;
})
