-- ===== src/Codegen/Enums/Laws.antt =====
-- What `generateEnum` of src/codegen/generator.ts puts in the header and in the source file.
use typescript2cxx.Prelude.{◌≡◌, refl, Bool, some, List, [], ◌∷◌, ◌++◌, Text, All}
use typescript2cxx.Codegen.Literal.{Number}
use typescript2cxx.Codegen.Nodes.{MaybeExpression, literal, absent, present}
use typescript2cxx.Codegen.Monad.{Reader, Generator}
use typescript2cxx.Codegen.Regular.{IsNonempty, RegularMaybe}
use typescript2cxx.Codegen.Generate.Ensures.{
  Stays, Any, Ensures, Ensures-pure, Ensures-bind, Ensures-elim,
}
use typescript2cxx.Codegen.Generate.Total.{expression}
use typescript2cxx.Codegen.Enums.{
  EnumMembers, Defined, has_string, declaration_line, declaration_lines, has_numeric_members,
  any_numeric, constant_lines, define_members, generate_enum,
}

-- The declarations that go with definitions: of each its type, and the reverse mapping if there is a
-- number.
abbrev pub lines_for : List Defined → Text
lines_for [] = []
lines_for (d ∷ ds) = declaration_line d.name d.is_string ++ lines_for ds

-- The header declares what the source file defines.
unfoldable pub Agrees : EnumMembers → List Defined → Type 0
Agrees members ds =
    (declaration_lines members ≡ lines_for ds) × (has_numeric_members members ≡ any_numeric ds)

Agrees-nil : Agrees [] []
unfolding Agrees declaration_lines has_numeric_members any_numeric
Agrees-nil = (refl, refl)

Agrees-cons :
    (name : Text) (init : MaybeExpression) (members : EnumMembers) (d : Defined) (ds : List Defined)
    → d.name ≡ name
    → d.is_string ≡ has_string init
    → Agrees members ds
    → Agrees ((name, init) ∷ members) (d ∷ ds)
unfolding Agrees declaration_lines has_numeric_members any_numeric
Agrees-cons name init members d ds e f (h, k) = (rw (e, f, h) refl, rw (f, k) refl)

module _ (zero : Number) (plus_one : Number → Number) (r : Reader)
    (mapped : All (λ p. IsNonempty p.1) r.names.rest_param_mappings) where
  constants-Ensures :
      (ms : EnumMembers) (current : Number)
      → All (λ p. RegularMaybe p.1) ms
      → Ensures Any (constant_lines zero plus_one ms current r)
  unfolding constant_lines
  constants-Ensures [] current h = Ensures-pure Any _ tt
  constants-Ensures ((name, absent) ∷ ms) current (_, h) =
      Ensures-bind Any _ _ (constants-Ensures ms _ h) λ _ _. Ensures-pure Any _ tt
  constants-Ensures ((name, present (literal lit)) ∷ ms) current (_, h) =
      Ensures-bind Any _ _ (constants-Ensures ms _ h) λ _ _. Ensures-pure Any _ tt
  constants-Ensures ((name, present e) ∷ ms) current (k, h) =
      Ensures-bind Any _ _ (expression r mapped e k)
        λ _ _. Ensures-bind Any _ _ (constants-Ensures ms _ h) λ _ _. Ensures-pure Any _ tt

  define-Ensures :
      (ms : EnumMembers) (current : Number)
      → All (λ p. RegularMaybe p.1) ms
      → Ensures (Agrees ms) (define_members zero plus_one ms current r)
  unfolding define_members
  define-Ensures [] current h = Ensures-pure (Agrees []) _ Agrees-nil
  define-Ensures ((name, absent) ∷ ms) current (_, h) =
      Ensures-bind (Agrees ((name, absent) ∷ ms)) _ _ (define-Ensures ms _ h) λ ds k.
        Ensures-pure (Agrees ((name, absent) ∷ ms)) _ (Agrees-cons name absent ms _ ds refl refl k)
  define-Ensures ((name, present (literal lit)) ∷ ms) current (_, h) =
      Ensures-bind (Agrees ((name, present (literal lit)) ∷ ms)) _ _ (define-Ensures ms _ h) λ ds k.
        Ensures-pure (Agrees ((name, present (literal lit)) ∷ ms)) _
          (Agrees-cons name (present (literal lit)) ms _ ds refl refl k)
  define-Ensures ((name, present e) ∷ ms) current (i, h) =
      Ensures-bind (Agrees ((name, present e) ∷ ms)) _ _ (expression r mapped e i) λ code _.
        Ensures-bind (Agrees ((name, present e) ∷ ms)) _ _ (define-Ensures ms _ h) λ ds k.
          Ensures-pure (Agrees ((name, present e) ∷ ms)) _
            (Agrees-cons name (present e) ms _ ds refl refl k)

  -- Of an enum with regular initializers the source file always defines the members, and the header
  -- declares what is defined there: each member with its type, in order, and getName exactly when a
  -- member is a number; the indentation is the same after as before; if no rest parameter is mapped to
  -- the empty name.
  pub define_members-Agrees :
      (ms : EnumMembers) (current : Number)
      → All (λ p. RegularMaybe p.1) ms
      → (g : Generator)
      → (ds : List Defined) × (g' : Generator) × (define_members zero plus_one ms current r g
          ≡ some (ds, g'))
        × Stays g g'
        × Agrees ms ds
  unfolding Ensures
  define_members-Agrees ms current h = define-Ensures ms current h

  enum-Ensures :
      (name : Text) (is_const : Bool) (ms : EnumMembers)
      → All (λ p. RegularMaybe p.1) ms
      → Ensures Any (generate_enum zero plus_one name is_const ms r)
  unfolding generate_enum
  enum-Ensures name is_const ms h =
      Ensures-elim Any r.is_header _ _
        (λ _.
          Ensures-elim Any is_const _ _
            (λ _. Ensures-bind Any _ _ (constants-Ensures ms zero h) λ _ _. Ensures-pure Any _ tt)
            (λ _. Ensures-pure Any _ tt))
        (λ _.
          Ensures-elim Any is_const _ _ (λ _. Ensures-pure Any _ tt)
            (λ _. Ensures-bind Any _ _ (define-Ensures ms zero h) λ _ _. Ensures-pure Any _ tt))
