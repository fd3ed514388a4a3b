-- ===== src/Transform/Steps.antt =====
-- The steps of the methods of src/transform/transformer.ts that need no recursion.
use typescript2cxx.Prelude.{
  ◌≡◌, refl, Bool, true, false, if◌then◌else◌, [], ◌∷◌, Text, txt, text_eq, inherited,
}
use typescript2cxx.Codegen.Nodes.{Expression, Expressions, identifier, binary, assignment}
use typescript2cxx.Codegen.Pieces.{is_super}
use typescript2cxx.Codegen.Regular.{RegularExpression, RegularExpressions, RegularProperty}
use typescript2cxx.Transform.Ast.{Node, Elements, string_literal, import_keyword, element}
use typescript2cxx.Transform.Monad.{M, plain_import}
use typescript2cxx.Transform.Operators.{names_super, null_literal, text_literal, bare_literal}
use typescript2cxx.Transform.Visit.{
  placeholder, unsupported_node, with_text, track_import, index_of,
}
use typescript2cxx.Transform.Ensures.{
  Ensures, Ensures-pure, Ensures-bind, Ensures-warn, Ensures-add_import, IsConsistent,
}

-- The expression is regular, and is `super` only for a node that is.
abbrev pub IsResult : Node → Expression → Type 0
IsResult e x = RegularExpression x × (is_super x ≡ names_super e)

-- A binary node, as an assignment or not.
pub binary-Regular :
    (b : Bool) (op op' : Text) (l r : Expression)
    → RegularExpression l
    → RegularExpression r
    → RegularExpression (if b then assignment op l r else binary op' l r)
      × (is_super (if b then assignment op l r else binary op' l r) ≡ false)
unfolding is_super
binary-Regular true op op' l r h k = ((h, k), refl)
binary-Regular false op op' l r h k = ((h, k), refl)

pub property-Regular :
    (e : Expression) → RegularExpression e → RegularProperty false e (RegularExpression e)
property-Regular (identifier id) h = h.0
property-Regular _ h = h

pub with_text-Regular :
    (text : Text) (parts : Expressions)
    → RegularExpressions false parts
    → RegularExpressions false (with_text text parts)
unfolding text_literal inherited txt text_eq
with_text-Regular [] parts h = h
with_text-Regular (c ∷ text) parts h = ((tt, refl), h)

pub unsupported-Ensures :
    (kind : Text)
    → Ensures (λ x. RegularExpression x × (is_super x ≡ false)) (unsupported_node kind)
unfolding unsupported_node null_literal is_super inherited txt text_eq
unsupported-Ensures kind =
    Ensures-bind _ _ _ (Ensures-warn _) λ u _. Ensures-pure _ placeholder ((tt, refl), refl)

pub index_of-Ensures :
    (e : Node) (m : M Expression)
    → Ensures RegularExpression m
    → Ensures RegularExpression (index_of e m)
unfolding bare_literal inherited txt text_eq
index_of-Ensures (string_literal text) m h = Ensures-pure _ _ (tt, refl)
index_of-Ensures e m h = h

pub plain-IsConsistent : (from : Text) → IsConsistent (plain_import from)
unfolding plain_import IsConsistent
plain-IsConsistent from = refl

pub track_import-Ensures :
    (callee : Node) (args : Elements) → Ensures (λ u. Unit {0}) (track_import callee args)
track_import-Ensures import_keyword (element (string_literal from) args) =
    Ensures-add_import _ (plain-IsConsistent from)
track_import-Ensures callee args = Ensures-pure _ tt tt
