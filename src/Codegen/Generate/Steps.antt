-- ===== src/Codegen/Generate/Steps.antt =====
-- The steps of `generateExpression` and `generateStatement` of src/codegen/generator.ts that make no
-- code of a part always give a result.
use typescript2cxx.Prelude.{
  suc, Bool, true, false, Option, none, some, List, [], ◌∷◌, Text, txt, arith, text_eq, count_units,
  lookup, ◌≡◌, refl, All,
}
use typescript2cxx.Codegen.CppType.{map_type, own_type, map_type_text}
use typescript2cxx.Codegen.CppType.Laws.{map_type-total}
use typescript2cxx.Codegen.Identifier.{IrIdentifier, Context}
use typescript2cxx.Codegen.Member.Access.{scope, named_access}
use typescript2cxx.Codegen.Nodes.{Expression, identifier, literal, binary, array, nil, hole, cons}
use typescript2cxx.Codegen.Monad.{Reader, M, ◌>>=◌, pure, lift}
use typescript2cxx.Codegen.Infer.{infer_type, type_or_auto}
use typescript2cxx.Codegen.Pieces.{
  identifier_code, placed_code, property_text, key_text, return_type_code,
}
use typescript2cxx.Codegen.Regular.{IsNonempty, IsOwn, RegularProperty, RegularExpression}
use typescript2cxx.Codegen.Generate.{operator_include, generate_access, in_block, one_deeper}
use typescript2cxx.Codegen.Generate.Ensures.{
  Any, Ensures, Ensures-pure, Ensures-bind, Ensures-lift, Ensures-if, Ensures-add_include,
  Ensures-deeper, Ensures-deeper_indent,
}
use typescript2cxx.Codegen.Generate.Names.{
  identifier_text, computed_access-IsNonempty, named_access-total, scope-IsNonempty,
}

pub map_type-Ensures : (t : Text) → Ensures Any (lift (map_type t))
map_type-Ensures t =
    let (cpp, (_, e)) = map_type-total t (suc (count_units t)) (omega arith) in
    Ensures-lift Any (map_type t) (cpp, e, tt)

map_type_text-Ensures : (t : Text) → IsOwn t → Ensures Any (lift (map_type_text t))
unfolding map_type_text own_type
map_type_text-Ensures t h = rw (h, own_type, map_type_text) (map_type-Ensures t)

pub infer_type-Ensures : (e : Expression) → RegularExpression e → Ensures Any (lift (infer_type e))
unfolding infer_type
infer_type-Ensures (literal lit) (_, h) = map_type_text-Ensures (type_or_auto lit.cpp_type) h
infer_type-Ensures (array nil) h = Ensures-pure Any _ tt
infer_type-Ensures (array (hole es)) h = Ensures-pure Any _ tt
infer_type-Ensures (array (cons e es)) h = Ensures-pure Any _ tt
infer_type-Ensures (binary operator left right) h = Ensures-pure Any _ tt
infer_type-Ensures _ h = Ensures-pure Any _ tt

pub own_type-Ensures : (t : Text) → IsOwn t → Ensures Any (lift (own_type t))
unfolding own_type
own_type-Ensures t h = rw (h, own_type) (Ensures-pure Any t tt)

pub identifier_code-Ensures :
    (id : IrIdentifier) (names : Context)
    → All (λ p. IsNonempty p.1) names.rest_param_mappings
    → IsNonempty id.name × IsOwn id.name
    → Ensures IsNonempty (identifier_code id names)
unfolding identifier_code
identifier_code-Ensures id names h k = Ensures-lift IsNonempty _ (identifier_text id names h k)

pub property_text-Ensures :
    {R : Type 0} (computed : Bool) (e : Expression) (code : M Text)
    → (R → Ensures Any code)
    → RegularProperty computed e R
    → computed ≡ false
    → Ensures Any (property_text e code)
unfolding property_text
property_text-Ensures computed (identifier id) code h k f = Ensures-pure Any _ tt
property_text-Ensures true e code h k f = absurd (ground (arith, f))
property_text-Ensures false _ code h k f = h k

pub placed_code-Ensures :
    {R : Type 0} (computed : Bool) (e : Expression) (names : Context) (code : M Text)
    → (R → Ensures Any code)
    → RegularProperty computed e R
    → Ensures Any (placed_code computed e names code)
unfolding placed_code
placed_code-Ensures true e names code h k = h k
placed_code-Ensures false (identifier id) names code h k = Ensures-pure Any _ tt
placed_code-Ensures false _ names code h k = h k

pub key_text-Ensures :
    {R : Type 0} (e : Expression) (code : M Text)
    → (R → Ensures Any code)
    → RegularProperty false e R
    → Ensures Any (key_text e code)
unfolding key_text
key_text-Ensures (identifier id) code h k = Ensures-pure Any _ tt
key_text-Ensures (literal lit) code h k = Ensures-pure Any _ tt
key_text-Ensures _ code h k = Ensures-bind Any _ _ (h k) λ t _. Ensures-pure Any _ tt

pub return_type_code-Ensures : (type : Option Text) → Ensures Any (return_type_code type)
unfolding return_type_code
return_type_code-Ensures none = Ensures-pure Any _ tt
return_type_code-Ensures (some []) = Ensures-pure Any _ tt
return_type_code-Ensures (some (c ∷ s)) =
    Ensures-if Any (text_eq (c ∷ s) (txt "any")) _ _ (Ensures-pure Any _ tt)
      (Ensures-bind Any _ _ (map_type-Ensures (c ∷ s)) λ t _. Ensures-pure Any _ tt)

pub operator_include-Ensures : (operator : Text) → Ensures Any (operator_include operator)
operator_include-Ensures operator =
    Ensures-if Any (text_eq operator (txt "**")) _ _ (Ensures-add_include (txt "<cmath>"))
      (Ensures-pure Any tt tt)

pub in_block-Ensures : (body : M (List Text)) → Ensures Any body → Ensures Any (in_block body)
unfolding in_block
in_block-Ensures body h = Ensures-deeper Any _ _ h λ lines _. Ensures-pure Any _ tt

pub one_deeper-Ensures : (body : M Text) → Ensures Any body → Ensures Any (one_deeper body)
unfolding one_deeper
one_deeper-Ensures body h = Ensures-deeper_indent Any _ _ h λ code n _. tt

-- Of what the object's code is the name of, if it names a namespace.
value_access-Ensures :
    (object : Text) (namespace : Option Text) (name code : M Text) (r : Reader)
    → IsNonempty object
    → Ensures Any name
    → Ensures Any code
    → Ensures IsNonempty (elim namespace as (λ _. M Text) [
      | some n ↦ code >>= λ p. pure (scope n p)
      | none ↦ name >>= λ p.
          lift (named_access r.to_lower_case r.to_upper_case r.current_base_class object p)
    ])
value_access-Ensures object none name code r h k l = Ensures-bind IsNonempty _ _ k λ p _.
    Ensures-lift IsNonempty _
      (named_access-total r.to_lower_case r.to_upper_case r.current_base_class object p h)
value_access-Ensures object (some n) name code r h k l =
    Ensures-bind IsNonempty _ _ l λ p _. Ensures-pure IsNonempty _ (scope-IsNonempty n p)

pub generate_access-Ensures :
    (object : Text) (computed : Bool) (name code : M Text) (r : Reader)
    → IsNonempty object
    → (computed ≡ false → Ensures Any name)
    → Ensures Any code
    → Ensures IsNonempty (generate_access object computed name code r)
unfolding generate_access
generate_access-Ensures object true name code r h k l =
    Ensures-bind IsNonempty _ _ l
      λ p _. Ensures-pure IsNonempty _ (computed_access-IsNonempty r.to_lower_case object p h)
generate_access-Ensures object false name code r h k l =
    value_access-Ensures object (lookup object r.namespace_imports) name code r h (k refl) l
