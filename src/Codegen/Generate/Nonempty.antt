-- ===== src/Codegen/Generate/Nonempty.antt =====
-- The code of an expression in src/codegen/generator.ts has a unit.
use typescript2cxx.Prelude.{
  ℕ, Bool, true, false, if◌then◌else◌, List, [], ◌∷◌, ◌++◌, Text, txt, All,
}
use typescript2cxx.Codegen.Literal.{IrLiteral}
use typescript2cxx.Codegen.Operators.{
  text_part, delete_computed, delete_named, binary_code, prefix_code, unary_code, optional_code,
  assignment_code, template_code, array_code, new_code, object_code,
}
use typescript2cxx.Codegen.Pieces.{lambda_return, lambda_block}
use typescript2cxx.Codegen.Regular.{IsNonempty}

pub cons-IsNonempty : (c : ℕ) (s : Text) → IsNonempty (c ∷ s)
unfolding IsNonempty
cons-IsNonempty c s = tt

pub IsNonempty-append : (s t : Text) → IsNonempty s → IsNonempty (s ++ t)
unfolding IsNonempty
IsNonempty-append [] t h = elim h [ ]
IsNonempty-append (c ∷ s) t h = tt

pub append-IsNonempty : (s t : Text) → IsNonempty t → IsNonempty (s ++ t)
append-IsNonempty [] t h = h
append-IsNonempty (c ∷ s) t h = cons-IsNonempty c (s ++ t)

pub if-IsNonempty :
    (b : Bool) (s t : Text) → IsNonempty s → IsNonempty t → IsNonempty (if b then s else t)
if-IsNonempty true s t h k = h
if-IsNonempty false s t h k = k

pub ruleset nonempty = (if-IsNonempty, cons-IsNonempty, IsNonempty-append, append-IsNonempty)

pub object_code-IsNonempty : (name properties : Text) → IsNonempty (object_code name properties)
unfolding object_code txt
object_code-IsNonempty name properties = cons-IsNonempty _ _

pub array_code-IsNonempty :
    (type : Text) (elements : List Text) → IsNonempty (array_code type elements)
unfolding array_code txt
array_code-IsNonempty type elements = cons-IsNonempty _ _

pub delete_computed-IsNonempty :
    (object property : Text) → IsNonempty (delete_computed object property)
unfolding delete_computed txt
delete_computed-IsNonempty object property = cons-IsNonempty _ _

pub delete_named-IsNonempty : (object name : Text) → IsNonempty (delete_named object name)
unfolding delete_named txt
delete_named-IsNonempty object name = cons-IsNonempty _ _

pub text_part-IsNonempty : (lit : IrLiteral) → IsNonempty (text_part lit)
unfolding text_part txt
text_part-IsNonempty lit = cons-IsNonempty _ _

pub lambda_return-IsNonempty : (head code : Text) → IsNonempty (lambda_return head code)
unfolding lambda_return txt
lambda_return-IsNonempty head code = append-IsNonempty head _ (cons-IsNonempty _ _)

pub lambda_block-IsNonempty :
    (head : Text) (lines : List Text) → IsNonempty (lambda_block head lines)
unfolding lambda_block txt
lambda_block-IsNonempty head lines = append-IsNonempty head _ (cons-IsNonempty _ _)

pub binary_code-IsNonempty :
    (operator left right : Text) → IsNonempty left → IsNonempty (binary_code operator left right)
unfolding binary_code txt
binary_code-IsNonempty operator left right h = search nonempty depth 12

pub unary_code-IsNonempty :
    (operator : Text) (prefix : Bool) (operand : Text)
    → IsNonempty operand
    → IsNonempty (unary_code operator prefix operand)
unfolding unary_code prefix_code txt
unary_code-IsNonempty operator true operand h = search (nonempty)
unary_code-IsNonempty operator false operand h = search (nonempty)

pub optional_code-IsNonempty :
    (computed : Bool) (object property : Text) → IsNonempty (optional_code computed object property)
unfolding optional_code txt
optional_code-IsNonempty true object property = search (nonempty)
optional_code-IsNonempty false object property = search (nonempty)

pub assignment_code-IsNonempty :
    (operator left right : Text)
    → IsNonempty left
    → IsNonempty (assignment_code operator left right)
unfolding assignment_code txt
assignment_code-IsNonempty operator left right h = search (nonempty)

pub template_code-IsNonempty :
    (codes : List Text) → All IsNonempty codes → IsNonempty (template_code codes)
unfolding template_code txt
template_code-IsNonempty [] h = search (nonempty)
template_code-IsNonempty (c ∷ []) (h, _) = h
template_code-IsNonempty (c ∷ d ∷ codes) h = search (nonempty)

pub new_code-IsNonempty :
    (callee : Text) (args : List Text) → IsNonempty callee → IsNonempty (new_code callee args)
unfolding new_code txt
new_code-IsNonempty callee args h = search (nonempty)
