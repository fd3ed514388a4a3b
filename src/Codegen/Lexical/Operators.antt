-- ===== src/Codegen/Lexical/Operators.antt =====
-- The code of an expression in src/codegen/generator.ts closes what it opens, if that of its parts does.
use typescript2cxx.Prelude.{
  ℕ, ◌≡◌, refl, inl, inr, ◌⊎◌, Bool, true, false, if◌then◌else◌, some, List, [], ◌∷◌, ◌++◌, ◌||◌,
  Text, txt, text_eq, All, includes, append_assoc, arith,
}
use typescript2cxx.Codegen.Operators.{
  paren, call_code, instance_name, binary_code, prefix_code, unary_code, delete_computed,
  delete_named, optional_code, assignment_code, template_code, array_code, concat_array,
  concat_element, conditional_code, new_code, runtime_classes, object_code, property_code,
}
use typescript2cxx.Codegen.Lexical.{
  IsClosed, IsQuoted, lex, lex-append, advance, code, quoted, IsClosed-append, IsClosed-of_IsBare,
  IsClosed-paren, IsClosed-join,
}

pub if-IsClosed : (b : Bool) (s t : Text) → IsClosed s → IsClosed t → IsClosed (if b then s else t)
if-IsClosed true s t h k = h
if-IsClosed false s t h k = k

pub if-IsQuoted : (b : Bool) (s t : Text) → IsQuoted s → IsQuoted t → IsQuoted (if b then s else t)
if-IsQuoted true s t h k = h
if-IsQuoted false s t h k = k

unless-IsClosed :
    {Q : Type 0} (b : Bool) (s t : Text)
    → (Q → IsClosed s)
    → Q ⊎ (b ≡ false)
    → IsClosed t
    → IsClosed (if b then s else t)
unless-IsClosed true s t h (inl q) k = h q
unless-IsClosed true s t h (inr e) k = absurd (ground (arith, e))
unless-IsClosed false s t h q k = k

instance_name-IsQuoted : (right : Text) → IsQuoted right → IsQuoted (instance_name right)
unfolding instance_name txt IsQuoted lex advance
instance_name-IsQuoted right h =
    if-IsQuoted (text_eq right (txt "js::array")) _ _ (λ st. refl)
      (if-IsQuoted (text_eq right (txt "js::string")) _ _ (λ st. refl)
        (if-IsQuoted (text_eq right (txt "js::number")) _ _ (λ st. refl)
          (if-IsQuoted (text_eq right (txt "js::object")) _ _ (λ st. refl) h)))

pub closed_by : (s : Text) → ((st : List ℕ) → lex (code, st) s ≡ some (code, st)) → IsClosed s
unfolding IsClosed
closed_by s h = h

-- A closed text, and a part of a string literal, may be passed over.
pub skip :
    (s : Text) → IsClosed s → (st : List ℕ) (t : Text) → lex (code, st) (s ++ t) ≡ lex (code, st) t
unfolding IsClosed
skip s h st t = rw (lex-append (code, st) s t, h st) refl

pub skip_end : (s : Text) → IsClosed s → (st : List ℕ) → lex (code, st) s ≡ some (code, st)
unfolding IsClosed
skip_end s h st = h st

pub skip_quoted :
    (s : Text)
    → IsQuoted s
    → (st : List ℕ) (t : Text) → lex (quoted, st) (s ++ t) ≡ lex (quoted, st) t
unfolding IsQuoted
skip_quoted s h st t = rw (lex-append (quoted, st) s t, h st) refl

prefix_code-IsClosed :
    (operator : Text) (prefix : Bool) (operand : Text)
    → IsClosed operator
    → IsClosed operand
    → IsClosed (prefix_code operator prefix operand)
unfolding prefix_code
prefix_code-IsClosed operator true operand o h = IsClosed-append operator operand o h
prefix_code-IsClosed operator false operand o h = IsClosed-append operand operator h o

pub unary_code-IsClosed :
    (operator : Text) (prefix : Bool) (operand : Text)
    → IsClosed operator
    → IsClosed operand
    → IsClosed (unary_code operator prefix operand)
unfolding unary_code txt lex advance
unary_code-IsClosed operator prefix operand o h =
    if-IsClosed (text_eq operator (txt "typeof")) _ _
      (closed_by _ λ st. simp (append_assoc, skip operand h))
      (if-IsClosed (text_eq operator (txt "void")) _ _
        (closed_by _ λ st. simp (append_assoc, skip operand h))
        (prefix_code-IsClosed operator prefix operand o h))

unequal-IsClosed :
    (b : Bool) (left right : Text)
    → IsClosed left
    → IsClosed right
    → IsClosed (if b then left ++ txt ".has_value()" else paren (left ++ (txt " != " ++ right)))
unfolding txt lex advance
unequal-IsClosed true left right h k = closed_by _ λ st. simp (skip left h)
unequal-IsClosed false left right h k =
    closed_by _ λ st. simp (append_assoc, skip left h, skip right k)

named_operator-IsClosed :
    (operator left right : Text)
    → IsClosed operator
    → IsClosed left
    → IsClosed right
    → IsQuoted right ⊎ (text_eq operator (txt "instanceof") ≡ false)
    → IsClosed (
        if text_eq operator (txt "instanceof")
        then txt "js::instanceof_op"
          ++ paren (left ++ (txt ", " ++ (txt "\"" ++ (instance_name right ++ txt "\""))))
        else if text_eq operator (txt "in")
        then txt "js::in_op" ++ paren (left ++ (txt ", " ++ right))
        else paren (left ++ (txt " " ++ (operator ++ (txt " " ++ right)))))
unfolding txt lex advance
named_operator-IsClosed operator left right o h k q =
    unless-IsClosed (text_eq operator (txt "instanceof"))
      (txt "js::instanceof_op"
        ++ paren (left ++ (txt ", " ++ (txt "\"" ++ (instance_name right ++ txt "\"")))))
      _
      (λ p.
        closed_by _
          λ st. simp (append_assoc, skip left h, skip_quoted _ (instance_name-IsQuoted right p)))
      q
      (if-IsClosed (text_eq operator (txt "in")) _ _
        (closed_by _ λ st. simp (append_assoc, skip left h, skip right k))
        (closed_by _ λ st. simp (append_assoc, skip left h, skip operator o, skip right k)))

pub binary_code-IsClosed :
    (operator left right : Text)
    → IsClosed operator
    → IsClosed left
    → IsClosed right
    → IsQuoted right ⊎ (text_eq operator (txt "instanceof") ≡ false)
    → IsClosed (binary_code operator left right)
unfolding binary_code txt lex advance
binary_code-IsClosed operator left right o h k q =
    if-IsClosed (text_eq operator (txt "===") || text_eq operator (txt "=="))
      (paren (left ++ (txt " == " ++ right))) _
      (closed_by _ λ st. simp (append_assoc, skip left h, skip right k))
      (if-IsClosed (text_eq operator (txt "!==") || text_eq operator (txt "!=")) _ _
        (unequal-IsClosed (text_eq right (txt "js::undefined")) left right h k)
        (if-IsClosed (text_eq operator (txt "??")) _ _
          (closed_by _ λ st. simp (append_assoc, skip left h, skip right k))
          (if-IsClosed (text_eq operator (txt "**")) _ _
            (closed_by _ λ st. simp (append_assoc, skip left h, skip right k))
            (named_operator-IsClosed operator left right o h k q))))

pub assignment_code-IsClosed :
    (operator left right : Text)
    → IsClosed operator
    → IsClosed left
    → IsClosed right
    → IsClosed (assignment_code operator left right)
unfolding assignment_code txt lex advance
assignment_code-IsClosed operator left right o h k =
    if-IsClosed (text_eq operator (txt "&&=")) _ _
      (closed_by _ λ st. simp (append_assoc, skip left h, skip right k))
      (if-IsClosed (text_eq operator (txt "||=")) _ _
        (closed_by _ λ st. simp (append_assoc, skip left h, skip right k))
        (if-IsClosed (text_eq operator (txt "??=")) _ _
          (closed_by _ λ st. simp (append_assoc, skip left h, skip right k))
          (closed_by _ λ st. simp (append_assoc, skip left h, skip operator o, skip_end right k))))

pub optional_code-IsClosed :
    (computed : Bool) (object property : Text)
    → IsClosed object
    → IsClosed property
    → IsClosed (optional_code computed object property)
unfolding optional_code txt lex advance
optional_code-IsClosed true object property h k =
    closed_by _ λ st. simp (append_assoc, skip object h, skip property k)
optional_code-IsClosed false object property h k =
    closed_by _ λ st. simp (append_assoc, skip object h, skip property k)

pub conditional_code-IsClosed :
    (test consequent alternate : Text)
    → IsClosed test
    → IsClosed consequent
    → IsClosed alternate
    → IsClosed (conditional_code test consequent alternate)
unfolding txt lex advance
conditional_code-IsClosed test consequent alternate h k l =
    closed_by _ λ st. simp (append_assoc, skip test h, skip consequent k, skip alternate l)

pub paren-IsClosed : (before s : Text) → IsClosed before → IsClosed s → IsClosed (before ++ paren s)
paren-IsClosed before s h k = IsClosed-append before _ h (IsClosed-paren s k)

comma : IsClosed (txt ", ")
unfolding txt
comma = IsClosed-of_IsBare _ (refl, (refl, tt))

pub call_code-IsClosed :
    (callee : Text) (args : List Text)
    → IsClosed callee
    → All IsClosed args
    → IsClosed (call_code callee args)
call_code-IsClosed callee args h k =
    paren-IsClosed callee _ h (IsClosed-join (txt ", ") args comma k)

shared :
    (callee : Text) → IsClosed callee → IsClosed (txt "std::make_shared<" ++ (callee ++ txt ">"))
unfolding txt lex advance
shared callee h = closed_by _ λ st. simp (skip callee h)

pub new_code-IsClosed :
    (callee : Text) (args : List Text)
    → IsClosed callee
    → All IsClosed args
    → IsClosed (new_code callee args)
unfolding new_code
new_code-IsClosed callee args h k =
    if-IsClosed (includes runtime_classes callee) _ _ (call_code-IsClosed callee args h k)
      (call_code-IsClosed _ args (shared callee h) k)

pub array_code-IsClosed :
    (type : Text) (elements : List Text)
    → IsClosed type
    → All IsClosed elements
    → IsClosed (array_code type elements)
unfolding array_code txt lex advance
array_code-IsClosed type elements h k =
    closed_by _
      λ st. simp (append_assoc, skip type h, skip _ (IsClosed-join (txt ", ") elements comma k))

pub concat_array-IsClosed :
    (result arg : Text) → IsClosed result → IsClosed arg → IsClosed (concat_array result arg)
unfolding txt lex advance
concat_array-IsClosed result arg h k =
    closed_by _ λ st. simp (append_assoc, skip result h, skip arg k)

pub concat_element-IsClosed :
    (result value : Text)
    → IsClosed result
    → IsClosed value
    → IsClosed (concat_element result value)
unfolding txt lex advance
concat_element-IsClosed result value h k =
    closed_by _ λ st. simp (append_assoc, skip result h, skip value k)

pub delete_computed-IsClosed :
    (object property : Text)
    → IsClosed object
    → IsClosed property
    → IsClosed (delete_computed object property)
unfolding delete_computed txt lex advance
delete_computed-IsClosed object property h k =
    closed_by _ λ st. simp (append_assoc, skip object h, skip property k)

pub delete_named-IsClosed :
    (object name : Text) → IsClosed object → IsQuoted name → IsClosed (delete_named object name)
unfolding delete_named txt lex advance
delete_named-IsClosed object name h k =
    closed_by _ λ st. simp (append_assoc, skip object h, skip_quoted name k)

pub property_code-IsClosed :
    (name key value : Text)
    → IsClosed name
    → IsClosed key
    → IsClosed value
    → IsClosed (property_code name key value)
unfolding property_code txt lex advance
property_code-IsClosed name key value h k l =
    closed_by _ λ st. simp (append_assoc, skip name h, skip key k, skip value l)

pub object_code-IsClosed :
    (name lines : Text) → IsClosed name → IsClosed lines → IsClosed (object_code name lines)
unfolding object_code txt lex advance
object_code-IsClosed name lines h k =
    closed_by _ λ st. simp (append_assoc, skip name h, skip lines k)

plus : IsClosed (txt " + ")
unfolding txt
plus = IsClosed-of_IsBare _ (refl, (refl, (refl, tt)))

empty_string : IsClosed (txt "\"\"_S")
unfolding txt lex advance
empty_string = closed_by _ λ st. refl

pub template_code-IsClosed :
    (codes : List Text) → All IsClosed codes → IsClosed (template_code codes)
unfolding template_code
template_code-IsClosed [] h = empty_string
template_code-IsClosed (c ∷ []) (h, _) = h
template_code-IsClosed (c ∷ d ∷ codes) h =
    IsClosed-paren _ (IsClosed-join (txt " + ") (c ∷ d ∷ codes) plus h)
