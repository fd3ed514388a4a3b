-- ===== src/Codegen/Lexical/Whole.antt =====
-- The code that `generateExpression` of src/codegen/generator.ts makes of a plain expression closes what
-- it opens.
use typescript2cxx.Prelude.{
  ◌≡◌, inl, inr, Bool, true, false, Option, some, none, [], ◌∷◌, ◌++◌, Text, txt, text_eq, All,
  OfSome, lookup, lookup-All, printed, as_text-OfSome,
}
use typescript2cxx.Codegen.Identifier.{IrIdentifier, generate_identifier}
use typescript2cxx.Codegen.Identifier.Laws.{OfSome-of}
use typescript2cxx.Codegen.Nodes.{
  Expression, Expressions, Properties, Key, identifier, literal, binary, unary, call, member,
  optional_chaining, assignment, array, object_expression, conditional, new_expression, this,
  template_literal, await, function, spread, other, nil, hole, cons, no_properties, entry, name_key,
  expression_key,
}
use typescript2cxx.Codegen.Monad.{Reader, Generator, M, ◌>>=◌, pure, lift, next_temp}
use typescript2cxx.Codegen.Operators.{paren, text_part, concat_array, concat_element}
use typescript2cxx.Codegen.Infer.{element_type}
use typescript2cxx.Codegen.Pieces.{
  is_super, identifier_code, placed_code, property_text, has_spread,
}
use typescript2cxx.Codegen.Member.Access.{scope, named_access}
use typescript2cxx.Codegen.Regular.{RegularExpression, IsNonempty}
use typescript2cxx.Codegen.Generate.{
  operator_include, generate_access, generate_expression, generate_delete, generate_optional,
  generate_arguments, generate_elements, generate_concat, generate_parts, generate_properties,
  generate_key,
}
use typescript2cxx.Codegen.Generate.Total.{generate_expression-total}
use typescript2cxx.Codegen.Generate.Yields.{
  Yields, Yields-pure, Yields-bind, Yields-lift, Yields-if, Yields-elim, Yields-none,
  Yields-Whatever,
}
use typescript2cxx.Codegen.Lexical.{
  IsClosed, IsQuoted, IsBare, IsClosed-append, nil-IsClosed, IsClosed-of_IsBare, IsQuoted-of_IsBare,
}
use typescript2cxx.Codegen.Lexical.Operators.{
  binary_code-IsClosed, unary_code-IsClosed, assignment_code-IsClosed, optional_code-IsClosed,
  conditional_code-IsClosed, call_code-IsClosed, new_code-IsClosed, array_code-IsClosed,
  concat_array-IsClosed, concat_element-IsClosed, delete_computed-IsClosed, delete_named-IsClosed,
  property_code-IsClosed, object_code-IsClosed, template_code-IsClosed,
}
use typescript2cxx.Codegen.Lexical.Names.{
  PlainIdentifier, generate_identifier-Naming, IsClosed-IsNaming, IsQuoted-IsNaming,
  generate_literal-IsClosed, text_part-IsClosed,
}
use typescript2cxx.Codegen.Lexical.Access.{
  computed_access-IsClosed, named_access-IsClosed, scope-IsClosed,
}
use typescript2cxx.Codegen.Lexical.Plain.{
  PlainReader, PlainName, PlainExpression, PlainExpressions, PlainProperties, PlainKey,
}
use typescript2cxx.Codegen.Lexical.Parts.{
  IsClean, IsClean-IsNaming, name_of-IsQuoted, element_type-IsClosed, undefined_code,
  to_string-paren, delete_op-paren, await-IsClosed, spread-IsClosed, this-IsClosed, empty_array,
  temp-IsClosed, quotes-IsClosed, key_text-IsClosed,
}

module _ (r : Reader) (plain : PlainReader r) where
  identifier-IsClosed :
      (id : IrIdentifier) → PlainIdentifier id → IsClosed (printed (generate_identifier id r.names))
  identifier-IsClosed id h =
      generate_identifier-Naming IsClosed IsClosed-IsNaming id r.names plain.rest_names h

  identifier-IsClean :
      (id : IrIdentifier) → PlainIdentifier id → IsClean (printed (generate_identifier id r.names))
  identifier-IsClean id h =
      generate_identifier-Naming IsClean IsClean-IsNaming id r.names plain.rest_names h

  -- What holds of what is printed holds of the code, if there is one.
  identifier-Yields :
      (P : Text → Type 0) (id : IrIdentifier)
      → P (printed (generate_identifier id r.names))
      → Yields P (identifier_code id r.names)
  unfolding identifier_code
  identifier-Yields P id h = Yields-lift P _ (as_text-OfSome P (generate_identifier id r.names) h)

  -- The code of an object and of a name.
  object_access :
      (object : Text) (namespace : Option Text) (id : IrIdentifier)
      → IsClosed object
      → OfSome IsBare namespace
      → PlainIdentifier id
      → Yields IsClosed (elim namespace as (λ _. M Text) [
        | some n ↦ pure (printed (generate_identifier id r.names)) >>= λ p. pure (scope n p)
        | none ↦ pure id.name >>= λ p.
            lift (named_access r.to_lower_case r.to_upper_case r.current_base_class object p)
      ])
  object_access object none id h k (l, _) = Yields-lift IsClosed _ (
      named_access-IsClosed r.to_lower_case r.to_upper_case r.current_base_class object id.name
        plain.base_name h (IsClosed-of_IsBare id.name l) (IsQuoted-of_IsBare id.name l))
  object_access object (some n) id h k l =
      Yields-pure IsClosed _
        (scope-IsClosed n _ (IsClosed-of_IsBare n k) (identifier-IsClosed id l))

  access-IsClosed :
      (object : Text) (computed : Bool) (property : Expression)
      → IsClosed object
      → PlainName property
      → Yields IsClosed (
          generate_access object computed
            (property_text property (generate_expression property r))
            (placed_code computed property r.names (generate_expression property r))
            r)
  unfolding generate_access property_text placed_code generate_expression IsClosed IsClean
  access-IsClosed object true (identifier id) h k =
      Yields-bind IsClosed _ _
        (identifier-Yields (λ s. IsClosed s × IsClean s) id
          (identifier-IsClosed id k, identifier-IsClean id k))
        λ p hp.
          Yields-pure IsClosed _ (computed_access-IsClosed r.to_lower_case object p h hp.0 hp.1)
  access-IsClosed object false (identifier id) h k =
      object_access object (lookup object r.namespace_imports) id h
        (OfSome-of IsBare _
          (λ t e. lookup-All IsBare object r.namespace_imports plain.namespace_names e))
        k
  access-IsClosed object computed _ h k = elim k [ ]

  name-IsClosed : (e : Expression) → PlainName e → Yields IsClosed (generate_expression e r)
  unfolding generate_expression
  name-IsClosed (identifier id) h = identifier-Yields IsClosed id (identifier-IsClosed id h)
  name-IsClosed _ h = elim h [ ]

  placed-IsClosed :
      (computed : Bool) (e : Expression)
      → PlainName e
      → Yields IsClosed (placed_code computed e r.names (generate_expression e r))
  unfolding placed_code
  placed-IsClosed true e h = name-IsClosed e h
  placed-IsClosed false (identifier id) h = Yields-pure IsClosed _ (identifier-IsClosed id h)
  placed-IsClosed false _ h = elim h [ ]

  name-IsQuoted :
      (e : Expression)
      → PlainName e
      → Yields (λ s. IsClosed s × IsQuoted s) (generate_expression e r)
  unfolding generate_expression
  name-IsQuoted (identifier id) h = identifier-Yields _ id (
    identifier-IsClosed id h,
    generate_identifier-Naming IsQuoted IsQuoted-IsNaming id r.names plain.rest_names h,
  )
  name-IsQuoted _ h = elim h [ ]

  mutual
    unfolding generate_expression generate_delete generate_optional generate_arguments
        generate_elements generate_concat generate_parts generate_properties generate_key

    expression : (e : Expression) → PlainExpression e → Yields IsClosed (generate_expression e r)
    expression (identifier id) h = identifier-Yields IsClosed id (identifier-IsClosed id h)
    expression (literal lit) h =
        Yields-pure IsClosed _ (generate_literal-IsClosed r.to_number plain.converted lit h)
    expression (binary operator left right) (o, h, k, inl n) =
        Yields-bind IsClosed _ _ (expression left h) λ l hl.
          Yields-bind IsClosed _ _ (name-IsQuoted right n) λ s hs.
            Yields-bind IsClosed _ _ (Yields-Whatever (operator_include operator)) λ _ _.
              Yields-pure IsClosed _ (
                binary_code-IsClosed operator l s (IsClosed-of_IsBare operator o) hl hs.0
                  (inl hs.1))
    expression (binary operator left right) (o, h, k, inr q) =
        Yields-bind IsClosed _ _ (expression left h) λ l hl.
          Yields-bind IsClosed _ _ (expression right k) λ s hs.
            Yields-bind IsClosed _ _ (Yields-Whatever (operator_include operator)) λ _ _.
              Yields-pure IsClosed _
                (binary_code-IsClosed operator l s (IsClosed-of_IsBare operator o) hl hs (inr q))
    expression (unary operator prefix operand) (o, h) =
        Yields-bind IsClosed _ _ (expression operand h) λ c hc.
          Yields-if IsClosed (text_eq operator (txt "delete")) _ _ (delete operand c h hc) (
            Yields-pure IsClosed _
              (unary_code-IsClosed operator prefix c (IsClosed-of_IsBare operator o) hc))
    expression (call callee args) (h, k) =
        Yields-elim IsClosed (is_super callee) _ _ (Yields-pure IsClosed _ nil-IsClosed) (
          Yields-bind IsClosed _ _ (expression callee h) λ f hf.
            Yields-bind IsClosed _ _ (arguments args k)
              λ codes hs. Yields-pure IsClosed _ (call_code-IsClosed f codes hf hs))
    expression (member object property computed) (h, k) =
        Yields-bind IsClosed _ _ (expression object h)
          λ o ho. access-IsClosed o computed property ho k
    expression (optional_chaining base) h =
        Yields-bind IsClosed _ _ (expression base h) λ c hc. optional base c h hc
    expression (assignment operator left right) (o, h, k) =
        Yields-bind IsClosed _ _ (expression left h) λ l hl.
          Yields-bind IsClosed _ _ (expression right k) λ s hs.
            Yields-pure IsClosed _
              (assignment_code-IsClosed operator l s (IsClosed-of_IsBare operator o) hl hs)
    expression (array elems) h =
        Yields-elim IsClosed (has_spread elems) _ _ (concat elems _ h empty_array) (
          Yields-bind IsClosed _ _ (elements elems h) λ codes hs.
            Yields-pure IsClosed _
              (array_code-IsClosed (element_type elems) codes (element_type-IsClosed elems) hs))
    expression (object_expression properties) h =
        Yields-bind IsClosed _ _ (Yields-Whatever next_temp) λ n _.
          Yields-bind IsClosed _ _
            (entries properties (txt "obj_temp_" ++ r.show n) h (temp-IsClosed _ (plain.shown n)))
            λ lines hs.
              Yields-pure IsClosed _
                (object_code-IsClosed _ lines (temp-IsClosed _ (plain.shown n)) hs)
    expression (conditional test consequent alternate) (h, k, l) =
        Yields-bind IsClosed _ _ (expression test h) λ t ht.
          Yields-bind IsClosed _ _ (expression consequent k) λ c hc.
            Yields-bind IsClosed _ _ (expression alternate l)
              λ a ha. Yields-pure IsClosed _ (conditional_code-IsClosed t c a ht hc ha)
    expression (new_expression callee args) (h, k) =
        Yields-bind IsClosed _ _ (expression callee h) λ f hf.
          Yields-bind IsClosed _ _ (arguments args k)
            λ codes hs. Yields-pure IsClosed _ (new_code-IsClosed f codes hf hs)
    expression this h = Yields-pure IsClosed _ this-IsClosed
    expression (template_literal codes) h =
        Yields-bind IsClosed _ _ (parts codes h)
          λ cs hs. Yields-pure IsClosed _ (template_code-IsClosed cs hs)
    expression (await argument) h =
        Yields-bind IsClosed _ _ (expression argument h)
          λ c hc. Yields-pure IsClosed _ (await-IsClosed c hc)
    expression (function is_arrow params return_type body) h = elim h [ ]
    expression (spread argument) h =
        Yields-bind IsClosed _ _ (expression argument h)
          λ c hc. Yields-pure IsClosed _ (spread-IsClosed c hc)
    expression (other kind) h = elim h [ ]

    delete :
        (e : Expression) (c : Text)
        → PlainExpression e
        → IsClosed c
        → Yields IsClosed (generate_delete e c r)
    delete (member object property true) c (h, k) l =
        Yields-bind IsClosed _ _ (expression object h) λ o ho.
          Yields-bind IsClosed _ _ (name-IsClosed property k)
            λ p hp. Yields-pure IsClosed _ (delete_computed-IsClosed o p ho hp)
    delete (member object property false) c (h, k) l =
        Yields-bind IsClosed _ _ (expression object h) λ o ho.
          Yields-bind IsClosed _ _ (placed-IsClosed false property k) λ p hp.
            Yields-pure IsClosed _ (delete_named-IsClosed o _ ho (name_of-IsQuoted property k))
    delete _ c h l = Yields-pure IsClosed _ (delete_op-paren c l)

    optional :
        (e : Expression) (c : Text)
        → PlainExpression e
        → IsClosed c
        → Yields IsClosed (generate_optional e c r)
    optional (member object property computed) c (h, k) l =
        Yields-bind IsClosed _ _ (expression object h) λ o ho.
          Yields-bind IsClosed _ _ (placed-IsClosed computed property k)
            λ p hp. Yields-pure IsClosed _ (optional_code-IsClosed computed o p ho hp)
    optional _ c h l = Yields-pure IsClosed _ l

    arguments :
        (es : Expressions) → PlainExpressions es → Yields (All IsClosed) (generate_arguments es r)
    arguments nil h = Yields-pure (All IsClosed) [] tt
    arguments (hole es) h = Yields-none _
    arguments (cons e es) (h, k) = Yields-bind (All IsClosed) _ _ (expression e h) λ c hc.
        Yields-bind (All IsClosed) _ _ (arguments es k)
          λ cs hs. Yields-pure (All IsClosed) (c ∷ cs) (hc, hs)

    elements :
        (es : Expressions) → PlainExpressions es → Yields (All IsClosed) (generate_elements es r)
    elements nil h = Yields-pure (All IsClosed) [] tt
    elements (hole es) h =
        Yields-bind (All IsClosed) _ _ (elements es h)
          λ cs hs. Yields-pure (All IsClosed) (txt "js::undefined" ∷ cs) (undefined_code, hs)
    elements (cons e es) (h, k) = Yields-bind (All IsClosed) _ _ (expression e h) λ c hc.
        Yields-bind (All IsClosed) _ _ (elements es k)
          λ cs hs. Yields-pure (All IsClosed) (c ∷ cs) (hc, hs)

    concat :
        (es : Expressions) (result : Text)
        → PlainExpressions es
        → IsClosed result
        → Yields IsClosed (generate_concat es result r)
    concat nil result h l = Yields-pure IsClosed _ l
    concat (hole es) result h l =
        concat es (concat_element result (txt "js::undefined")) h
          (concat_element-IsClosed result _ l undefined_code)
    concat (cons (spread argument) es) result (h, k) l =
        Yields-bind IsClosed _ _ (expression argument h)
          λ c hc. concat es (concat_array result c) k (concat_array-IsClosed result c l hc)
    concat (cons e es) result (h, k) l =
        Yields-bind IsClosed _ _ (expression e h)
          λ c hc. concat es (concat_element result c) k (concat_element-IsClosed result c l hc)

    parts : (es : Expressions) → PlainExpressions es → Yields (All IsClosed) (generate_parts es r)
    parts nil h = Yields-pure (All IsClosed) [] tt
    parts (hole es) h = Yields-none _
    parts (cons (literal lit) es) (_, h) =
        Yields-bind (All IsClosed) _ _ (parts es h)
          λ cs hs. Yields-pure (All IsClosed) (text_part lit ∷ cs) (text_part-IsClosed lit, hs)
    parts (cons e es) (h, k) = Yields-bind (All IsClosed) _ _ (expression e h) λ c hc.
        Yields-bind (All IsClosed) _ _ (parts es k) λ cs hs.
          Yields-pure (All IsClosed) ((txt "js::toString" ++ paren c) ∷ cs)
            (to_string-paren c hc, hs)

    entries :
        (ps : Properties) (name : Text)
        → PlainProperties ps
        → IsClosed name
        → Yields IsClosed (generate_properties ps name r)
    entries no_properties name h l = Yields-pure IsClosed _ nil-IsClosed
    entries (entry k e ps) name (h, i, j) l = Yields-bind IsClosed _ _ (key k h) λ t ht.
        Yields-bind IsClosed _ _ (expression e i) λ c hc.
          Yields-bind IsClosed _ _ (entries ps name j l) λ rest hs.
            Yields-pure IsClosed _
              (IsClosed-append _ rest (property_code-IsClosed name t c l ht hc) hs)

    key : (k : Key) → PlainKey k → Yields IsClosed (generate_key k r)
    key (name_key name) h = Yields-pure IsClosed _ (quotes-IsClosed name h)
    key (expression_key true e) (h, _) =
        Yields-bind IsClosed _ _ (expression e h)
          λ c hc. Yields-pure IsClosed _ (to_string-paren c hc)
    key (expression_key false e) (h, k) = key_text-IsClosed e _ h k (expression e h)

  -- The code of an expression that is regular and plain is made, and in it every bracket and every
  -- string literal that is opened is closed, and no other: if the names that the context has are not
  -- empty, have no bracket, quote or backslash, and numbers come out as digits.
  -- Regular excludes a missing argument, a call of `super`, `for … in`, an empty name, and a read
  -- identifier or the type of a variable or a literal with the name of an inherited member.
  pub generate_expression-IsClosed :
      (e : Expression)
      → All (λ p. IsNonempty p.1) r.names.rest_param_mappings
      → RegularExpression e
      → PlainExpression e
      → (g : Generator)
      → (code : Text) × (g' : Generator) × (generate_expression e r g ≡ some (code, g'))
        × IsClosed code
  unfolding Yields
  generate_expression-IsClosed e mapped h k g =
      let (c, g', f, s, _) = generate_expression-total r mapped e h g in
      (c, g', f, expression e k g g' c f)
