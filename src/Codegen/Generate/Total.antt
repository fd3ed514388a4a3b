-- ===== src/Codegen/Generate/Total.antt =====
-- `generateExpression` and `generateStatement` of src/codegen/generator.ts throw nothing at regular
-- syntax, and leave the indentation as it was.
use typescript2cxx.Prelude.{
  ◌≡◌, Bool, true, false, some, List, ◌∷◌, ◌++◌, Text, txt, arith, All, text_eq,
}
use typescript2cxx.Codegen.Nodes.{
  Expression, Expressions, MaybeExpression, Properties, Key, Parameters, Statement, Statements,
  MaybeStatement, Declarators, Cases, Initializer, Handler, Finalizer, identifier, literal, binary,
  unary, call, member, optional_chaining, assignment, array, object_expression, conditional,
  new_expression, this, template_literal, await, function, spread, other, nil, hole, cons, absent,
  present, no_properties, entry, name_key, expression_key, no_parameters, parameter, no_code,
  variable, block, if_statement, switch, while, for, for_of, for_in, return, try_statement, throw,
  break, continue, expression_statement, other_statement, end, next, no_statement, some_statement,
  no_declarators, declarator, no_cases, case_clause, no_initializer, variable_initializer,
  expression_initializer, no_handler, handler, no_finalizer, finalizer,
}
use typescript2cxx.Codegen.Monad.{Reader, Generator}
use typescript2cxx.Codegen.Operators.{type_or_any, paren, text_part, concat_array, concat_element}
use typescript2cxx.Codegen.Infer.{element_type}
use typescript2cxx.Codegen.Pieces.{is_super, has_spread}
use typescript2cxx.Codegen.Regular.{
  IsNonempty, RegularExpression, RegularExpressions, RegularMaybe, RegularProperties, RegularKey,
  RegularParameters, RegularStatement, RegularStatements, RegularElse, RegularDeclarators,
  RegularCases, RegularInitializer, RegularHandler, RegularFinalizer,
}
use typescript2cxx.Codegen.Generate.{
  generate_expression, generate_delete, generate_optional, generate_arguments, generate_elements,
  generate_concat, generate_parts, generate_properties, generate_key, generate_parameters,
  generate_maybe, generate_codes, generate_body, generate_statement, generate_lines, generate_else,
  generate_cases, generate_case_body, generate_initializer, generate_declarators, generate_type,
  generate_inferred, generate_init, generate_handler, generate_finalizer,
}
use typescript2cxx.Codegen.Generate.Ensures.{
  Stays, Any, forget, Ensures, Ensures-pure, Ensures-bind, Ensures-if, Ensures-elim,
  Ensures-next_temp, Ensures-get_indent, Ensures-deeper, Ensures-deeper_twice,
}
use typescript2cxx.Codegen.Generate.Nonempty.{
  cons-IsNonempty, IsNonempty-append, binary_code-IsNonempty, unary_code-IsNonempty,
  optional_code-IsNonempty, assignment_code-IsNonempty, template_code-IsNonempty,
  new_code-IsNonempty, object_code-IsNonempty, array_code-IsNonempty, delete_computed-IsNonempty,
  delete_named-IsNonempty, text_part-IsNonempty, lambda_return-IsNonempty, lambda_block-IsNonempty,
}
use typescript2cxx.Codegen.Generate.Names.{generate_literal-IsNonempty}
use typescript2cxx.Codegen.Generate.Steps.{
  map_type-Ensures, infer_type-Ensures, property_text-Ensures, key_text-Ensures, own_type-Ensures,
  identifier_code-Ensures, placed_code-Ensures, return_type_code-Ensures, operator_include-Ensures,
  in_block-Ensures, one_deeper-Ensures, generate_access-Ensures,
}

module _ (r : Reader) (mapped : All (λ p. IsNonempty p.1) r.names.rest_param_mappings) where
  mutual
    unfolding generate_expression generate_delete generate_optional generate_arguments
        generate_elements generate_concat generate_parts generate_properties generate_key
        generate_parameters generate_maybe generate_codes generate_body generate_statement
        generate_lines generate_else generate_cases generate_case_body generate_initializer
        generate_declarators generate_type generate_inferred generate_init generate_handler
        generate_finalizer txt

    pub expression :
        (e : Expression) → RegularExpression e → Ensures IsNonempty (generate_expression e r)
    expression (identifier id) h = identifier_code-Ensures id r.names mapped h
    expression (literal lit) h =
        Ensures-pure IsNonempty _ (generate_literal-IsNonempty r.to_number lit h.0)
    expression (binary operator left right) (h, k) =
        Ensures-bind IsNonempty _ _ (expression left h) λ l hl.
          Ensures-bind IsNonempty _ _ (expression right k) λ s _.
            Ensures-bind IsNonempty _ _ (operator_include-Ensures operator)
              λ _ _. Ensures-pure IsNonempty _ (binary_code-IsNonempty operator l s hl)
    expression (unary operator prefix operand) h =
        Ensures-bind IsNonempty _ _ (expression operand h) λ code hc.
          Ensures-if IsNonempty (text_eq operator (txt "delete")) _ _ (delete operand code h)
            (Ensures-pure IsNonempty _ (unary_code-IsNonempty operator prefix code hc))
    expression (call callee args) (h, k, l) =
        Ensures-elim IsNonempty (is_super callee) _ _ (λ e. absurd (ground (arith, h, e)))
          λ _. Ensures-bind IsNonempty _ _ (expression callee k) λ f hf.
            Ensures-bind IsNonempty _ _ (arguments args l)
              λ codes _. Ensures-pure IsNonempty _ (IsNonempty-append f _ hf)
    expression (member object property computed) (h, k) =
        Ensures-bind IsNonempty _ _ (expression object h) λ o ho.
          generate_access-Ensures o computed _ _ r ho
            (property_text-Ensures computed property _
              (λ i. forget IsNonempty _ (expression property i)) k)
            (placed_code-Ensures computed property r.names _
              (λ i. forget IsNonempty _ (expression property i)) k)
    expression (optional_chaining base) h =
        Ensures-bind IsNonempty _ _ (expression base h) λ code hc. optional base code h hc
    expression (assignment operator left right) (h, k) =
        Ensures-bind IsNonempty _ _ (expression left h) λ l hl.
          Ensures-bind IsNonempty _ _ (expression right k)
            λ s _. Ensures-pure IsNonempty _ (assignment_code-IsNonempty operator l s hl)
    expression (array elems) h =
        Ensures-elim IsNonempty (has_spread elems) _ _ (λ _. concat elems _ h (cons-IsNonempty _ _))
          λ _.
            Ensures-bind IsNonempty _ _ (elements elems h) λ codes _.
              Ensures-pure IsNonempty _ (array_code-IsNonempty (element_type elems) codes)
    expression (object_expression properties) h =
        Ensures-bind IsNonempty _ _ Ensures-next_temp λ n _.
          Ensures-bind IsNonempty _ _ (entries properties (txt "obj_temp_" ++ r.show n) h)
            λ code _. Ensures-pure IsNonempty _ (object_code-IsNonempty _ code)
    expression (conditional test consequent alternate) (h, k, l) =
        Ensures-bind IsNonempty _ _ (expression test h) λ t _.
          Ensures-bind IsNonempty _ _ (expression consequent k) λ c _.
            Ensures-bind IsNonempty _ _ (expression alternate l)
              λ a _. Ensures-pure IsNonempty _ (cons-IsNonempty _ _)
    expression (new_expression callee args) (h, k) =
        Ensures-bind IsNonempty _ _ (expression callee h) λ f hf.
          Ensures-bind IsNonempty _ _ (arguments args k)
            λ codes _. Ensures-pure IsNonempty _ (new_code-IsNonempty f codes hf)
    expression this h = Ensures-pure IsNonempty _ (cons-IsNonempty _ _)
    expression (template_literal codes) h =
        Ensures-bind IsNonempty _ _ (parts codes h)
          λ cs hs. Ensures-pure IsNonempty _ (template_code-IsNonempty cs hs)
    expression (await argument) h =
        Ensures-bind IsNonempty _ _ (expression argument h)
          λ code _. Ensures-pure IsNonempty _ (cons-IsNonempty _ _)
    expression (function is_arrow params return_type body) (h, k) =
        Ensures-bind IsNonempty _ _ (parameters params h) λ codes _.
          Ensures-bind IsNonempty _ _ (return_type_code-Ensures return_type) λ type _.
            Ensures-bind IsNonempty _ _ (codes_of body k) λ lines _. end_of_lambda body _ lines k
    expression (spread argument) h =
        Ensures-bind IsNonempty _ _ (expression argument h)
          λ code _. Ensures-pure IsNonempty _ (cons-IsNonempty _ _)
    expression (other kind) h = Ensures-pure IsNonempty _ (cons-IsNonempty _ _)

    delete :
        (e : Expression) (code : Text)
        → RegularExpression e
        → Ensures IsNonempty (generate_delete e code r)
    delete (member object property true) code (h, k) =
        Ensures-bind IsNonempty _ _ (expression object h) λ o _.
          Ensures-bind IsNonempty _ _ (expression property k)
            λ p _. Ensures-pure IsNonempty _ (delete_computed-IsNonempty o p)
    delete (member object property false) code (h, k) =
        Ensures-bind IsNonempty _ _ (expression object h) λ o _.
          Ensures-bind IsNonempty _ _
            (placed_code-Ensures false property r.names _
              (λ i. forget IsNonempty _ (expression property i)) k)
            λ p _. Ensures-pure IsNonempty _ (delete_named-IsNonempty o _)
    delete _ code h = Ensures-pure IsNonempty _ (cons-IsNonempty _ _)

    optional :
        (e : Expression) (code : Text)
        → RegularExpression e
        → IsNonempty code
        → Ensures IsNonempty (generate_optional e code r)
    optional (member object property computed) code (h, k) c =
        Ensures-bind IsNonempty _ _ (expression object h) λ o _.
          Ensures-bind IsNonempty _ _
            (placed_code-Ensures computed property r.names _
              (λ i. forget IsNonempty _ (expression property i)) k)
            λ p _. Ensures-pure IsNonempty _ (optional_code-IsNonempty computed o p)
    optional _ code h c = Ensures-pure IsNonempty _ c

    arguments :
        (es : Expressions) → RegularExpressions false es → Ensures Any (generate_arguments es r)
    arguments nil h = Ensures-pure Any _ tt
    arguments (hole es) (h, _) = absurd (ground (arith, h))
    arguments (cons e es) (h, k) =
        Ensures-bind Any _ _ (expression e h)
          λ code _. Ensures-bind Any _ _ (arguments es k) λ codes _. Ensures-pure Any _ tt

    elements :
        (es : Expressions) → RegularExpressions true es → Ensures Any (generate_elements es r)
    elements nil h = Ensures-pure Any _ tt
    elements (hole es) (_, h) =
        Ensures-bind Any _ _ (elements es h) λ codes _. Ensures-pure Any _ tt
    elements (cons e es) (h, k) =
        Ensures-bind Any _ _ (expression e h)
          λ code _. Ensures-bind Any _ _ (elements es k) λ codes _. Ensures-pure Any _ tt

    concat :
        (es : Expressions) (result : Text)
        → RegularExpressions true es
        → IsNonempty result
        → Ensures IsNonempty (generate_concat es result r)
    concat nil result h c = Ensures-pure IsNonempty _ c
    concat (hole es) result (_, h) c =
        concat es (concat_element result (txt "js::undefined")) h (IsNonempty-append result _ c)
    concat (cons (spread argument) es) result (h, k) c =
        Ensures-bind IsNonempty _ _ (expression argument h)
          λ code _. concat es (concat_array result code) k (IsNonempty-append result _ c)
    concat (cons e es) result (h, k) c =
        Ensures-bind IsNonempty _ _ (expression e h)
          λ code _. concat es (concat_element result code) k (IsNonempty-append result _ c)

    parts :
        (es : Expressions)
        → RegularExpressions false es
        → Ensures (All IsNonempty) (generate_parts es r)
    parts nil h = Ensures-pure (All IsNonempty) _ tt
    parts (hole es) (h, _) = absurd (ground (arith, h))
    parts (cons (literal lit) es) (_, h) =
        Ensures-bind (All IsNonempty) _ _ (parts es h) λ codes hs.
          Ensures-pure (All IsNonempty) (text_part lit ∷ codes) (text_part-IsNonempty lit, hs)
    parts (cons e es) (h, k) = Ensures-bind (All IsNonempty) _ _ (expression e h) λ code _.
        Ensures-bind (All IsNonempty) _ _ (parts es k) λ codes hs.
          Ensures-pure (All IsNonempty) ((txt "js::toString" ++ paren code) ∷ codes)
            (cons-IsNonempty _ _, hs)

    pub entries :
        (ps : Properties) (name : Text)
        → RegularProperties ps
        → Ensures Any (generate_properties ps name r)
    entries no_properties name h = Ensures-pure Any _ tt
    entries (entry k e ps) name (h, i, j) = Ensures-bind Any _ _ (key k h) λ t _.
        Ensures-bind Any _ _ (expression e i)
          λ code _. Ensures-bind Any _ _ (entries ps name j) λ rest _. Ensures-pure Any _ tt

    key : (k : Key) → RegularKey k → Ensures Any (generate_key k r)
    key (name_key name) h = Ensures-pure Any _ tt
    key (expression_key true e) h =
        Ensures-bind Any _ _ (expression e h) λ code _. Ensures-pure Any _ tt
    key (expression_key false e) h =
        key_text-Ensures e _ (λ i. forget IsNonempty _ (expression e i)) h

    parameters : (ps : Parameters) → RegularParameters ps → Ensures Any (generate_parameters ps r)
    parameters no_parameters h = Ensures-pure Any _ tt
    parameters (parameter name type default ps) (h, k) =
        Ensures-bind Any _ _ (maybe default h) λ init _.
          Ensures-bind Any _ _ (map_type-Ensures (type_or_any type))
            λ cpp_type _. Ensures-bind Any _ _ (parameters ps k) λ codes _. Ensures-pure Any _ tt

    maybe : (e : MaybeExpression) → RegularMaybe e → Ensures Any (generate_maybe e r)
    maybe absent h = Ensures-pure Any _ tt
    maybe (present e) h = Ensures-bind Any _ _ (expression e h) λ code _. Ensures-pure Any _ tt

    codes_of : (ss : Statements) → RegularStatements ss → Ensures Any (generate_codes ss r)
    codes_of end h = Ensures-pure Any _ tt
    codes_of (next s ss) (h, k) =
        Ensures-bind Any _ _ (statement s h)
          λ code _. Ensures-bind Any _ _ (codes_of ss k) λ codes _. Ensures-pure Any _ tt

    end_of_lambda :
        (ss : Statements) (head : Text) (lines : List Text)
        → RegularStatements ss
        → Ensures IsNonempty (generate_body ss head lines r)
    end_of_lambda (next (return (present e)) end) head lines (h, _) =
        Ensures-bind IsNonempty _ _ (expression e h)
          λ code _. Ensures-pure IsNonempty _ (lambda_return-IsNonempty head code)
    end_of_lambda _ head lines h = Ensures-pure IsNonempty _ (lambda_block-IsNonempty head lines)

    pub statement : (s : Statement) → RegularStatement s → Ensures Any (generate_statement s r)
    statement no_code h = Ensures-pure Any _ tt
    statement (variable const ds) h =
        Ensures-bind Any _ _ (declarators const ds h) λ lines _. Ensures-pure Any _ tt
    statement (block body) h = in_block-Ensures _ (lines_of body h)
    statement (if_statement test consequent alternate) (h, k, l) =
        Ensures-bind Any _ _ (expression test h) λ condition _.
          Ensures-bind Any _ _ (one_deeper-Ensures _ (statement consequent k))
            λ lines _. Ensures-bind Any _ _ (otherwise alternate l) λ rest _. Ensures-pure Any _ tt
    statement (switch discriminant cs) (h, k) =
        Ensures-bind Any _ _ (expression discriminant h)
          λ code _. Ensures-deeper Any _ _ (cases cs k) λ lines _. Ensures-pure Any _ tt
    statement (while test body) (h, k) = Ensures-bind Any _ _ (expression test h) λ condition _.
        Ensures-bind Any _ _ (one_deeper-Ensures _ (statement body k))
          λ lines _. Ensures-pure Any _ tt
    statement (for init test update body) (h, k, l, m) =
        Ensures-bind Any _ _ (initializer init h) λ i _. Ensures-bind Any _ _ (maybe test k) λ t _.
          Ensures-bind Any _ _ (maybe update l) λ u _.
            Ensures-bind Any _ _ (one_deeper-Ensures _ (statement body m))
              λ lines _. Ensures-pure Any _ tt
    statement (for_of left right body) (h, k) = Ensures-bind Any _ _ (expression right h) λ code _.
        Ensures-bind Any _ _ (one_deeper-Ensures _ (statement body k))
          λ lines _. Ensures-pure Any _ tt
    statement (for_in left right body) h = elim h [ ]
    statement (return argument) h =
        Ensures-bind Any _ _ (maybe argument h) λ code _. Ensures-pure Any _ tt
    statement (try_statement body catch_part finally_part) (h, k, l) =
        Ensures-bind Any _ _ (in_block-Ensures _ (lines_of body h)) λ code _.
          Ensures-bind Any _ _ (catches catch_part k) λ catch_code _.
            Ensures-bind Any _ _ (finally finally_part l) λ finally_code _. Ensures-pure Any _ tt
    statement (throw argument) h =
        Ensures-bind Any _ _ (expression argument h) λ code _. Ensures-pure Any _ tt
    statement (break label) h = Ensures-pure Any _ tt
    statement (continue label) h = Ensures-pure Any _ tt
    statement (expression_statement e) h =
        Ensures-bind Any _ _ (expression e h) λ code _. Ensures-pure Any _ tt
    statement (other_statement kind) h = Ensures-pure Any _ tt

    lines_of : (ss : Statements) → RegularStatements ss → Ensures Any (generate_lines ss r)
    lines_of end h = Ensures-pure Any _ tt
    lines_of (next s ss) (h, k) = Ensures-bind Any _ _ (statement s h) λ code _.
        Ensures-bind Any _ _ Ensures-get_indent
          λ n _. Ensures-bind Any _ _ (lines_of ss k) λ lines _. Ensures-pure Any _ tt

    otherwise : (s : MaybeStatement) → RegularElse s → Ensures Any (generate_else s r)
    otherwise no_statement h = Ensures-pure Any _ tt
    otherwise (some_statement s) h =
        Ensures-bind Any _ _ (one_deeper-Ensures _ (statement s h)) λ lines _. Ensures-pure Any _ tt

    cases : (cs : Cases) → RegularCases cs → Ensures Any (generate_cases cs r)
    cases no_cases h = Ensures-pure Any _ tt
    cases (case_clause test body cs) (h, k, l) = Ensures-bind Any _ _ (maybe test h) λ code _.
        Ensures-bind Any _ _ Ensures-get_indent λ n _.
          Ensures-bind Any _ _ (case_body body k)
            λ lines _. Ensures-bind Any _ _ (cases cs l) λ rest _. Ensures-pure Any _ tt

    case_body : (ss : Statements) → RegularStatements ss → Ensures Any (generate_case_body ss r)
    case_body end h = Ensures-pure Any _ tt
    case_body (next s ss) (h, k) =
        Ensures-deeper_twice Any _ _ _ (statement s h) (lines_of ss k) λ code n lines _ _. tt

    initializer : (i : Initializer) → RegularInitializer i → Ensures Any (generate_initializer i r)
    initializer no_initializer h = Ensures-pure Any _ tt
    initializer (variable_initializer const ds) h =
        Ensures-bind Any _ _ (declarators const ds h) λ lines _. Ensures-pure Any _ tt
    initializer (expression_initializer e) h = forget IsNonempty _ (expression e h)

    declarators :
        (const : Bool) (ds : Declarators)
        → RegularDeclarators ds
        → Ensures Any (generate_declarators const ds r)
    declarators const no_declarators h = Ensures-pure Any _ tt
    declarators const (declarator name type assertion init ds) (own, h, k) =
        Ensures-bind Any _ _ (own_type-Ensures type own) λ declared _.
          Ensures-bind Any _ _ (type_of declared init h) λ inferred _.
            Ensures-bind Any _ _ (map_type-Ensures inferred) λ cpp_type _.
              Ensures-bind Any _ _ (init_of r.is_header init h) λ code _.
                Ensures-bind Any _ _ (declarators const ds k) λ lines _. Ensures-pure Any _ tt

    type_of :
        (type : Text) (init : MaybeExpression)
        → RegularMaybe init
        → Ensures Any (generate_type type init r)
    type_of type absent h = Ensures-pure Any _ tt
    type_of type (present e) h =
        Ensures-if Any (text_eq type (txt "auto")) _ _ (inferred e h) (Ensures-pure Any _ tt)

    inferred : (e : Expression) → RegularExpression e → Ensures Any (generate_inferred e r)
    inferred (new_expression callee args) (h, k) =
        Ensures-bind Any _ _ (expression callee h) λ code _. Ensures-pure Any _ tt
    inferred (identifier id) h = infer_type-Ensures (identifier id) h
    inferred e h = infer_type-Ensures e h

    init_of :
        (header : Bool) (init : MaybeExpression)
        → RegularMaybe init
        → Ensures Any (generate_init header init r)
    init_of true absent h = Ensures-pure Any _ tt
    init_of true (present e) h = Ensures-pure Any _ tt
    init_of false absent h = Ensures-pure Any _ tt
    init_of false (present e) h =
        Ensures-bind Any _ _ (expression e h) λ code _. Ensures-pure Any _ tt

    catches : (c : Handler) → RegularHandler c → Ensures Any (generate_handler c r)
    catches no_handler h = Ensures-pure Any _ tt
    catches (handler name body) h =
        Ensures-bind Any _ _ (in_block-Ensures _ (lines_of body h)) λ code _. Ensures-pure Any _ tt

    finally : (f : Finalizer) → RegularFinalizer f → Ensures Any (generate_finalizer f r)
    finally no_finalizer h = Ensures-pure Any _ tt
    finally (finalizer body) h =
        Ensures-bind Any _ _ (in_block-Ensures _ (lines_of body h)) λ code _. Ensures-pure Any _ tt

  -- The code of a regular expression is always made, it has a unit, the indentation is the same after
  -- as before, the includes of before are still the first ones, and the counter of temporary names is
  -- not lower; if no rest parameter is mapped to the empty name.
  -- Regular excludes a missing argument, a call of `super`, `for … in`, an empty name, and a read
  -- identifier or the type of a variable or a literal with the name of an inherited member.
  pub generate_expression-total :
      (e : Expression)
      → RegularExpression e
      → (g : Generator)
      → (code : Text) × (g' : Generator) × (generate_expression e r g ≡ some (code, g'))
        × Stays g g'
        × IsNonempty code
  unfolding Ensures
  generate_expression-total e h = expression e h

  -- The code of a regular statement is always made, whatever it holds, and the indentation is the same
  -- after as before, the includes of before are still the first ones, and the counter of temporary
  -- names is not lower; if no rest parameter is mapped to the empty name.
  -- Regular excludes a missing argument, a call of `super`, `for … in`, an empty name, and a read
  -- identifier or the type of a variable or a literal with the name of an inherited member.
  pub generate_statement-total :
      (s : Statement)
      → RegularStatement s
      → (g : Generator)
      → (code : Text) × (g' : Generator) × (generate_statement s r g ≡ some (code, g')) × Stays g g'
  unfolding Ensures
  generate_statement-total s h g = let (code, g', e, t, _) = statement s h g in (code, g', e, t)
