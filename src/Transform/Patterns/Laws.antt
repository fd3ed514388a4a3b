-- ===== src/Transform/Patterns/Laws.antt =====
-- What binding patterns add to the scope in src/transform/transformer.ts.
use typescript2cxx.Prelude.{
  ◌≡◌, refl, inl, inr, Bool, true, false, ◌||◌, Bool-cases, some, List, [], ◌∷◌, ◌++◌, Text,
  text_eq, text_eq_self, All, All-append, arith,
}
use typescript2cxx.Codegen.Identifier.{IrIdentifier}
use typescript2cxx.Transform.Monad.{
  Environment, Scope, Transformer, M, ◌>>=◌, pure, set_name, add_to_scope,
}
use typescript2cxx.Transform.WellFormed.{WellFormedMaybe}
use typescript2cxx.Transform.Ensures.{Ensures}
use typescript2cxx.Transform.Total.{maybe-Ensures}
use typescript2cxx.Transform.Patterns.{
  BindingName, ObjectElements, ArrayElements, bound_name, object_pattern, array_pattern,
  no_object_elements, object_element, no_array_elements, omitted_element, array_element, IrPattern,
  transform_binding, transform_object_elements, transform_array_elements,
}

-- Whether the map has a name.
unfoldable pub has_name : Text → Scope → Bool
has_name name [] = false
has_name name ((n, id) ∷ scope) = text_eq n name || has_name name scope

abbrev pub HasName : Scope → Text → Type 0
HasName scope name = has_name name scope ≡ true

set_name-HasName : (name : Text) (id : IrIdentifier) (s : Scope) → HasName (set_name name id s) name
unfolding has_name set_name
set_name-HasName name id [] = rw (text_eq_self name) refl
set_name-HasName name id ((n, i) ∷ s) = elim (Bool-cases (text_eq n name)) [
  | inl e ↦ rw e (rw e refl)
  | inr e ↦ rw e (rw e (set_name-HasName name id s))
]

set_name-keeps :
    (name other : Text) (id : IrIdentifier) (s : Scope)
    → HasName s other
    → HasName (set_name name id s) other
unfolding has_name set_name
set_name-keeps name other id [] h = absurd (ground (arith, h))
set_name-keeps name other id ((n, i) ∷ s) h = ground (arith, h, set_name-keeps name other id s)

abbrev mutual
  -- The names that a pattern binds, in order.
  pub names_of : BindingName → List Text
  names_of (bound_name name) = name ∷ []
  names_of (object_pattern elements) = object_names elements
  names_of (array_pattern elements) = array_names elements

  pub object_names : ObjectElements → List Text
  object_names no_object_elements = []
  object_names (object_element key binding init rest elements) =
      names_of binding ++ object_names elements

  pub array_names : ArrayElements → List Text
  array_names no_array_elements = []
  array_names (omitted_element elements) = array_names elements
  array_names (array_element binding rest elements) = names_of binding ++ array_names elements

module _ (env : Environment) where
  abbrev mutual
    pub WellFormedBinding : BindingName → Type 0
    WellFormedBinding (bound_name name) = Unit {0}
    WellFormedBinding (object_pattern elements) = WellFormedObject elements
    WellFormedBinding (array_pattern elements) = WellFormedArray elements

    pub WellFormedObject : ObjectElements → Type 0
    WellFormedObject no_object_elements = Unit {0}
    WellFormedObject (object_element key binding init rest elements) =
        WellFormedBinding binding × WellFormedMaybe env init × WellFormedObject elements

    pub WellFormedArray : ArrayElements → Type 0
    WellFormedArray no_array_elements = Unit {0}
    WellFormedArray (omitted_element elements) = WellFormedArray elements
    WellFormedArray (array_element binding rest elements) =
        WellFormedBinding binding × WellFormedArray elements

-- Inside a scope the computation gives a result, and the scope has these names and those that it had.
unfoldable pub Binds : {A : Type 0} → List Text → M A → Type 0
Binds {A} names m =
    (t : Transformer) (scope : Scope) (outer : List Scope)
    → t.scopes ≡ scope ∷ outer
    → (a : A) × (t' : Transformer) × (scope' : Scope) × (m t ≡ some (a, t'))
      × (t'.scopes ≡ scope' ∷ outer)
      × ((name : Text) → HasName scope name → HasName scope' name)
      × All (HasName scope') names

All-keeps :
    (s s' : Scope) (names : List Text)
    → ((name : Text) → HasName s name → HasName s' name)
    → All (HasName s) names
    → All (HasName s') names
All-keeps s s' [] k h = tt
All-keeps s s' (n ∷ names) k (p, h) = (k n p, All-keeps s s' names k h)

Binds-pure : {A : Type 0} (a : A) → Binds [] (pure a)
unfolding Binds
Binds-pure a t scope outer e = (a, t, scope, refl, e, λ n h. h, tt)

Binds-Ensures : {A : Type 0} (P : A → Type 0) (m : M A) → Ensures P m → Binds [] m
unfolding Binds Ensures
Binds-Ensures P m h t scope outer e =
    let (a, t', f, g, s, p) = h t in (a, t', scope, f, rw s e, λ n k. k, tt)

Binds-add_to_scope : (name : Text) (id : IrIdentifier) → Binds (name ∷ []) (add_to_scope name id)
unfolding Binds add_to_scope
Binds-add_to_scope name id t scope outer e = (
  tt,
  record t { scopes = set_name name id scope ∷ outer },
  set_name name id scope,
  rw e refl,
  refl,
  λ n h. set_name-keeps name n id scope h,
  (set_name-HasName name id scope, tt),
)

Binds-bind :
    {A B : Type 0} (names more : List Text) (m : M A) (k : A → M B)
    → Binds names m
    → ((a : A) → Binds more (k a))
    → Binds (names ++ more) (m >>= k)
unfolding Binds
Binds-bind names more m k h hk t scope outer e =
    let (a, t', scope', f, s, keep, all) = h t scope outer e in
    let (b, t'', scope'', f', s', keep', all') = hk a t' scope' outer s in
    (
      b,
      t'',
      scope'',
      rw (◌>>=◌, f) f',
      s',
      λ n p. keep' n (keep n p),
      All-append (HasName scope'') names more (All-keeps scope' scope'' names keep' all) all',
    )

Binds-map :
    {A B : Type 0} (names : List Text) (m : M A) (f : A → B)
    → Binds names m
    → Binds names (m >>= λ a. pure (f a))
unfolding Binds
Binds-map names m f h t scope outer e =
    let (a, t', scope', g, s, keep, all) = h t scope outer e in
    (f a, t', scope', rw (◌>>=◌, g) refl, s, keep, all)

module _ (env : Environment) where
  mutual
    unfolding transform_binding transform_object_elements transform_array_elements

    binding-Binds :
        (b : BindingName) → WellFormedBinding env b → Binds (names_of b) (transform_binding b env)
    binding-Binds (bound_name name) h = Binds-map _ _ _ (Binds-add_to_scope name _)
    binding-Binds (object_pattern elements) h = Binds-map _ _ _ (object-Binds elements h)
    binding-Binds (array_pattern elements) h = Binds-map _ _ _ (array-Binds elements h)

    object-Binds :
        (es : ObjectElements)
        → WellFormedObject env es
        → Binds (object_names es) (transform_object_elements es env)
    object-Binds no_object_elements h = Binds-pure _
    object-Binds (object_element key binding init rest elements) (h, k, l) =
        Binds-bind _ _ _ _ (binding-Binds binding h) λ value.
          Binds-bind [] _ _ _ (Binds-Ensures _ _ (maybe-Ensures env init k))
            λ default. Binds-map _ _ _ (object-Binds elements l)

    array-Binds :
        (es : ArrayElements)
        → WellFormedArray env es
        → Binds (array_names es) (transform_array_elements es env)
    array-Binds no_array_elements h = Binds-pure _
    array-Binds (omitted_element elements) h = Binds-map _ _ _ (array-Binds elements h)
    array-Binds (array_element binding true elements) (h, k) =
        Binds-bind _ _ _ _ (binding-Binds binding h)
          λ value. Binds-map _ _ _ (array-Binds elements k)
    array-Binds (array_element binding false elements) (h, k) =
        Binds-bind _ _ _ _ (binding-Binds binding h)
          λ value. Binds-map _ _ _ (array-Binds elements k)

  -- Inside a scope a pattern with well-formed initializers is always transformed; the scope has every
  -- name that the pattern binds after it, and every name that it had before, and the outer scopes are the
  -- same.
  pub transform_binding-names :
      (b : BindingName)
      → WellFormedBinding env b
      → (t : Transformer) (scope : Scope) (outer : List Scope) → t.scopes ≡ scope ∷ outer
      → (p : IrPattern) × (t' : Transformer) × (scope' : Scope) × (transform_binding b env t
          ≡ some (p, t'))
        × (t'.scopes ≡ scope' ∷ outer)
        × ((name : Text) → HasName scope name → HasName scope' name)
        × All (HasName scope') (names_of b)
  unfolding Binds
  transform_binding-names b h = binding-Binds b h
