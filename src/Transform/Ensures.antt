-- ===== src/Transform/Ensures.antt =====
-- Computations of the monad of src/transform/transformer.ts that always give a result, which satisfies
-- a predicate, and what they leave of the scope stack.
use typescript2cxx.Prelude.{
  ◌≡◌, refl, Bool, true, false, Option, some, List, [], ◌∷◌, ◌++◌, Text, append-nil, append_assoc,
  All, All-append, is_some,
}
use typescript2cxx.Codegen.Identifier.{IrIdentifier}
use typescript2cxx.Codegen.Imports.{IrImport}
use typescript2cxx.Transform.Monad.{
  Scope, Transformer, M, ◌>>=◌, pure, or_throw, push_scope, pop_scope, set_name, add_to_scope,
  add_export, add_import, warn,
}
use typescript2cxx.Transform.Visit.{in_scope, track_export}

module _ {A : Type 0} where
  abbrev pub Extends : List A → List A → Type 0
  Extends xs ys = (more : List A) × (ys ≡ xs ++ more)

  pub Extends-refl : (xs : List A) → Extends xs xs
  Extends-refl xs = ([], rw (append-nil xs) refl)

  Extends-trans : (xs ys zs : List A) → Extends xs ys → Extends ys zs → Extends xs zs
  Extends-trans xs ys zs (more, e) (more', e') =
      (more ++ more', rw (e', e) (append_assoc xs more more'))

-- An import says that it is one of a namespace exactly when it has the namespace's name.
unfoldable pub IsConsistent : IrImport → Type 0
IsConsistent i = i.is_namespace ≡ is_some i.namespace

-- What is recorded is still there, with more behind it, and every import behind it is consistent.
pub record Grows (t t' : Transformer) : Type 0 where
  pub more_exports : Extends t.exports t'.exports
  pub more_imports :
      (more : List IrImport) × (t'.imports ≡ t.imports ++ more) × All IsConsistent more
  pub more_warnings : Extends t.warnings t'.warnings

no_imports :
    (t : Transformer)
    → (more : List IrImport) × (t.imports ≡ t.imports ++ more) × All IsConsistent more
no_imports t = ([], rw (append-nil t.imports) refl, tt)

pub Grows-refl : (t : Transformer) → Grows t t
Grows-refl t = record {
  more_exports = Extends-refl t.exports;
  more_imports = no_imports t;
  more_warnings = Extends-refl t.warnings;
}

pub Grows-trans : {t u v : Transformer} → Grows t u → Grows u v → Grows t v
Grows-trans g h = record {
  more_exports = Extends-trans _ _ _ g.more_exports h.more_exports;
  more_imports =
      let (more, e, c) = g.more_imports in
      let (more', e', c') = h.more_imports in
      (
        more ++ more',
        rw (e', e) (append_assoc _ more more'),
        All-append IsConsistent more more' c c',
      );
  more_warnings = Extends-trans _ _ _ g.more_warnings h.more_warnings;
}

-- The scope stack is the same after as before.
unfoldable pub Ensures : {A : Type 0} → (A → Type 0) → M A → Type 0
Ensures {A} P m =
    (t : Transformer)
    → (a : A) × (t' : Transformer) × (m t ≡ some (a, t'))
      × Grows t t'
      × (t'.scopes ≡ t.scopes)
      × P a

-- In a scope, only that scope is another one after.
unfoldable pub Declares : {A : Type 0} → (A → Type 0) → M A → Type 0
Declares {A} P m =
    (t : Transformer) (scope : Scope) (outer : List Scope)
    → t.scopes ≡ scope ∷ outer
    → (a : A) × (t' : Transformer) × (scope' : Scope) × (m t ≡ some (a, t'))
      × Grows t t'
      × (t'.scopes ≡ scope' ∷ outer)
      × P a

module _ {A : Type 0} (P : A → Type 0) where
  pub Ensures-pure : (a : A) → P a → Ensures P (pure a)
  unfolding Ensures
  Ensures-pure a p t = (a, t, refl, Grows-refl t, refl, p)

  pub Declares-Ensures : (m : M A) → Ensures P m → Declares P m
  unfolding Ensures Declares
  Declares-Ensures m h t scope outer e =
      let (a, t', f, g, s, p) = h t in (a, t', scope, f, g, rw s e, p)

  pub Declares-pure : (a : A) → P a → Declares P (pure a)
  Declares-pure a p = Declares-Ensures (pure a) (Ensures-pure a p)

  -- A scope of its own leaves the stack as it was.
  pub Ensures-in_scope : (m : M A) → Declares P m → Ensures P (in_scope m)
  unfolding Ensures Declares in_scope push_scope pop_scope
  Ensures-in_scope m h t =
      let (a, t', scope, e, g, s, p) = h (record t { scopes = [] ∷ t.scopes }) [] t.scopes refl in
      (
        a,
        record t' { scopes = t.scopes },
        rw (◌>>=◌, e, s) refl,
        record {
          more_exports = g.more_exports;
          more_imports = g.more_imports;
          more_warnings = g.more_warnings;
        },
        refl,
        p,
      )

  pub Ensures-or_throw : (o : Option A) → ((a : A) × (o ≡ some a) × P a) → Ensures P (or_throw o)
  unfolding Ensures
  Ensures-or_throw o (a, e, p) t = (a, t, rw e refl, Grows-refl t, refl, p)

pub Ensures-weaken :
    {A : Type 0} {P : A → Type 0} (Q : A → Type 0) (m : M A)
    → ((a : A) → P a → Q a)
    → Ensures P m
    → Ensures Q m
unfolding Ensures
Ensures-weaken Q m f h t = let (a, t', e, g, s, p) = h t in (a, t', e, g, s, f a p)

module _ {A B : Type 0} {P : A → Type 0} (Q : B → Type 0) (m : M A) (k : A → M B) where
  pub Ensures-bind : Ensures P m → ((a : A) → P a → Ensures Q (k a)) → Ensures Q (m >>= k)
  unfolding Ensures
  Ensures-bind h hk t =
      let (a, t', e, g, s, p) = h t in
      let (b, t'', e', g', s', q) = hk a p t' in
      (b, t'', rw (◌>>=◌, e) e', Grows-trans g g', rw s' s, q)

  pub Declares-bind : Declares P m → ((a : A) → P a → Declares Q (k a)) → Declares Q (m >>= k)
  unfolding Declares
  Declares-bind h hk t scope outer f =
      let (a, t', scope', e, g, s, p) = h t scope outer f in
      let (b, t'', scope'', e', g', s', q) = hk a p t' scope' outer s in
      (b, t'', scope'', rw (◌>>=◌, e) e', Grows-trans g g', s', q)

abbrev pub Any : {A : Type 0} → A → Type 0
Any a = Unit {0}

pub Ensures-warn : (message : Text) → Ensures (λ u. Unit {0}) (warn message)
unfolding Ensures warn
Ensures-warn message t = (
  tt,
  _,
  refl,
  record {
    more_exports = Extends-refl t.exports;
    more_imports = no_imports t;
    more_warnings = (message ∷ [], refl);
  },
  refl,
  tt,
)

pub Ensures-add_import :
    (item : IrImport) → IsConsistent item → Ensures (λ u. Unit {0}) (add_import item)
unfolding Ensures add_import
Ensures-add_import item c t = (
  tt,
  _,
  refl,
  record {
    more_exports = Extends-refl t.exports;
    more_imports = (item ∷ [], refl, (c, tt));
    more_warnings = Extends-refl t.warnings;
  },
  refl,
  tt,
)

pub Ensures-add_export : (name : Text) → Ensures (λ u. Unit {0}) (add_export name)
unfolding Ensures add_export
Ensures-add_export name t = (
  tt,
  _,
  refl,
  record {
    more_exports = (name ∷ [], refl);
    more_imports = no_imports t;
    more_warnings = Extends-refl t.warnings;
  },
  refl,
  tt,
)

pub track_export-Ensures :
    (exported : Bool) (name : Text) → Ensures (λ u. Unit {0}) (track_export exported name)
track_export-Ensures true name = Ensures-add_export name
track_export-Ensures false name = Ensures-pure _ tt tt

-- A name is added to the scope that there is.
pub Declares-add_to_scope :
    (name : Text) (id : IrIdentifier) → Declares (λ u. Unit {0}) (add_to_scope name id)
unfolding Declares add_to_scope
Declares-add_to_scope name id t scope outer e = (
  tt,
  record t { scopes = set_name name id scope ∷ outer },
  set_name name id scope,
  rw e refl,
  record {
    more_exports = Extends-refl t.exports;
    more_imports = no_imports t;
    more_warnings = Extends-refl t.warnings;
  },
  refl,
  tt,
)
