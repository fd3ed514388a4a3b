-- ===== src/Prelude/Objects.antt =====
-- Reads of an object literal's properties by name, with what every object inherits.
use mathlib.Core.Path.{◌≡◌}
use mathlib.Core.Logic.{inl, inr}
use mathlib.Core.Bool.{Bool, true, false}
use mathlib.Core.Option.{Option, none, some}
use mathlib.Core.List.{List, [], ◌∷◌, ◌++◌}
use native.Mathlib.Omega.{arith}
use typescript2cxx.Prelude.Tests.{if◌then◌else◌, Bool-cases, Option-cases}
use typescript2cxx.Prelude.Lists.{All}
use typescript2cxx.Prelude.Texts.{Text, txt, text_eq, includes}

-- An object literal's own entry of this name.
unfoldable pub lookup : Text → List (Text × Text) → Option Text
lookup key [] = none
lookup key ((k, v) ∷ pairs) = let rest = lookup key pairs in if text_eq k key then some v else rest

abbrev pub native_function : Text → Text
native_function name = txt "function " ++ name ++ txt "() { [native code] }"

abbrev pub prototype_methods : List Text
prototype_methods =
    txt "hasOwnProperty"
    ∷ txt "isPrototypeOf"
    ∷ txt "propertyIsEnumerable"
    ∷ txt "toLocaleString"
    ∷ txt "toString"
    ∷ txt "valueOf"
    ∷ txt "__defineGetter__"
    ∷ txt "__defineSetter__"
    ∷ txt "__lookupGetter__"
    ∷ txt "__lookupSetter__"
    ∷ []

-- What an object literal inherits from `Object.prototype` under this name: a function or an object,
-- given as the text that a template string makes of it.
unfoldable pub inherited : Text → Option Text
inherited key =
    if includes prototype_methods key
    then some (native_function key)
    else if text_eq key (txt "constructor")
    then some (native_function (txt "Object"))
    else if text_eq key (txt "__proto__")
    then some (txt "[object Object]")
    else none

-- The value of a property that is there: a text, or a function or an object, with the text that a
-- template string makes of it.
pub data PropertyValue : Type 0 where
  text_value : Text → PropertyValue
  object_value : Text → PropertyValue

abbrev pub printed : PropertyValue → Text
printed (text_value t) = t
printed (object_value t) = t

-- For what goes on with the methods of a string, which a function and an object do not have.
abbrev pub as_text : PropertyValue → Option Text
as_text (text_value t) = some t
as_text (object_value t) = none

-- A read of an object literal's property by name.
unfoldable pub read : Text → List (Text × Text) → Option PropertyValue
unfolding lookup inherited
read key pairs = elim (lookup key pairs) [
  | some v ↦ some (text_value v)
  | none ↦ elim (inherited key) [ some t ↦ some (object_value t) | none ↦ none ]
]

-- The same read, printed in a template string.
unfoldable pub property : Text → List (Text × Text) → Option Text
unfolding lookup inherited
property key pairs = elim (lookup key pairs) [ some v ↦ some v | none ↦ inherited key ]

-- A predicate on the text, if there is one.
abbrev pub OfSome : (Text → Type 0) → Option Text → Type 0
OfSome P none = Unit
OfSome P (some s) = P s

pub if-OfSome :
    (P : Text → Type 0) (b : Bool) (s t : Option Text)
    → OfSome P s
    → OfSome P t
    → OfSome P (if b then s else t)
if-OfSome P true s t h k = h
if-OfSome P false s t h k = k

module _ (P : Text → Type 0) where
  pub lookup-All :
      (key : Text) (pairs : List (Text × Text)) {t : Text}
      → All (λ p. P p.1) pairs
      → lookup key pairs ≡ some t
      → P t
  unfolding lookup
  lookup-All key [] h e = cc
  lookup-All key ((k, v) ∷ pairs) {t} (h, hs) e = elim (Bool-cases (text_eq k key)) [
    | inl found ↦ let same : v ≡ t = ground arith in rw (← same) h
    | inr missed ↦ lookup-All key pairs hs (ground arith)
  ]

  pub inherited-OfSome :
      (key : Text)
      → P (native_function key)
      → P (native_function (txt "Object"))
      → P (txt "[object Object]")
      → OfSome P (inherited key)
  unfolding inherited
  inherited-OfSome key h i j =
      if-OfSome P (includes prototype_methods key) (some (native_function key)) _ h (
        if-OfSome P (text_eq key (txt "constructor")) (some (native_function (txt "Object"))) _ i
          (if-OfSome P (text_eq key (txt "__proto__")) (some (txt "[object Object]")) none j tt))

  -- What holds of every value of the object and of what it inherits holds of what is read.
  pub property-OfSome :
      (key : Text) (pairs : List (Text × Text))
      → All (λ p. P p.1) pairs
      → OfSome P (inherited key)
      → OfSome P (property key pairs)
  unfolding property
  property-OfSome key pairs h k = elim (Option-cases (lookup key pairs)) [
    | inl e ↦ rw (e, property) k
    | inr (v, e) ↦ rw (e, property) (lookup-All key pairs h e)
  ]

-- A predicate on the printed text of a value, if there is one.
abbrev pub OfPrinted : (Text → Type 0) → Option PropertyValue → Type 0
OfPrinted P none = Unit
OfPrinted P (some v) = P (printed v)

pub if-OfPrinted :
    (P : Text → Type 0) (b : Bool) (s t : Option PropertyValue)
    → OfPrinted P s
    → OfPrinted P t
    → OfPrinted P (if b then s else t)
if-OfPrinted P true s t h k = h
if-OfPrinted P false s t h k = k

pub as_text-OfSome : (P : Text → Type 0) (v : PropertyValue) → P (printed v) → OfSome P (as_text v)
as_text-OfSome P (text_value t) h = h
as_text-OfSome P (object_value t) h = tt

pub lookup-OfSome :
    (P : Text → Type 0) (key : Text) (pairs : List (Text × Text))
    → All (λ p. P p.1) pairs
    → OfSome P (lookup key pairs)
lookup-OfSome P key pairs h = elim (Option-cases (lookup key pairs)) [
  | inl e ↦ rw e tt
  | inr (v, e) ↦ rw e (lookup-All P key pairs h e)
]

of_reads :
    (P : Text → Type 0) (own rest : Option Text)
    → OfSome P own
    → OfSome P rest
    → OfPrinted P (elim own as (λ _. Option PropertyValue) [
      | some v ↦ some (text_value v)
      | none ↦ elim rest [ some t ↦ some (object_value t) | none ↦ none ]
    ])
of_reads P (some v) rest h k = h
of_reads P none (some t) h k = k
of_reads P none none h k = tt

-- A text, if there is one.
abbrev pub IsOwnValue : Option PropertyValue → Type 0
IsOwnValue none = Unit
IsOwnValue (some (text_value t)) = Unit
IsOwnValue (some (object_value t)) = ⊥

own_reads :
    (own rest : Option Text)
    → rest ≡ none
    → IsOwnValue (elim own as (λ _. Option PropertyValue) [
      | some v ↦ some (text_value v)
      | none ↦ elim rest [ some t ↦ some (object_value t) | none ↦ none ]
    ])
own_reads (some v) rest h = tt
own_reads none (some t) h = absurd (ground (arith, h))
own_reads none none h = tt

-- What is read under a name that is not inherited is a text.
pub read-IsOwnValue :
    (key : Text) (pairs : List (Text × Text)) → inherited key ≡ none → IsOwnValue (read key pairs)
unfolding read
read-IsOwnValue key pairs h = own_reads (lookup key pairs) (inherited key) h

pub read-OfPrinted :
    (P : Text → Type 0) (key : Text) (pairs : List (Text × Text))
    → All (λ p. P p.1) pairs
    → OfSome P (inherited key)
    → OfPrinted P (read key pairs)
unfolding read
read-OfPrinted P key pairs h k =
    of_reads P (lookup key pairs) (inherited key) (lookup-OfSome P key pairs h) k
