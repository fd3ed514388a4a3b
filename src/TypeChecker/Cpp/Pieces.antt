-- ===== src/TypeChecker/Cpp/Pieces.antt =====
-- The parts of the C++ types of src/type-checker/simple-checker.ts have matching brackets.
use typescript2cxx.Prelude.{
  ℕ, ◌≡◌, refl, ◌∙◌, inl, inr, Bool, true, false, Bool-cases, Option-cases, Option, none, some,
  List, [], ◌∷◌, ◌++◌, arith, ◌==◌, if◌then◌else◌, length, any, All, filter, find, Text, txt,
  text_eq, join, remove_first, lookup, OfSome, lookup-OfSome,
}
use typescript2cxx.Prelude.Brackets.{
  scan, IsBalanced, IsBalanced-between, IsBalanced-join, IsPlain, scan-append, scan-remove_first,
}
use typescript2cxx.TypeChecker.Nodes.{Keyword, LiteralKind, string, null_keyword}
use typescript2cxx.TypeChecker.Strings.{most_specific, first_or, is_no_infer}
use typescript2cxx.TypeChecker.Cpp.{
  keyword_cpp, literal_cpp, nullable_cpp, union_of_two, union_cpp, typed_arrays, reference_cpp,
  is_rest, or_any, without_dots, rest_tuple, tuple_cpp, mapped_cpp,
}

pub keyword_cpp-IsBalanced : (k : Keyword) → IsBalanced (keyword_cpp k)
unfolding keyword_cpp scan txt
keyword_cpp-IsBalanced string = λ st. refl
keyword_cpp-IsBalanced _ = λ st. refl

pub literal_cpp-IsBalanced : (k : LiteralKind) → IsBalanced (literal_cpp k)
unfolding literal_cpp scan txt
literal_cpp-IsBalanced null_keyword = λ st. refl
literal_cpp-IsBalanced _ = λ st. refl

pub nil-IsBalanced : IsBalanced []
unfolding scan
nil-IsBalanced st = refl

pub unknown-IsBalanced : IsBalanced (txt "unknown")
unfolding scan txt
unknown-IsBalanced st = refl

pub void-IsBalanced : IsBalanced (txt "void")
unfolding scan txt
void-IsBalanced st = refl

pub string-IsBalanced : IsBalanced (txt "js::string")
unfolding scan txt
string-IsBalanced st = refl

pub auto-IsBalanced : IsBalanced (txt "auto")
unfolding scan txt
auto-IsBalanced st = refl

pub any-IsBalanced : IsBalanced (txt "js::any")
unfolding scan txt
any-IsBalanced st = refl

-- A type argument in angle brackets.
template-IsBalanced :
    (open_text s : Text)
    → ((st : List ℕ) → scan st open_text ≡ some (b'>' ∷ st))
    → IsBalanced s
    → IsBalanced (open_text ++ s ++ txt ">")
unfolding scan txt
template-IsBalanced open_text s o h = IsBalanced-between b'>' open_text s (txt ">") o h (λ st. refl)

find-All :
    (P : Text → Type 0) (p : Text → Bool) (ts : List Text) {t : Text}
    → All P ts
    → find p ts ≡ some t
    → P t
find-All P p [] h e = cc
find-All P p (x ∷ xs) {t} (h, hs) e = elim (Bool-cases (p x)) [
  | inl found ↦ let same : x ≡ t = ground arith in rw (← same) h
  | inr missed ↦ find-All P p xs hs (ground arith)
]

filter-All : (P : Text → Type 0) (p : Text → Bool) (ts : List Text) → All P ts → All P (filter p ts)
filter-All P p [] h = tt
filter-All P p (x ∷ xs) (h, hs) = elim (Bool-cases (p x)) [
  | inl keep ↦ rw (keep, filter) (h, filter-All P p xs hs)
  | inr skip ↦ rw (skip, filter) (filter-All P p xs hs)
]

nullable_cpp-IsBalanced : (t : Text) → IsBalanced t → IsBalanced (nullable_cpp (some t))
unfolding nullable_cpp scan txt
nullable_cpp-IsBalanced [] h = any-IsBalanced
nullable_cpp-IsBalanced (c ∷ t) h =
    template-IsBalanced (txt "js::typed::Nullable<") (c ∷ t) (λ st. refl) h

nullable-find-IsBalanced :
    (p : Text → Bool) (ts : List Text) → All IsBalanced ts → IsBalanced (nullable_cpp (find p ts))
unfolding nullable_cpp
nullable-find-IsBalanced p ts h = elim (Option-cases (find p ts)) [
  | inl e ↦ rw e any-IsBalanced
  | inr (t, e) ↦ rw e (nullable_cpp-IsBalanced t (find-All IsBalanced p ts h e))
]

if-IsBalanced :
    (b : Bool) (s t : Text) → IsBalanced s → IsBalanced t → IsBalanced (if b then s else t)
if-IsBalanced true s t h k = h
if-IsBalanced false s t h k = k

string_or_number-IsBalanced : IsBalanced (txt "js::typed::StringOrNumber")
unfolding scan txt
string_or_number-IsBalanced st = refl

pub union_cpp-IsBalanced : (ts : List Text) → All IsBalanced ts → IsBalanced (union_cpp ts)
unfolding union_cpp union_of_two
union_cpp-IsBalanced ts h =
    if-IsBalanced (length ts == 2) _ _
      (if-IsBalanced _ _ _ string_or_number-IsBalanced
        (if-IsBalanced _ _ _ (nullable-find-IsBalanced _ ts h) any-IsBalanced))
      any-IsBalanced

first_or-IsBalanced :
    (default : Text) (ts : List Text)
    → IsBalanced default
    → All IsBalanced ts
    → IsBalanced (first_or default ts)
first_or-IsBalanced default [] d h = d
first_or-IsBalanced default (t ∷ ts) d h = h.0

pub most_specific-IsBalanced :
    (primitives : List Text) (default : Text) (ts : List Text)
    → IsBalanced default
    → All IsBalanced ts
    → IsBalanced (most_specific primitives default ts)
unfolding most_specific
most_specific-IsBalanced primitives default ts d h =
    first_or-IsBalanced _ _ (first_or-IsBalanced default ts d h) (filter-All IsBalanced _ ts h)

pub dots-IsPlain : IsPlain (txt "...")
unfolding txt
dots-IsPlain = (refl, (refl, (refl, tt)))

or_any-IsBalanced :
    (t : Option Text) → ((s : Text) → t ≡ some s → IsBalanced s) → IsBalanced (or_any t)
or_any-IsBalanced none h = any-IsBalanced
or_any-IsBalanced (some []) h = any-IsBalanced
or_any-IsBalanced (some (c ∷ s)) h = h (c ∷ s) refl

-- The dots of a rest element are no brackets.
without_dots-IsBalanced :
    (t : Option Text) {s : Text}
    → ((u : Text) → t ≡ some u → IsBalanced u)
    → without_dots t ≡ some s
    → IsBalanced s
without_dots-IsBalanced none h e = cc
without_dots-IsBalanced (some u) {s} h e =
    let same : remove_first (txt "...") u ≡ s = ground arith in
    rw (← same) (λ st. scan-remove_first (txt "...") u st dots-IsPlain ∙ h u refl st)

comma-IsBalanced : IsBalanced (txt ", ")
unfolding scan txt
comma-IsBalanced st = refl

std_tuple-IsBalanced :
    (ts : List Text)
    → All IsBalanced ts
    → IsBalanced (txt "std::tuple<" ++ join (txt ", ") ts ++ txt ">")
unfolding scan txt
std_tuple-IsBalanced ts h =
    template-IsBalanced (txt "std::tuple<") (join (txt ", ") ts) (λ st. refl)
      (IsBalanced-join (txt ", ") ts comma-IsBalanced h)

pub js_array-IsBalanced : (s : Text) → IsBalanced s → IsBalanced (txt "js::array<" ++ s ++ txt ">")
unfolding scan txt
js_array-IsBalanced s h = template-IsBalanced (txt "js::array<") s (λ st. refl) h

future-IsBalanced : (s : Text) → IsBalanced s → IsBalanced (txt "std::future<" ++ s ++ txt ">")
unfolding scan txt
future-IsBalanced s h = template-IsBalanced (txt "std::future<") s (λ st. refl) h

pub std_optional-IsBalanced :
    (s : Text) → IsBalanced s → IsBalanced (txt "std::optional<" ++ s ++ txt ">")
unfolding scan txt
std_optional-IsBalanced s h = template-IsBalanced (txt "std::optional<") s (λ st. refl) h

rest_tuple-IsBalanced :
    (ts : List Text) (r : Option Text)
    → All IsBalanced ts
    → ((s : Text) → r ≡ some s → IsBalanced s)
    → IsBalanced (rest_tuple ts r)
rest_tuple-IsBalanced [] r h k = js_array-IsBalanced (or_any r) (or_any-IsBalanced r k)
rest_tuple-IsBalanced (t ∷ ts) r h k = std_tuple-IsBalanced (t ∷ ts) h

pub tuple_cpp-IsBalanced : (ts : List Text) → All IsBalanced ts → IsBalanced (tuple_cpp ts)
unfolding tuple_cpp
tuple_cpp-IsBalanced ts h =
    if-IsBalanced (any is_rest ts) _ _
      (rest_tuple-IsBalanced _ _ (filter-All IsBalanced _ ts h) (λ s e.
        without_dots-IsBalanced (find is_rest ts) (λ u f. find-All IsBalanced is_rest ts h f) e))
      (std_tuple-IsBalanced ts h)

pub function_type-IsBalanced :
    (r : Text) (ts : List Text)
    → IsBalanced r
    → All IsBalanced ts
    → IsBalanced (txt "std::function<" ++ r ++ txt "(" ++ join (txt ", ") ts ++ txt ")>")
unfolding scan txt
function_type-IsBalanced r ts h hs st =
    let args = join (txt ", ") ts in
    let opened : List ℕ = b'>' ∷ st in
    rw
      (
        scan-append opened (r ++ txt "(" ++ args) (txt ")>"),
        scan-append opened (r ++ txt "(") args,
        scan-append opened r (txt "("),
        h opened,
        IsBalanced-join (txt ", ") ts comma-IsBalanced hs (b')' ∷ opened),
      )
      refl

typed_arrays-IsBalanced : All (λ p. IsBalanced p.1) typed_arrays
unfolding scan txt
typed_arrays-IsBalanced = (
  λ st. refl,
  (
    λ st. refl,
    (
      λ st. refl,
      (
        λ st. refl,
        (
          λ st. refl,
          (λ st. refl, (λ st. refl, (λ st. refl, (λ st. refl, (λ st. refl, (λ st. refl, tt)))))),
        ),
      ),
    ),
  ),
)

entry-IsBalanced : (name : Text) → OfSome IsBalanced (lookup name typed_arrays)
entry-IsBalanced name = lookup-OfSome IsBalanced name typed_arrays typed_arrays-IsBalanced

reference_none-IsBalanced :
    (name : Text) (o : Option Text)
    → OfSome IsBalanced o
    → IsBalanced name
    → IsBalanced (elim o [ some t ↦ t | none ↦ name ])
reference_none-IsBalanced name none h k = k
reference_none-IsBalanced name (some t) h k = h

reference_some-IsBalanced :
    (name inner : Text) (o : Option Text)
    → OfSome IsBalanced o
    → IsBalanced name
    → IsBalanced inner
    → IsBalanced (elim o [
      | some t ↦ t
      | none ↦
          if text_eq name (txt "Array")
          then txt "js::array<" ++ inner ++ txt ">"
          else if text_eq name (txt "Promise")
          then txt "std::future<" ++ inner ++ txt ">"
          else name
    ])
reference_some-IsBalanced name inner (some t) h k i = h
reference_some-IsBalanced name inner none h k i =
    if-IsBalanced _ _ _ (js_array-IsBalanced inner i)
      (if-IsBalanced _ _ name (future-IsBalanced inner i) k)

pub reference_cpp-IsBalanced :
    (name : Text) (inner : Text)
    → IsBalanced name
    → IsBalanced inner
    → IsBalanced (reference_cpp name none) × IsBalanced (reference_cpp name (some inner))
unfolding reference_cpp
reference_cpp-IsBalanced name inner h k =
    let p = entry-IsBalanced name in
    (
      reference_none-IsBalanced name (lookup name typed_arrays) p h,
      if-IsBalanced (is_no_infer name) inner _ k
          (reference_some-IsBalanced name inner (lookup name typed_arrays) p h k),
    )

pub mapped_cpp-IsBalanced : (r o : Bool) → IsBalanced (mapped_cpp r o)
unfolding scan txt
mapped_cpp-IsBalanced true o = λ st. refl
mapped_cpp-IsBalanced false o = λ st. refl
