-- ===== src/TypeChecker/Nodes.antt =====
-- The type nodes that src/type-checker/simple-checker.ts distinguishes, and the resolved types of
-- src/type-checker/types.ts. The nodes are made by the TypeScript parser; a node has here what the
-- checker reads of it.
use typescript2cxx.Prelude.{◌≡◌, Bool, Option, none, Text, inherited}

pub data Keyword : Type 0 where
  string number boolean void any unknown never null undefined object bigint : Keyword

-- The name of a type that is no name of an inherited member: the checker's result for a name such as
-- `toString` is a function, not a text, and a tuple type with it throws a `TypeError`.
pub record TypeName : Type 0 where
  pub text : Text
  pub own : inherited text ≡ none

-- The kind of the literal inside a `LiteralType`.
pub data LiteralKind : Type 0 where
  null_keyword string_literal numeric_literal true_keyword false_keyword other_literal : LiteralKind

mutual
  pub data TypeNode : Type 0 where
    keyword : Keyword → TypeNode
    -- The name is `none` for a qualified name, which is not an identifier.
    type_reference : Option TypeName → TypeNodes → TypeNode
    array_type : TypeNode → TypeNode
    tuple_type : TypeNodes → TypeNode
    rest_type : TypeNode → TypeNode
    optional_type : TypeNode → TypeNode
    named_tuple_member : Text → MaybeType → TypeNode
    union_type : TypeNodes → TypeNode
    intersection_type : TypeNodes → TypeNode
    -- The parameters' types and the return type.
    function_type : Params → MaybeType → TypeNode
    parenthesized_type : TypeNode → TypeNode
    -- The flag says that the operator is `keyof`.
    type_operator : Bool → TypeNode → TypeNode
    -- The types checked, extended, and of the two branches.
    conditional_type : TypeNode → TypeNode → TypeNode → TypeNode → TypeNode
    infer_type : TypeNode
    -- Whether a `readonly` token and a `?` token stand there.
    mapped_type : Bool → Bool → TypeNode
    template_literal_type : TypeNode
    indexed_access_type : TypeNode → TypeNode → TypeNode
    type_query : TypeNode
    literal_type : LiteralKind → TypeNode
    other_type : TypeNode

  pub data TypeNodes : Type 0 where
    nil : TypeNodes
    cons : TypeNode → TypeNodes → TypeNodes

  pub data MaybeType : Type 0 where
    absent : MaybeType
    present : TypeNode → MaybeType

  pub data Params : Type 0 where
    no_params : Params
    param : MaybeType → Params → Params

pub record TypeFlags : Type 0 where
  pub is_primitive : Bool
  pub is_object : Bool
  pub is_array : Bool
  pub is_function : Bool
  pub is_generic : Bool
  pub is_nullable : Bool
  pub is_union : Bool
  pub is_intersection : Bool
  pub is_literal : Bool
  pub needs_heap_allocation : Bool

-- The fields that the simple checker sets.
pub record ResolvedType : Type 0 where
  pub name : Text
  pub cpp_type : Text
  pub flags : TypeFlags
