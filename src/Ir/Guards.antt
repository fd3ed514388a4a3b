-- ===== src/Ir/Guards.antt =====
-- The type guards of src/ir/type-guards.ts: those for one kind in the child modules, those for groups
-- here.
mod Modules
mod Statements
mod Expressions
mod Others
pub use Modules.*
pub use Statements.*
pub use Expressions.*
pub use Others.*
use typescript2cxx.Prelude.{ℕ, Bool, true, false, ◌||◌, Option, some, none, if◌then◌else◌, ltb}
use typescript2cxx.Ir.Node.{Decorators, array, metadata, IrNode}

unfoldable pub is_ir_declaration : IrNode → Bool
is_ir_declaration node =
    is_ir_variable_declaration node
    || is_ir_function_declaration node
    || is_ir_class_declaration node
    || is_ir_interface_declaration node
    || is_ir_enum_declaration node
    || is_ir_type_alias_declaration node

unfoldable pub is_ir_statement : IrNode → Bool
unfolding is_ir_declaration
is_ir_statement node =
    is_ir_block_statement node
    || is_ir_expression_statement node
    || is_ir_if_statement node
    || is_ir_switch_statement node
    || is_ir_while_statement node
    || is_ir_do_while_statement node
    || is_ir_for_statement node
    || is_ir_for_in_statement node
    || is_ir_for_of_statement node
    || is_ir_return_statement node
    || is_ir_break_statement node
    || is_ir_continue_statement node
    || is_ir_throw_statement node
    || is_ir_try_statement node
    || is_ir_declaration node

unfoldable pub is_ir_expression : IrNode → Bool
is_ir_expression node =
    is_ir_identifier node
    || is_ir_literal node
    || is_ir_array_expression node
    || is_ir_object_expression node
    || is_ir_function_expression node
    || is_ir_arrow_function_expression node
    || is_ir_class_expression node
    || is_ir_member_expression node
    || is_ir_optional_chaining_expression node
    || is_ir_call_expression node
    || is_ir_new_expression node
    || is_ir_update_expression node
    || is_ir_unary_expression node
    || is_ir_binary_expression node
    || is_ir_assignment_expression node
    || is_ir_logical_expression node
    || is_ir_conditional_expression node
    || is_ir_this_expression node
    || is_ir_super_expression node
    || is_ir_template_literal node
    || is_ir_tagged_template_expression node
    || is_ir_yield_expression node
    || is_ir_await_expression node
    || is_ir_spread_element node

-- `value === true`
abbrev is_true : Option Bool → Bool
is_true (some true) = true
is_true _ = false

unfoldable pub is_async_function : IrNode → Bool
is_async_function node =
    if is_ir_function_declaration node
      || is_ir_function_expression node
      || is_ir_arrow_function_expression node
    then is_true node.is_async
    else false

unfoldable pub is_generator_function : IrNode → Bool
is_generator_function node =
    if is_ir_function_declaration node || is_ir_function_expression node
    then is_true node.is_generator
    else false

-- `decorators.length > 0` of an array, and what the two sorts of node do with anything else.
abbrev pub own_decorators : Option Decorators → Bool
own_decorators none = false
own_decorators (some (array n)) = ltb 0 n
own_decorators (some metadata) = true

abbrev pub array_decorators : Option Decorators → Bool
array_decorators none = false
array_decorators (some (array n)) = ltb 0 n
array_decorators (some metadata) = false

unfoldable pub has_decorators : IrNode → Bool
has_decorators node =
    if is_ir_class_declaration node || is_ir_function_declaration node
    then own_decorators node.decorators
    else array_decorators node.decorators

unfoldable pub is_exported : IrNode → Bool
is_exported node = is_true node.is_exported

unfoldable pub is_loop_statement : IrNode → Bool
is_loop_statement node =
    is_ir_while_statement node
    || is_ir_do_while_statement node
    || is_ir_for_statement node
    || is_ir_for_in_statement node
    || is_ir_for_of_statement node

unfoldable pub is_control_flow_statement : IrNode → Bool
unfolding is_loop_statement
is_control_flow_statement node =
    is_ir_if_statement node
    || is_ir_switch_statement node
    || is_loop_statement node
    || is_ir_try_statement node

unfoldable pub has_body : IrNode → Bool
unfolding is_control_flow_statement
has_body node =
    is_ir_function_declaration node
    || is_ir_function_expression node
    || is_ir_arrow_function_expression node
    || is_ir_class_declaration node
    || is_ir_class_expression node
    || is_ir_block_statement node
    || is_control_flow_statement node
