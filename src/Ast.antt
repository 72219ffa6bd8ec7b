-- ===== src/Ast.antt =====
-- src/ast.hpp, src/ast.cpp: the syntax tree of the compiler. A node is a constructor with the members
-- of its part of the union; the destructor frees the children.
use kasm.Base.{ℕ, Bool, Option, none, some, String, str_eq, maybe}

pub data BinaryOperator : Type 0 where
  add modulus assignment logical_and logical_or less_than greater_than : BinaryOperator
  equal not_equal less_than_or_equal greater_than_or_equal : BinaryOperator

pub data UnaryOperator : Type 0 where
  negate indirection address_of logical_not : UnaryOperator

pub data ValueType : Type 0 where
  void type u8 u32 s8 s32 : ValueType

-- `entry` of a return is not initialised before the analysis.
pub data Node : Type 0 where
  invalid : Node
  empty : Node
  compound : (first second : Node) → Node
  return_of : (condition : Node) → (entry : Option Bool) → Node
  literal : (value : ℕ) → Node
  function_definition : (identifier type arguments body : Node) → (entry : Bool) → Node
  function_call : (identifier arguments : Node) → Node
  binary_operator : (op : BinaryOperator) → (lhs rhs : Node) → Node
  unary_operator : (op : UnaryOperator) → (rhs : Node) → Node
  variable_declaration : (identifier type : Node) → Node
  identifier : (name : String) → Node
  type_of : (type : ValueType) → Node
  if_then_else : (condition true_body false_body : Node) → Node
  if_then : (condition true_body : Node) → Node
  while_loop : (condition body : Node) → Node
  do_while : (condition body : Node) → Node
  for_loop : (initialize condition increment body : Node) → Node
  string_literal : (str : String) → Node
  asm : (source : String) → Node

-- `asIdentifier.identifier` and `asType.type`, read from another kind of node, are undefined.
abbrev pub identifier_of : Node → Option String
identifier_of (Node.identifier k) = some k
identifier_of _ = none

abbrev pub value_type_of : Node → Option ValueType
value_type_of (Node.type_of t) = some t
value_type_of _ = none

-- The `make` functions: a new node of the kind with the members set. `makeReturn` leaves `entry` as it
-- is.
abbrev pub make_empty : Node
make_empty = Node.empty

abbrev pub make_compound : Node → Node → Node
make_compound first second = Node.compound first second

abbrev pub make_return : Node → Node
make_return e = Node.return_of e none

abbrev pub make_literal : ℕ → Node
make_literal value = Node.literal value

-- The name of the identifier is read, so it is undefined on a node of another kind.
unfoldable pub make_function_definition : Node → Node → Node → Node → Option Node
make_function_definition k t args body =
    maybe (identifier_of k) none
      (λ name. some (Node.function_definition k t args body (str_eq name "entry")))

abbrev pub make_function_call : Node → Node → Node
make_function_call k args = Node.function_call k args

abbrev pub make_binary_operator : BinaryOperator → Node → Node → Node
make_binary_operator op lhs rhs = Node.binary_operator op lhs rhs

abbrev pub make_unary_operator : UnaryOperator → Node → Node
make_unary_operator op rhs = Node.unary_operator op rhs

abbrev pub make_variable_declaration : Node → Node → Node
make_variable_declaration k t = Node.variable_declaration k t

abbrev pub make_identifier : String → Node
make_identifier name = Node.identifier name

abbrev pub make_type : ValueType → Node
make_type t = Node.type_of t

abbrev pub make_if_then_else : Node → Node → Node → Node
make_if_then_else c true_body false_body = Node.if_then_else c true_body false_body

abbrev pub make_if_then : Node → Node → Node
make_if_then c true_body = Node.if_then c true_body

abbrev pub make_while : Node → Node → Node
make_while c body = Node.while_loop c body

abbrev pub make_do_while : Node → Node → Node
make_do_while c body = Node.do_while c body

abbrev pub make_for : Node → Node → Node → Node → Node
make_for initialize c increment body = Node.for_loop initialize c increment body

abbrev pub make_string_literal : String → Node
make_string_literal str = Node.string_literal str

abbrev pub make_asm : String → Node
make_asm source = Node.asm source
