-- ===== src/Compiler.antt =====
-- src/compiler.hpp, src/compiler_util.cpp: the passes over the tree but for the code (Compiler/Code).
pub mod Line
pub mod Code
pub mod Pretty
pub mod Analysis
pub mod Compile
use kasm.Base.{ℕ, Bool, true, false, Option, none, some, bind}
use kasm.Ast.{BinaryOperator, UnaryOperator, ValueType, Node}

unfoldable pub get_size_of_type : ValueType → ℕ
get_size_of_type ValueType.void = 0
get_size_of_type ValueType.type = 0
get_size_of_type ValueType.u8 = 1
get_size_of_type ValueType.u32 = 4
get_size_of_type ValueType.s8 = 1
get_size_of_type ValueType.s32 = 4

-- The `switch` of `negate` on the operator; `none` is its default.
unfoldable pub negated_operator : BinaryOperator → Option BinaryOperator
negated_operator BinaryOperator.logical_and = some BinaryOperator.logical_or
negated_operator BinaryOperator.logical_or = some BinaryOperator.logical_and
negated_operator BinaryOperator.less_than = some BinaryOperator.greater_than_or_equal
negated_operator BinaryOperator.greater_than = some BinaryOperator.less_than_or_equal
negated_operator BinaryOperator.equal = some BinaryOperator.not_equal
negated_operator BinaryOperator.not_equal = some BinaryOperator.equal
negated_operator BinaryOperator.less_than_or_equal = some BinaryOperator.less_than
negated_operator BinaryOperator.greater_than_or_equal = some BinaryOperator.less_than
negated_operator _ = none

abbrev negated_binary : Option BinaryOperator → BinaryOperator → Node → Node → Node
negated_binary none op l r =
    Node.unary_operator UnaryOperator.logical_not (Node.binary_operator op l r)
negated_binary (some op') op l r = Node.binary_operator op' l r

-- `negate`: the operands are negated too, whatever the operator.
unfoldable pub negate : Node → Node
negate (Node.binary_operator op l r) = negated_binary (negated_operator op) op (negate l) (negate r)
negate (Node.unary_operator UnaryOperator.logical_not r) = r
negate n = Node.unary_operator UnaryOperator.logical_not n

-- The operators on which `semanticAnalysis` goes into the left or the right operand.
abbrev pub analyses_left : BinaryOperator → Bool
analyses_left BinaryOperator.add = true
analyses_left _ = false

abbrev pub analyses_right : BinaryOperator → Bool
analyses_right BinaryOperator.add = true
analyses_right BinaryOperator.assignment = true
analyses_right _ = false

-- The tree with its returns marked, and the static variable `entry`; `none` is the exception "Illegal
-- ast::NodeType".
abbrev pub Analysed : Type 0
Analysed = Option (Node × Bool)

abbrev pub with_node : Analysed → (Node → Node) → Analysed
with_node none f = none
with_node (some (n, e)) f = some (f n, e)

abbrev pub after : Analysed → (Node → Bool → Analysed) → Analysed
after none f = none
after (some (n, e)) f = f n e

abbrev pub skip_unless : Bool → Node → Bool → Analysed → Analysed
skip_unless true n e a = a
skip_unless false n e a = some (n, e)

-- `semanticAnalysis`, with `entry` as it stands.
unfoldable pub semantic_analysis : Bool → Node → Analysed
semantic_analysis e Node.invalid = none
semantic_analysis e Node.empty = some (Node.empty, e)
semantic_analysis e (Node.compound a b) =
    after (semantic_analysis e a)
      λ a' e1. with_node (semantic_analysis e1 b) (λ b'. Node.compound a' b')
semantic_analysis e (Node.return_of c m) =
    after (semantic_analysis e c) λ c' e1. some (Node.return_of c' (some e1), e1)
semantic_analysis e (Node.literal v) = some (Node.literal v, e)
semantic_analysis e (Node.function_definition k t args body m) =
    with_node (semantic_analysis m body) (λ body'. Node.function_definition k t args body' m)
semantic_analysis e (Node.function_call k args) =
    with_node (semantic_analysis e args) (λ args'. Node.function_call k args')
semantic_analysis e (Node.binary_operator op l r) =
    after (skip_unless (analyses_left op) l e (semantic_analysis e l)) λ l' e1.
      with_node (skip_unless (analyses_right op) r e1 (semantic_analysis e1 r))
        (λ r'. Node.binary_operator op l' r')
semantic_analysis e (Node.unary_operator op r) =
    with_node (semantic_analysis e r) (λ r'. Node.unary_operator op r')
semantic_analysis e (Node.variable_declaration k t) = some (Node.variable_declaration k t, e)
semantic_analysis e (Node.identifier k) = some (Node.identifier k, e)
semantic_analysis e (Node.type_of t) = none
semantic_analysis e (Node.if_then_else c a b) = after (semantic_analysis e c) λ c' e1.
    after (semantic_analysis e1 a)
      λ a' e2. with_node (semantic_analysis e2 b) (λ b'. Node.if_then_else c' a' b')
semantic_analysis e (Node.if_then c a) =
    after (semantic_analysis e c)
      λ c' e1. with_node (semantic_analysis e1 a) (λ a'. Node.if_then c' a')
semantic_analysis e (Node.while_loop c b) =
    after (semantic_analysis e c)
      λ c' e1. with_node (semantic_analysis e1 b) (λ b'. Node.while_loop c' b')
semantic_analysis e (Node.do_while c b) = none
semantic_analysis e (Node.for_loop i c n b) = after (semantic_analysis e i) λ i' e1.
    after (semantic_analysis e1 c) λ c' e2.
      after (semantic_analysis e2 n)
        λ n' e3. with_node (semantic_analysis e3 b) (λ b'. Node.for_loop i' c' n' b')
semantic_analysis e (Node.string_literal s) = some (Node.string_literal s, e)
semantic_analysis e (Node.asm s) = some (Node.asm s, e)
