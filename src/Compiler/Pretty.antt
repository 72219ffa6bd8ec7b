-- ===== src/Compiler/Pretty.antt =====
-- src/compiler_util.cpp, `prettyPrint`.
pub mod Nodes
use Prim.Native.String.{◌++◌ as str_append}
use kasm.Base.{
  ℕ, zero, suc, ◌+◌, Bool, true, false, List, [], ◌∷◌, ◌++◌, String, if◌then◌else◌, add32,
}
use kasm.Ast.{BinaryOperator, UnaryOperator, ValueType, Node}
use kasm.Compiler.Line.{to_string}

-- What was printed: the lines that are complete, and what stands after them; and whether the
-- function returned, or threw "Illegal ast::NodeType".
pub record Printed : Type 0 where
  pub lines : List String
  pub returned : Bool

abbrev pub binary_name : BinaryOperator → String
binary_name BinaryOperator.add = "+"
binary_name BinaryOperator.assignment = "="
binary_name _ = ""

abbrev pub unary_name : UnaryOperator → String
unary_name UnaryOperator.negate = "-"
unary_name _ = ""

abbrev pub type_name : ValueType → String
type_name ValueType.void = "void"
type_name ValueType.type = "type"
type_name ValueType.u8 = "u8"
type_name _ = ""

-- One call after another; after a throw, none.
infixr 6 ◌next◌
unfoldable pub ◌next◌ : Printed → Printed → Printed
p next q = if p.returned then record { lines = p.lines ++ q.lines; returned = q.returned } else p

unfoldable pub indent : ℕ → String
indent zero = ""
indent (suc n) = str_append "    " (indent n)

unfoldable pub put_line : ℕ → String → Printed
put_line n s = record { lines = str_append (indent n) s ∷ []; returned = true }

-- `prettyPrint(astNode, level)`, on the numbers that the recursion reaches below 2 ^ 32.
unfoldable pub pretty_print : ℕ → Node → Printed
pretty_print n Node.invalid = record { lines = indent n ∷ []; returned = false }
pretty_print n Node.empty = put_line n "EMPTY"
pretty_print n (Node.compound a b) =
    put_line n "COMPOUND:" next pretty_print (suc n) a next pretty_print (suc n) b
pretty_print n (Node.return_of c entry) = put_line n "RETURN:" next pretty_print (suc n) c
pretty_print n (Node.literal v) = put_line n (str_append "LITERAL(" (str_append (to_string v) ");"))
pretty_print n (Node.function_definition k t args body entry) =
    put_line n "FUNCTION_DEFINITION:"
    next pretty_print (suc n) k
    next pretty_print (suc n) t
    next pretty_print (suc n) args
    next pretty_print (suc n) body
pretty_print n (Node.function_call k args) =
    put_line n "FUNCTION_CALL:" next pretty_print (suc n) k next pretty_print (suc n) args
pretty_print n (Node.binary_operator op l r) =
    put_line n (str_append "BINARY_OPERATOR(" (str_append (binary_name op) "):"))
    next pretty_print (suc n) l
    next pretty_print (suc n) r
pretty_print n (Node.unary_operator op r) =
    put_line n (str_append "UNARY_OPERATOR(" (str_append (unary_name op) "):"))
    next pretty_print (suc n) r
pretty_print n (Node.variable_declaration k t) =
    put_line n "VARIABLE_DECLARATION:" next pretty_print (suc n) k next pretty_print (suc n) t
pretty_print n (Node.identifier k) = put_line n (str_append "IDENTIFIER(" (str_append k ");"))
pretty_print n (Node.type_of t) = put_line n (str_append "TYPE(" (str_append (type_name t) ");"))
pretty_print n (Node.if_then_else c a b) =
    put_line n "IF_THEN_ELSE:"
    next pretty_print (suc n) c
    next pretty_print (suc n) a
    next pretty_print (suc n) b
pretty_print n (Node.if_then c a) =
    put_line n "IF_THEN:" next pretty_print (suc n) c next pretty_print (suc n) a
pretty_print n (Node.while_loop c b) =
    put_line n "WHILE:" next pretty_print (suc n) c next pretty_print (suc n) b
pretty_print n (Node.do_while c b) =
    put_line n "DO_WHILE:" next pretty_print (suc n) c next pretty_print (suc n) b
pretty_print n (Node.for_loop i c s b) =
    put_line n "FOR:"
    next pretty_print (suc n) i
    next pretty_print (suc n) c
    next pretty_print (suc n) s
    next pretty_print (suc n) b
pretty_print n (Node.string_literal s) =
    put_line n (str_append "STRING_LITERAL(\"" (str_append s "\");"))
pretty_print n (Node.asm s) = put_line n (str_append "ASM(\"" (str_append s "\");"))
