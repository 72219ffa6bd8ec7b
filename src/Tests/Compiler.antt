-- ===== src/Tests/Compiler.antt =====
-- The compiler's theorems at small trees.
use kasm.Base.{ℕ, ◌^◌, ◌<◌, ◌+◌, ◌≡◌, refl, true, false, some, List, [], ◌∷◌, arith, add32}
use kasm.Ast.{
  Node, BinaryOperator, UnaryOperator, ValueType, make_empty, make_compound, make_return,
  make_literal, make_function_definition, make_function_call, make_binary_operator,
  make_unary_operator, make_variable_declaration, make_identifier, make_type, make_if_then_else,
  make_while, make_for, make_asm,
}
use kasm.Compiler.Line.{Line, label, to_label, text, print_line, to_string, decimal}
use kasm.Compiler.Code.{State, code_generation, Mode, ◌then◌, lines, fresh, pass}
use kasm.Compiler.Line.Reads.{read_as, others_read_as}
use kasm.Compiler.Code.Labels.{window, label_count}
use kasm.Compiler.Code.Returns.{Returns}
use kasm.Compiler.Code.Total.{code_generation-Returns}
use kasm.Compiler.Code.Distinct.{code_generation-distinct}
use kasm.Compiler.{semantic_analysis}
use kasm.Compiler.Pretty.{pretty_print, put_line, ◌next◌, indent}
use kasm.Compiler.Pretty.Nodes.{all_typed}
use kasm.Compiler.Compile.{compile, Compiles, compile-Compiles}

-- `if (1) asm("nop")`.
abbrev tree : Node
tree = Node.if_then (Node.literal 1) (Node.asm "nop")

abbrev start : State
start = record { local_variables = []; uid = 0; lval = false }

abbrev code : List Line
code = text "\tli $t0, 1" ∷ to_label "\tbeqz $t0, " 0 ∷ text "nop" ∷ label 0 ∷ []

tree-code : code_generation Mode.alone tree start ≡ some (code, record start { uid = 1 })
unfolding code_generation ◌then◌ lines fresh pass to_string decimal add32
tree-code = refl

second_line : print_line (to_label "\tbeqz $t0, " 12) ≡ "\tbeqz $t0, _12"
unfolding print_line to_string decimal
second_line = refl

code_generation-distinct_example :
    (1 ≡ 0 + label_count tree)
    × ((l : ℕ)
        → l < 2 ^ 32
        → read_as l code ≡ window 0 (label_count tree) l + others_read_as l code)
code_generation-distinct_example =
    code_generation-distinct tree start (record start { uid = 1 }) code (omega arith) tree-code

-- A function named `_0` with an `if` in it: two lines read "_0:".
abbrev twice : List Line
twice =
    text "_0:"
    ∷ text "\tenter"
    ∷ text "\tli $t0, 1"
    ∷ to_label "\tbeqz $t0, " 0
    ∷ text "nop"
    ∷ label 0
    ∷ text "\tret"
    ∷ []

twice-read : (read_as 0 twice ≡ 2) × (others_read_as 0 twice ≡ 1)
unfolding print_line to_string decimal
twice-read = (refl, refl)

code_generation-Returns_example : Returns (code_generation (Mode.argument 4) tree)
code_generation-Returns_example = code_generation-Returns (Mode.argument 4) tree (tt, tt)

-- A whole program of one `if`, through the three passes.
compile-tree : compile false start tree ≡ some (code, record start { uid = 1 })
unfolding compile pretty_print put_line ◌next◌ indent semantic_analysis code_generation ◌then◌ lines
    fresh pass to_string decimal add32
compile-tree = refl

-- `u32 entry(u32 n) { u32 k; for (k = 0; k < n; k = k + 1) { if (n) asm("sys") else while (k) f(k); }
-- return -k; }`, as the parser builds it.
abbrev body : Node
body =
    let k = make_identifier "k" in
    let n = make_identifier "n" in
    let init = make_binary_operator BinaryOperator.assignment k (make_literal 0) in
    let test = make_binary_operator BinaryOperator.less_than k n in
    let more = make_binary_operator BinaryOperator.add k (make_literal 1) in
    let advance = make_binary_operator BinaryOperator.assignment k more in
    let again = make_while k (make_function_call (make_identifier "f") k) in
    let loop = make_for init test advance (make_if_then_else n (make_asm "sys") again) in
    let result = make_return (make_unary_operator UnaryOperator.negate k) in
    make_compound (make_variable_declaration k (make_type ValueType.u32))
      (make_compound loop (make_compound result make_empty))

entry_program :
    make_function_definition
      (make_identifier "entry")
      (make_type ValueType.u32)
      (make_variable_declaration (make_identifier "n") (make_type ValueType.u32))
      body
    ≡ some (
        Node.function_definition
          (Node.identifier "entry")
          (Node.type_of ValueType.u32)
          (Node.variable_declaration (Node.identifier "n") (Node.type_of ValueType.u32))
          body
          true)
unfolding make_function_definition
entry_program = refl

body-typed : all_typed body ≡ true
unfolding all_typed
body-typed = refl

compile-Compiles_example : Compiles true start body
compile-Compiles_example =
    compile-Compiles true start body body-typed
      ((tt, tt), (((tt, tt), (tt, tt), (tt, (tt, tt)), (tt, tt, (tt, (tt, tt)))), (tt, tt)))
