-- ===== src/Compiler/Code.antt =====
-- src/compiler_util.cpp, `codeGeneration`.
pub mod Count
pub mod Labels
pub mod Loops
pub mod Distinct
pub mod Returns
pub mod Total
use Prim.Native.String.{◌++◌ as str_append}
use kasm.Base.{
  ℕ, ◌+◌, Bool, true, false, Option, none, some, List, [], ◌∷◌, ◌++◌, String, if◌then◌else◌, maybe,
  bind, add32,
}
use kasm.Ast.{BinaryOperator, UnaryOperator, ValueType, Node, identifier_of, value_type_of}
use kasm.Assembler.{lookup, insert}
use kasm.Compiler.Line.{Line, to_string, label, to_label, text}
use kasm.Compiler.{get_size_of_type}

-- The static variables of `codeGeneration`.
pub record State : Type 0 where
  pub local_variables : List (String × ℕ)
  pub uid : ℕ
  pub lval : Bool

-- The lines that were written and the state after them; `none` where "Illegal ast::NodeType" is thrown
-- or a member of the wrong kind of node is read.
abbrev pub Generator : Type 0
Generator = State → Option (List Line × State)

abbrev pub add_lines : List Line → Option (List Line × State) → Option (List Line × State)
add_lines ls none = none
add_lines ls (some (ms, s)) = some (ls ++ ms, s)

abbrev pub and_then : Option (List Line × State) → Generator → Option (List Line × State)
and_then none h = none
and_then (some (ls, s)) h = add_lines ls (h s)

infixr 6 ◌then◌
unfoldable pub ◌then◌ : Generator → Generator → Generator
(g then h) s = and_then (g s) h

unfoldable pub lines : List Line → Generator
lines ls s = some (ls, s)

abbrev pub line : String → Generator
line t = lines (text t ∷ [])

unfoldable pub illegal : Generator
illegal s = none

-- `uid++`.
unfoldable pub fresh : (ℕ → Generator) → Generator
fresh f s = f s.uid (record s { uid = add32 s.uid 1 })

unfoldable pub set_lval : Bool → Generator
set_lval b s = some ([], record s { lval = b })

unfoldable pub set_local : String → ℕ → Generator
set_local k i s = some ([], record s { local_variables = insert k i s.local_variables })

unfoldable pub clear_locals : Generator
clear_locals s = some ([], record s { local_variables = [] })

-- A local variable, by its offset, or another name.
unfoldable pub by_name : String → (ℕ → Generator) → Generator → Generator
by_name k f g s = maybe (lookup k s.local_variables) (g s) (λ i. f i s)

unfoldable pub by_lval : Generator → Generator → Generator
by_lval f g s = if s.lval then f s else g s

unfoldable pub named : Option String → (String → Generator) → Generator
named none f = illegal
named (some k) f = f k

-- What the left operand leaves is kept above $gp while the right one is computed.
abbrev pub push_and_pop : Generator → Generator → List Line → Generator
push_and_pop l r ls =
    l
    then line "\tsw $t0, 0($gp)"
    then line "\taddi $gp, $gp, 4"
    then r
    then line "\taddi $gp, $gp, -4"
    then line "\tlw $t1, 0($gp)"
    then lines ls

-- The `switch` on the binary operator; the default writes nothing.
abbrev pub binary_code : BinaryOperator → Generator → Generator → Generator
binary_code BinaryOperator.add l r = push_and_pop l r (text "\tadd $t0, $t1, $t0" ∷ [])
binary_code BinaryOperator.modulus l r = push_and_pop l r (text "\trem $t0, $t1, $t0" ∷ [])
binary_code BinaryOperator.assignment l r =
    push_and_pop (set_lval true then l then set_lval false) r (text "\tsw $t0, ($t1)" ∷ [])
binary_code BinaryOperator.logical_and l r =
    push_and_pop l r (
      text "\tsne $t0, $t0, $zero" ∷ text "\tsne $t1, $t1, $zero" ∷ text "\tand $t0, $t1, $t0" ∷ [])
binary_code BinaryOperator.equal l r = push_and_pop l r (text "\tseq $t0, $t1, $t0" ∷ [])
binary_code BinaryOperator.not_equal l r = push_and_pop l r (text "\tsne $t0, $t1, $t0" ∷ [])
binary_code BinaryOperator.less_than l r = push_and_pop l r (text "\tslt $t0, $t1, $t0" ∷ [])
binary_code BinaryOperator.less_than_or_equal l r =
    push_and_pop l r
      (text "\tslt $t2, $t1, $t0" ∷ text "\tseq $t0, $t0, $t1" ∷ text "\tor $t0, $t0, $t2" ∷ [])
binary_code BinaryOperator.greater_than l r = push_and_pop l r (
    text "\tslt $t2, $t0, $t1"
    ∷ text "\tseq $t0, $t0, $t1"
    ∷ text "\tor $t0, $t0, $t2"
    ∷ text "\txori $t0, $t0, 1"
    ∷ [])
binary_code BinaryOperator.greater_than_or_equal l r =
    push_and_pop l r (text "\tslt $t0, $t0, $t1" ∷ text "\txori $t0, $t0, 1" ∷ [])
binary_code BinaryOperator.logical_or l r = lines []

abbrev pub unary_code : UnaryOperator → Node → Generator → Generator
unary_code UnaryOperator.negate n r = r then line "sub $t0, $zero, $t0"
unary_code UnaryOperator.indirection n r = r then line "lw $t0, ($t0)"
unary_code UnaryOperator.address_of n r = named (identifier_of n) λ k.
    by_name k (λ i. line (str_append "addi $t0, $fp, -" (to_string i)))
      (line (str_append "la $t0, " k))
unary_code UnaryOperator.logical_not n r = r then line "seq $t0, $t0, $zero"

unfoldable pub identifier_code : String → Generator
identifier_code k =
    by_lval
      (by_name k (λ i. line (str_append "\tadd $t0, -" (str_append (to_string i) ", $fp")))
        (line (str_append "\tla $t0, " k)))
      (by_name k (λ i. line (str_append "\tlw $t0, -" (str_append (to_string i) "($fp)")))
        (lines (text (str_append "\tla $t0, " k) ∷ text "\tlw $t0, ($t0)" ∷ [])))

unfoldable pub space_code : String → Option ValueType → Generator
space_code name none = illegal
space_code name (some t) =
    lines (
      text ".data"
      ∷ text (str_append name ":")
      ∷ text (str_append "\t.space " (to_string (get_size_of_type t)))
      ∷ text ".text"
      ∷ [])
    then by_lval (line (str_append "la $t0, " name)) (lines [])

unfoldable pub declaration_code : Node → Node → Generator
declaration_code k t = named (identifier_of k) (λ name. space_code name (value_type_of t))

-- The loop over the parameters of a function; each is recorded under the name of the function.
unfoldable pub store_parameter : String → ℕ → Generator
store_parameter f i =
    set_local f i
    then line "\taddi $sp, $sp, -4"
    then line (
        str_append "\tsw $" (
          str_append (to_string (add32 4 i)) (str_append ", -" (str_append (to_string i) "($fp)"))))

unfoldable pub store_parameters : String → ℕ → Node → Generator
store_parameters f i (Node.compound a b) = store_parameter f i then store_parameters f (add32 i 4) b
store_parameters f i (Node.variable_declaration k t) = store_parameter f i
store_parameters f i _ = lines []

-- A node is compiled on its own, or as an argument for the register of a number, from which the
-- loop over the arguments of a call goes on.
pub data Mode : Type 0 where
  alone : Mode
  argument : ℕ → Mode

unfoldable pub pass : Mode → Generator
pass Mode.alone = lines []
pass (Mode.argument r) = line (str_append "\tcopy $" (str_append (to_string r) ", $t0"))

abbrev pub compound_mode : Mode → Mode
compound_mode Mode.alone = Mode.alone
compound_mode (Mode.argument r) = Mode.argument (add32 r 1)

abbrev pub empty_code : Mode → Generator
empty_code m = lines []

unfoldable pub code_generation : Mode → Node → Generator
code_generation m Node.invalid = illegal
code_generation m Node.empty = empty_code m
code_generation m (Node.compound a b) =
    code_generation Mode.alone a then pass m then code_generation (compound_mode m) b
code_generation m (Node.return_of c entry) =
    code_generation Mode.alone c
    then maybe entry illegal (λ e.
      if e
      then lines (text "\tcopy $a0, $t0" ∷ text "\tli $v0, 0" ∷ text "\tsys" ∷ [])
      else line "\tret")
    then pass m
code_generation m (Node.literal v) = line (str_append "\tli $t0, " (to_string v)) then pass m
code_generation m (Node.function_definition k t args body entry) =
    named (identifier_of k) (λ f.
      line (str_append f ":")
      then (if entry then line "\tcopy $fp, $sp" else line "\tenter")
      then store_parameters f 4 args)
    then code_generation Mode.alone body
    then line "\tret"
    then clear_locals
    then pass m
code_generation m (Node.function_call k args) =
    code_generation (Mode.argument 4) args
    then named (identifier_of k) (λ f. line (str_append "\tcall " f))
    then pass m
code_generation m (Node.binary_operator op l r) =
    binary_code op (code_generation Mode.alone l) (code_generation Mode.alone r) then pass m
code_generation m (Node.unary_operator op r) =
    unary_code op r (code_generation Mode.alone r) then pass m
code_generation m (Node.variable_declaration k t) = declaration_code k t then pass m
code_generation m (Node.identifier k) = identifier_code k then pass m
code_generation m (Node.type_of t) = illegal
code_generation m (Node.if_then_else c a b) =
    fresh (λ last. fresh (λ other.
      code_generation Mode.alone c
      then lines (to_label "\tbeqz $t0, " other ∷ [])
      then code_generation Mode.alone a
      then lines (to_label "\tb " last ∷ label other ∷ [])
      then code_generation Mode.alone b
      then lines (label last ∷ [])))
    then pass m
code_generation m (Node.if_then c a) =
    fresh (λ last.
      code_generation Mode.alone c
      then lines (to_label "\tbeqz $t0, " last ∷ [])
      then code_generation Mode.alone a
      then lines (label last ∷ []))
    then pass m
code_generation m (Node.while_loop c b) =
    fresh (λ top. fresh (λ bottom.
      lines (to_label "\tb " bottom ∷ label top ∷ [])
      then code_generation Mode.alone b
      then lines (label bottom ∷ [])
      then code_generation Mode.alone c
      then lines (to_label "\tbne $t0, $zero, " top ∷ [])))
    then pass m
code_generation m (Node.do_while c b) =
    fresh (λ top.
      lines (label top ∷ [])
      then code_generation Mode.alone b
      then code_generation Mode.alone c
      then lines (to_label "\tbne $t0, $zero, " top ∷ []))
    then pass m
code_generation m (Node.for_loop i c n b) =
    fresh (λ top. fresh (λ bottom. fresh (λ last.
      code_generation Mode.alone i
      then code_generation Mode.alone c
      then lines (to_label "\tbeqz $t0, " last ∷ label top ∷ [])
      then code_generation Mode.alone b
      then lines (label bottom ∷ [])
      then code_generation Mode.alone n
      then code_generation Mode.alone c
      then lines (to_label "\tbne $t0, $zero, " top ∷ label last ∷ []))))
    then pass m
code_generation m (Node.string_literal str) =
    fresh (λ here. lines (
      text ".data"
      ∷ label here
      ∷ text (str_append "\t.asciiz \"" (str_append str "\""))
      ∷ text ".text"
      ∷ to_label "\tla $t0, " here
      ∷ []))
    then pass m
code_generation m (Node.asm source) = line source then pass m
