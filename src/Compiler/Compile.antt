-- ===== src/Compiler/Compile.antt =====
-- src/compiler_util.cpp, `compile`, from the tree that the parser leaves.
use kasm.Base.{◌≡◌, refl, ap, ◌∙◌, Bool, true, Option, none, some, List, if◌then◌else◌}
use kasm.Ast.{Node, BinaryOperator, UnaryOperator}
use kasm.Compiler.{semantic_analysis}
use kasm.Compiler.Line.{Line}
use kasm.Compiler.Pretty.{pretty_print}
use kasm.Compiler.Pretty.Nodes.{all_typed, pretty_print-Prints}
use kasm.Compiler.Code.{State, Mode, code_generation}
use kasm.Compiler.Code.Returns.{Named, Typed}
use kasm.Compiler.Code.Total.{Compilable, code_generation-Returns}

abbrev code_of : Option (Node × Bool) → State → Option (List Line × State)
code_of none s = none
code_of (some (n, e)) s = code_generation Mode.alone n s

-- `prettyPrint`, `semanticAnalysis` and `codeGeneration` of the root, with their static variables: the
-- lines of the assembly file, or `none` where one of them throws.
unfoldable pub compile : Bool → State → Node → Option (List Line × State)
compile entry s root =
    if (pretty_print 0 root).returned then code_of (semantic_analysis entry root) s else none

-- Names and types where they are read, no `do`, and nothing that has no code, also in the operands
-- that the analysis does not visit; returns need not be marked where it does.
abbrev pub Accepted : Node → Type 0
Accepted Node.invalid = ⊥
Accepted (Node.type_of t) = ⊥
Accepted (Node.do_while c b) = ⊥
Accepted (Node.compound a b) = Accepted a × Accepted b
Accepted (Node.return_of c m) = Accepted c
Accepted (Node.function_definition k t args body m) = Named k × Accepted body
Accepted (Node.function_call k args) = Named k × Accepted args
Accepted (Node.binary_operator BinaryOperator.add l r) = Accepted l × Accepted r
Accepted (Node.binary_operator BinaryOperator.assignment l r) = Compilable l × Accepted r
Accepted (Node.binary_operator op l r) = Compilable l × Compilable r
Accepted (Node.unary_operator UnaryOperator.address_of r) = Named r
Accepted (Node.unary_operator op r) = Accepted r
Accepted (Node.variable_declaration k t) = Named k × Typed t
Accepted (Node.if_then_else c a b) = Accepted c × Accepted a × Accepted b
Accepted (Node.if_then c a) = Accepted c × Accepted a
Accepted (Node.while_loop c b) = Accepted c × Accepted b
Accepted (Node.for_loop i c n b) = Accepted i × Accepted c × Accepted n × Accepted b
Accepted _ = Unit

-- The analysis gives a tree that has code.
abbrev Prepares : Bool → Node → Type 0
Prepares e n = (n' : Node) × (e' : Bool) × (semantic_analysis e n ≡ some (n', e')) × Compilable n'

semantic_analysis-Named : (e : Bool) (n : Node) → Named n → (semantic_analysis e n ≡ some (n, e))
unfolding semantic_analysis
semantic_analysis-Named e (Node.identifier k) h = refl
semantic_analysis-Named e _ h = absurd h

semantic_analysis-Prepares : (e : Bool) (n : Node) → Accepted n → Prepares e n
unfolding semantic_analysis
semantic_analysis-Prepares e Node.invalid h = absurd h
semantic_analysis-Prepares e (Node.type_of t) h = absurd h
semantic_analysis-Prepares e (Node.do_while c b) h = absurd h
semantic_analysis-Prepares e (Node.compound a b) (ha, hb) =
    let (a', e1, p, p') = semantic_analysis-Prepares e a ha in
    let (b', e2, q, q') = semantic_analysis-Prepares e1 b hb in
    (Node.compound a' b', e2, rw (p, q) refl, (p', q'))
semantic_analysis-Prepares e (Node.return_of c m) h =
    let (c', e1, p, p') = semantic_analysis-Prepares e c h in
    (Node.return_of c' (some e1), e1, rw p refl, p')
semantic_analysis-Prepares e (Node.function_definition k t args body m) (hk, h) =
    let (b', e1, p, p') = semantic_analysis-Prepares m body h in
    (Node.function_definition k t args b' m, e1, rw p refl, (hk, p'))
semantic_analysis-Prepares e (Node.function_call k args) (hk, h) =
    let (a', e1, p, p') = semantic_analysis-Prepares e args h in
    (Node.function_call k a', e1, rw p refl, (hk, p'))
semantic_analysis-Prepares e (Node.binary_operator BinaryOperator.add l r) (hl, hr) =
    let (l', e1, p, p') = semantic_analysis-Prepares e l hl in
    let (r', e2, q, q') = semantic_analysis-Prepares e1 r hr in
    (Node.binary_operator BinaryOperator.add l' r', e2, rw (p, q) refl, (p', q'))
semantic_analysis-Prepares e (Node.binary_operator BinaryOperator.assignment l r) (hl, h) =
    let (r', e1, p, p') = semantic_analysis-Prepares e r h in
    (Node.binary_operator BinaryOperator.assignment l r', e1, rw p refl, (hl, p'))
semantic_analysis-Prepares e (Node.binary_operator op l r) h =
    (Node.binary_operator op l r, e, refl, h)
semantic_analysis-Prepares e (Node.unary_operator UnaryOperator.address_of r) h =
    (Node.unary_operator UnaryOperator.address_of r, e, rw (semantic_analysis-Named e r h) refl, h)
semantic_analysis-Prepares e (Node.unary_operator op r) h =
    let (r', e1, p, p') = semantic_analysis-Prepares e r h in
    (Node.unary_operator op r', e1, rw p refl, p')
semantic_analysis-Prepares e (Node.if_then_else c a b) (hc, ha, hb) =
    let (c', e1, o, o') = semantic_analysis-Prepares e c hc in
    let (a', e2, p, p') = semantic_analysis-Prepares e1 a ha in
    let (b', e3, q, q') = semantic_analysis-Prepares e2 b hb in
    (Node.if_then_else c' a' b', e3, rw (o, p, q) refl, (o', p', q'))
semantic_analysis-Prepares e (Node.if_then c a) (hc, ha) =
    let (c', e1, o, o') = semantic_analysis-Prepares e c hc in
    let (a', e2, p, p') = semantic_analysis-Prepares e1 a ha in
    (Node.if_then c' a', e2, rw (o, p) refl, (o', p'))
semantic_analysis-Prepares e (Node.while_loop c b) (hc, hb) =
    let (c', e1, o, o') = semantic_analysis-Prepares e c hc in
    let (b', e2, p, p') = semantic_analysis-Prepares e1 b hb in
    (Node.while_loop c' b', e2, rw (o, p) refl, (o', p'))
semantic_analysis-Prepares e (Node.for_loop i c n b) (hi, hc, hn, hb) =
    let (i', e1, o, o') = semantic_analysis-Prepares e i hi in
    let (c', e2, p, p') = semantic_analysis-Prepares e1 c hc in
    let (n', e3, q, q') = semantic_analysis-Prepares e2 n hn in
    let (b', e4, r, r') = semantic_analysis-Prepares e3 b hb in
    (Node.for_loop i' c' n' b', e4, rw (o, p, q, r) refl, (o', p', q', r'))
semantic_analysis-Prepares e (Node.variable_declaration k t) h =
    (Node.variable_declaration k t, e, refl, h)
semantic_analysis-Prepares e Node.empty h = (Node.empty, e, refl, tt)
semantic_analysis-Prepares e (Node.literal v) h = (Node.literal v, e, refl, tt)
semantic_analysis-Prepares e (Node.identifier k) h = (Node.identifier k, e, refl, tt)
semantic_analysis-Prepares e (Node.string_literal k) h = (Node.string_literal k, e, refl, tt)
semantic_analysis-Prepares e (Node.asm k) h = (Node.asm k, e, refl, tt)

abbrev pub Compiles : Bool → State → Node → Type 0
Compiles entry s root = (ls : List Line) × (s' : State) × (compile entry s root ≡ some (ls, s'))

-- `compile` throws on no tree whose nodes all have a type, with names and types where they are
-- read, and without `do` and nodes that have no code: from any static variables, with returns
-- marked or not, the three passes return and there are lines.
pub compile-Compiles :
    (entry : Bool) (s : State) (root : Node)
    → all_typed root ≡ true
    → Accepted root
    → Compiles entry s root
unfolding compile
compile-Compiles entry s root typed h =
    let (n, e, analysed, has_code) = semantic_analysis-Prepares entry root h in
    let (ls, s', produced) = (code_generation-Returns Mode.alone n has_code).gives s in
    let printed = (pretty_print-Prints 0 root).returned_if ∙ typed in
    (
      ls,
      s',
      ap (λ b. if b then code_of (semantic_analysis entry root) s else none) printed
          ∙ ap (λ x. code_of x s) analysed
          ∙ produced,
    )
