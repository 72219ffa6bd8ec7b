-- ===== src/Compiler/Analysis.antt =====
-- src/compiler_util.cpp, `semanticAnalysis`, on a tree and on its result.
use kasm.Base.{◌≡◌, refl, Bool, some}
use kasm.Ast.{Node, BinaryOperator}
use kasm.Compiler.{semantic_analysis}

-- A tree in which the analysis does not throw.
abbrev pub Analysable : Node → Type 0
Analysable Node.invalid = ⊥
Analysable (Node.type_of t) = ⊥
Analysable (Node.do_while c b) = ⊥
Analysable (Node.compound a b) = Analysable a × Analysable b
Analysable (Node.return_of c m) = Analysable c
Analysable (Node.function_definition k t args body m) = Analysable body
Analysable (Node.function_call k args) = Analysable args
Analysable (Node.binary_operator BinaryOperator.add l r) = Analysable l × Analysable r
Analysable (Node.binary_operator BinaryOperator.assignment l r) = Analysable r
Analysable (Node.binary_operator op l r) = Unit
Analysable (Node.unary_operator op r) = Analysable r
Analysable (Node.if_then_else c a b) = Analysable c × Analysable a × Analysable b
Analysable (Node.if_then c a) = Analysable c × Analysable a
Analysable (Node.while_loop c b) = Analysable c × Analysable b
Analysable (Node.for_loop i c n b) = Analysable i × Analysable c × Analysable n × Analysable b
Analysable _ = Unit

-- The analysis returns a tree, and the analysis of this tree gives it again.
abbrev pub Settles : Bool → Node → Type 0
Settles e n =
    (n' : Node) × (e' : Bool) × (semantic_analysis e n ≡ some (n', e'))
    × (semantic_analysis e n' ≡ some (n', e'))

-- On a tree without a node that the analysis rejects it returns, and a second analysis that starts
-- with the same `entry` changes nothing.
pub semantic_analysis-Settles : (e : Bool) (n : Node) → Analysable n → Settles e n
unfolding semantic_analysis
semantic_analysis-Settles e Node.invalid h = absurd h
semantic_analysis-Settles e (Node.type_of t) h = absurd h
semantic_analysis-Settles e (Node.do_while c b) h = absurd h
semantic_analysis-Settles e (Node.compound a b) (ha, hb) =
    let (a', e1, p, p') = semantic_analysis-Settles e a ha in
    let (b', e2, q, q') = semantic_analysis-Settles e1 b hb in
    (Node.compound a' b', e2, rw (p, q) refl, rw (p', q') refl)
semantic_analysis-Settles e (Node.return_of c m) h =
    let (c', e1, p, p') = semantic_analysis-Settles e c h in
    (Node.return_of c' (some e1), e1, rw p refl, rw p' refl)
semantic_analysis-Settles e (Node.function_definition k t args body m) h =
    let (b', e1, p, p') = semantic_analysis-Settles m body h in
    (Node.function_definition k t args b' m, e1, rw p refl, rw p' refl)
semantic_analysis-Settles e (Node.function_call k args) h =
    let (a', e1, p, p') = semantic_analysis-Settles e args h in
    (Node.function_call k a', e1, rw p refl, rw p' refl)
semantic_analysis-Settles e (Node.binary_operator BinaryOperator.add l r) (hl, hr) =
    let (l', e1, p, p') = semantic_analysis-Settles e l hl in
    let (r', e2, q, q') = semantic_analysis-Settles e1 r hr in
    (Node.binary_operator BinaryOperator.add l' r', e2, rw (p, q) refl, rw (p', q') refl)
semantic_analysis-Settles e (Node.binary_operator BinaryOperator.assignment l r) h =
    let (r', e1, p, p') = semantic_analysis-Settles e r h in
    (Node.binary_operator BinaryOperator.assignment l r', e1, rw p refl, rw p' refl)
semantic_analysis-Settles e (Node.binary_operator op l r) h =
    (Node.binary_operator op l r, e, refl, refl)
semantic_analysis-Settles e (Node.unary_operator op r) h =
    let (r', e1, p, p') = semantic_analysis-Settles e r h in
    (Node.unary_operator op r', e1, rw p refl, rw p' refl)
semantic_analysis-Settles e (Node.if_then_else c a b) (hc, ha, hb) =
    let (c', e1, o, o') = semantic_analysis-Settles e c hc in
    let (a', e2, p, p') = semantic_analysis-Settles e1 a ha in
    let (b', e3, q, q') = semantic_analysis-Settles e2 b hb in
    (Node.if_then_else c' a' b', e3, rw (o, p, q) refl, rw (o', p', q') refl)
semantic_analysis-Settles e (Node.if_then c a) (hc, ha) =
    let (c', e1, o, o') = semantic_analysis-Settles e c hc in
    let (a', e2, p, p') = semantic_analysis-Settles e1 a ha in
    (Node.if_then c' a', e2, rw (o, p) refl, rw (o', p') refl)
semantic_analysis-Settles e (Node.while_loop c b) (hc, hb) =
    let (c', e1, o, o') = semantic_analysis-Settles e c hc in
    let (b', e2, p, p') = semantic_analysis-Settles e1 b hb in
    (Node.while_loop c' b', e2, rw (o, p) refl, rw (o', p') refl)
semantic_analysis-Settles e (Node.for_loop i c n b) (hi, hc, hn, hb) =
    let (i', e1, o, o') = semantic_analysis-Settles e i hi in
    let (c', e2, p, p') = semantic_analysis-Settles e1 c hc in
    let (n', e3, q, q') = semantic_analysis-Settles e2 n hn in
    let (b', e4, r, r') = semantic_analysis-Settles e3 b hb in
    (Node.for_loop i' c' n' b', e4, rw (o, p, q, r) refl, rw (o', p', q', r') refl)
semantic_analysis-Settles e n h = (n, e, refl, refl)
