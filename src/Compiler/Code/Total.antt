-- ===== src/Compiler/Code/Total.antt =====
-- src/compiler_util.cpp, `codeGeneration`: the trees for which it returns.
use kasm.Base.{ℕ, Bool, true, false, none, some, List, [], ◌∷◌, String, if◌then◌else◌, add32}
use kasm.Ast.{Node, BinaryOperator, UnaryOperator, value_type_of}
use kasm.Compiler.Line.{Line, text}
use kasm.Compiler.Code.{
  Generator, ◌then◌, lines, line, push_and_pop, binary_code, identifier_code, space_code,
  declaration_code, store_parameter, store_parameters, Mode, pass, compound_mode, code_generation,
}
use kasm.Compiler.Code.Returns.{
  Returns, ◌andalso◌, Returns-lines, Returns-line, Returns-fresh, Returns-set_lval,
  Returns-set_local, Returns-clear_locals, Returns-by_lval, Returns-by_name, Named, Typed,
  Returns-named,
}

-- Names and types where they are read, returns that the analysis has marked, and no node of a kind
-- that has no code.
abbrev pub Compilable : Node → Type 0
Compilable Node.invalid = ⊥
Compilable (Node.type_of t) = ⊥
Compilable (Node.compound a b) = Compilable a × Compilable b
Compilable (Node.return_of c (some e)) = Compilable c
Compilable (Node.return_of c none) = ⊥
Compilable (Node.function_definition k t args body e) = Named k × Compilable body
Compilable (Node.function_call k args) = Named k × Compilable args
Compilable (Node.binary_operator op l r) = Compilable l × Compilable r
Compilable (Node.unary_operator UnaryOperator.address_of r) = Named r
Compilable (Node.unary_operator op r) = Compilable r
Compilable (Node.variable_declaration k t) = Named k × Typed t
Compilable (Node.if_then_else c a b) = Compilable c × Compilable a × Compilable b
Compilable (Node.if_then c a) = Compilable c × Compilable a
Compilable (Node.while_loop c b) = Compilable c × Compilable b
Compilable (Node.do_while c b) = Compilable c × Compilable b
Compilable (Node.for_loop i c n b) = Compilable i × Compilable c × Compilable n × Compilable b
Compilable _ = Unit

pass-Returns : (m : Mode) → Returns (pass m)
unfolding pass
pass-Returns Mode.alone = Returns-lines []
pass-Returns (Mode.argument r) = Returns-line _

store_parameter-Returns : (f : String) (i : ℕ) → Returns (store_parameter f i)
unfolding store_parameter
store_parameter-Returns f i = Returns-set_local f i andalso Returns-line _ andalso Returns-line _

store_parameters-Returns : (f : String) (i : ℕ) (n : Node) → Returns (store_parameters f i n)
unfolding store_parameters
store_parameters-Returns f i (Node.compound a b) =
    store_parameter-Returns f i andalso store_parameters-Returns f (add32 i 4) b
store_parameters-Returns f i (Node.variable_declaration k t) = store_parameter-Returns f i
store_parameters-Returns f i _ = Returns-lines []

push_and_pop-Returns :
    {l r : Generator} (ls : List Line) → Returns l → Returns r → Returns (push_and_pop l r ls)
push_and_pop-Returns ls hl hr =
    hl
    andalso Returns-line _
    andalso Returns-line _
    andalso hr
    andalso Returns-line _
    andalso Returns-line _
    andalso Returns-lines ls

binary_code-Returns :
    (op : BinaryOperator) {l r : Generator} → Returns l → Returns r → Returns (binary_code op l r)
binary_code-Returns BinaryOperator.logical_or hl hr = Returns-lines []
binary_code-Returns BinaryOperator.assignment hl hr =
    push_and_pop-Returns _ (Returns-set_lval true andalso hl andalso Returns-set_lval false) hr
binary_code-Returns _ hl hr = push_and_pop-Returns _ hl hr

identifier_code-Returns : (k : String) → Returns (identifier_code k)
unfolding identifier_code
identifier_code-Returns k =
    Returns-by_lval (Returns-by_name k (λ i. Returns-line _) (Returns-line _))
      (Returns-by_name k (λ i. Returns-line _) (Returns-lines _))

space_code-Returns :
    (name : String) (t : Node) → Typed t → Returns (space_code name (value_type_of t))
unfolding space_code
space_code-Returns name (Node.type_of t) h =
    Returns-lines _ andalso Returns-by_lval (Returns-line _) (Returns-lines [])
space_code-Returns name _ h = absurd h

leave-Returns :
    (e : Bool)
    → Returns (
        if e
        then lines (text "\tcopy $a0, $t0" ∷ text "\tli $v0, 0" ∷ text "\tsys" ∷ [])
        else line "\tret")
leave-Returns true = Returns-lines _
leave-Returns false = Returns-line _

enter-Returns : (e : Bool) → Returns (if e then line "\tcopy $fp, $sp" else line "\tenter")
enter-Returns true = Returns-line _
enter-Returns false = Returns-line _

-- On a tree whose names, types and marked returns stand where they are read, and that has no node of
-- a kind without code, `codeGeneration` returns from every state, in both modes.
pub code_generation-Returns : (m : Mode) (n : Node) → Compilable n → Returns (code_generation m n)
unfolding code_generation declaration_code
code_generation-Returns m Node.invalid h = absurd h
code_generation-Returns m (Node.type_of t) h = absurd h
code_generation-Returns m Node.empty h = Returns-lines []
code_generation-Returns m (Node.compound a b) (ha, hb) =
    code_generation-Returns Mode.alone a ha
    andalso pass-Returns m
    andalso code_generation-Returns (compound_mode m) b hb
code_generation-Returns m (Node.return_of c none) h = absurd h
code_generation-Returns m (Node.return_of c (some e)) h =
    code_generation-Returns Mode.alone c h andalso leave-Returns e andalso pass-Returns m
code_generation-Returns m (Node.literal v) h = Returns-line _ andalso pass-Returns m
code_generation-Returns m (Node.function_definition k t args body e) (hk, hb) =
    Returns-named k hk
      (λ f. Returns-line _ andalso enter-Returns e andalso store_parameters-Returns f 4 args)
    andalso code_generation-Returns Mode.alone body hb
    andalso Returns-line _
    andalso Returns-clear_locals
    andalso pass-Returns m
code_generation-Returns m (Node.function_call k args) (hk, ha) =
    code_generation-Returns (Mode.argument 4) args ha
    andalso Returns-named k hk (λ f. Returns-line _)
    andalso pass-Returns m
code_generation-Returns m (Node.binary_operator op l r) (hl, hr) =
    binary_code-Returns op (code_generation-Returns Mode.alone l hl)
      (code_generation-Returns Mode.alone r hr)
    andalso pass-Returns m
code_generation-Returns m (Node.unary_operator UnaryOperator.address_of r) h =
    Returns-named r h (λ k. Returns-by_name k (λ i. Returns-line _) (Returns-line _))
    andalso pass-Returns m
code_generation-Returns m (Node.unary_operator op r) h =
    (code_generation-Returns Mode.alone r h andalso Returns-line _) andalso pass-Returns m
code_generation-Returns m (Node.variable_declaration k t) (hk, ht) =
    Returns-named k hk (λ name. space_code-Returns name t ht) andalso pass-Returns m
code_generation-Returns m (Node.identifier k) h = identifier_code-Returns k andalso pass-Returns m
code_generation-Returns m (Node.if_then_else c a b) (hc, ha, hb) =
    Returns-fresh (λ last. Returns-fresh (λ other.
      code_generation-Returns Mode.alone c hc
      andalso Returns-lines _
      andalso code_generation-Returns Mode.alone a ha
      andalso Returns-lines _
      andalso code_generation-Returns Mode.alone b hb
      andalso Returns-lines _))
    andalso pass-Returns m
code_generation-Returns m (Node.if_then c a) (hc, ha) =
    Returns-fresh (λ last.
      code_generation-Returns Mode.alone c hc
      andalso Returns-lines _
      andalso code_generation-Returns Mode.alone a ha
      andalso Returns-lines _)
    andalso pass-Returns m
code_generation-Returns m (Node.while_loop c b) (hc, hb) =
    Returns-fresh (λ top. Returns-fresh (λ bottom.
      Returns-lines _
      andalso code_generation-Returns Mode.alone b hb
      andalso Returns-lines _
      andalso code_generation-Returns Mode.alone c hc
      andalso Returns-lines _))
    andalso pass-Returns m
code_generation-Returns m (Node.do_while c b) (hc, hb) =
    Returns-fresh (λ top.
      Returns-lines _
      andalso code_generation-Returns Mode.alone b hb
      andalso code_generation-Returns Mode.alone c hc
      andalso Returns-lines _)
    andalso pass-Returns m
code_generation-Returns m (Node.for_loop i c n b) (hi, hc, hn, hb) =
    Returns-fresh (λ top. Returns-fresh (λ bottom. Returns-fresh (λ last.
      code_generation-Returns Mode.alone i hi
      andalso code_generation-Returns Mode.alone c hc
      andalso Returns-lines _
      andalso code_generation-Returns Mode.alone b hb
      andalso Returns-lines _
      andalso code_generation-Returns Mode.alone n hn
      andalso code_generation-Returns Mode.alone c hc
      andalso Returns-lines _)))
    andalso pass-Returns m
code_generation-Returns m (Node.string_literal s) h =
    Returns-fresh (λ here. Returns-lines _) andalso pass-Returns m
code_generation-Returns m (Node.asm s) h = Returns-line _ andalso pass-Returns m
