-- ===== src/Compiler/Code/Labels.antt =====
-- src/compiler_util.cpp, `codeGeneration`: the labels of code without branches.
use kasm.Base.{
  ℕ, ◌+◌, ◌^◌, ◌<◌, ◌≡◌, refl, sym, ◌∙◌, if_both, Bool, true, false, Option, none, some, List, [],
  ◌∷◌, arith, ltb, ◌==◌, if◌then◌else◌, maybe, add32, String,
}
use mathlib.Core.Path.{subst}
use kasm.Assembler.{lookup}
use kasm.Ast.{BinaryOperator, UnaryOperator, ValueType, Node, identifier_of, value_type_of}
use kasm.Compiler.Line.{Line, text}
use kasm.Compiler.Code.{
  State, Generator, ◌then◌, lines, line, illegal, Mode, pass, by_lval, by_name, named, push_and_pop,
  binary_code, unary_code, identifier_code, declaration_code, space_code, store_parameters,
  set_lval, set_local, clear_locals, store_parameter,
}
use kasm.Compiler.Code.Count.{weigh, Done, Adds, Adds-lines, Adds-illegal, Adds-then, Adds-eq}

-- How many numbers the code of a node takes.
abbrev pub label_count : Node → ℕ
label_count (Node.compound a b) = label_count a + label_count b
label_count (Node.return_of c e) = label_count c
label_count (Node.function_definition k t args body e) = label_count body
label_count (Node.function_call k args) = label_count args
label_count (Node.binary_operator BinaryOperator.logical_or l r) = 0
label_count (Node.binary_operator op l r) = label_count l + label_count r
label_count (Node.unary_operator UnaryOperator.address_of r) = 0
label_count (Node.unary_operator op r) = label_count r
label_count (Node.if_then_else c a b) = 2 + (label_count c + (label_count a + label_count b))
label_count (Node.if_then c a) = 1 + (label_count c + label_count a)
label_count (Node.while_loop c b) = 2 + (label_count b + label_count c)
label_count (Node.do_while c b) = 1 + (label_count b + label_count c)
label_count (Node.for_loop i c n b) =
    3 + (label_count i + (label_count c + (label_count b + (label_count n + label_count c))))
label_count (Node.string_literal s) = 1
label_count _ = 0

-- A line that defines the label.
abbrev pub defines : Line → ℕ → ℕ
defines (Line.label m) n = if m == n then 1 else 0
defines _ n = 0

-- 1 for the `k` numbers from `u` on.
abbrev pub window : ℕ → ℕ → ℕ → ℕ
window u k n = if ltb n u then 0 else if ltb n (u + k) then 1 else 0

-- Each number that was taken is defined once, and no other.
abbrev pub Sound : ℕ → Generator → Type 0
Sound k g = Adds defines (λ u n. window u k n) k g

window-add : (u k j n : ℕ) → window u k n + window (u + k) j n ≡ window u (k + j) n
window-add u k j n = ground arith

window-zero : (u n : ℕ) → window u 0 n ≡ 0
window-zero u n = ground arith

pub Sound-then : {k j : ℕ} {g h : Generator} → Sound k g → Sound j h → Sound (k + j) (g then h)
Sound-then {k} {j} hg hh =
    Adds-eq defines (λ u n. window u (k + j) n) (λ u n. window-add u k j n)
      (Adds-then defines hg hh)

pub Sound-count : {k : ℕ} (j : ℕ) {g : Generator} → k ≡ j → Sound k g → Sound j g
Sound-count j {g} e h = subst (λ i. Sound i g) e h

-- Lines that define no label.
pub Sound-lines : (ls : List Line) → ((n : ℕ) → weigh defines ls n ≡ 0) → Sound 0 (lines ls)
Sound-lines ls e =
    Adds-eq defines (λ u n. window u 0 n) (λ u n. e n ∙ sym (window-zero u n))
      (Adds-lines defines ls)

pub Sound-line : (t : String) → Sound 0 (line t)
Sound-line t = Sound-lines (text t ∷ []) (λ n. refl)

Sound-set_lval : (b : Bool) → Sound 0 (set_lval b)
unfolding set_lval
Sound-set_lval b = record { done = λ s room. (omega arith, λ n. sym (window-zero s.uid n)) }

pub Sound-clear_locals : Sound 0 clear_locals
unfolding clear_locals
Sound-clear_locals = record { done = λ s room. (omega arith, λ n. sym (window-zero s.uid n)) }

Sound-set_local : (k : String) (i : ℕ) → Sound 0 (set_local k i)
unfolding set_local
Sound-set_local k i = record { done = λ s room. (omega arith, λ n. sym (window-zero s.uid n)) }

Sound-by_lval : {f g : Generator} → Sound 0 f → Sound 0 g → Sound 0 (by_lval f g)
unfolding by_lval
Sound-by_lval hf hg = record {
  done = λ s room.
      if_both (Done defines s.uid 0 (λ n. window s.uid 0 n)) s.lval (hf.done s room)
        (hg.done s room);
}

Sound-maybe :
    (o : Option ℕ) (f : ℕ → Generator) (g : Generator)
    → ((i : ℕ) → Sound 0 (f i))
    → Sound 0 g
    → (s : State) → s.uid + 0 < 2 ^ 32
    → Done defines s.uid 0 (λ n. window s.uid 0 n) (maybe o (g s) (λ i. f i s))
Sound-maybe none f g hf hg s room = hg.done s room
Sound-maybe (some i) f g hf hg s room = (hf i).done s room

Sound-by_name :
    (k : String) {f : ℕ → Generator} {g : Generator}
    → ((i : ℕ) → Sound 0 (f i))
    → Sound 0 g
    → Sound 0 (by_name k f g)
unfolding by_name
Sound-by_name k {f} {g} hf hg = record {
  done = λ s room. Sound-maybe (lookup k s.local_variables) f g hf hg s room;
}

pub Sound-illegal : {k : ℕ} → Sound k illegal
Sound-illegal {k} = Adds-illegal defines (λ u n. window u k n) k

pub Sound-named :
    (o : Option String) {f : String → Generator}
    → ((k : String) → Sound 0 (f k))
    → Sound 0 (named o f)
unfolding named
Sound-named none h = Sound-illegal
Sound-named (some k) h = h k

-- Before or after code that takes `k` numbers.
pub quiet-then : {k : ℕ} {g h : Generator} → Sound 0 g → Sound k h → Sound k (g then h)
quiet-then {k} hg hh = Sound-count k (omega arith) (Sound-then hg hh)

pub then-quiet : {k : ℕ} {g h : Generator} → Sound k g → Sound 0 h → Sound k (g then h)
then-quiet {k} hg hh = Sound-count k (omega arith) (Sound-then hg hh)

pub Sound-pass : (m : Mode) → Sound 0 (pass m)
unfolding pass
Sound-pass Mode.alone = Sound-lines [] (λ n. refl)
Sound-pass (Mode.argument r) = Sound-line _

Sound-store_parameter : (f : String) (i : ℕ) → Sound 0 (store_parameter f i)
unfolding store_parameter
Sound-store_parameter f i =
    quiet-then (Sound-set_local f i) (quiet-then (Sound-line _) (Sound-line _))

pub Sound-store_parameters : (f : String) (i : ℕ) (n : Node) → Sound 0 (store_parameters f i n)
unfolding store_parameters
Sound-store_parameters f i (Node.compound a b) =
    quiet-then (Sound-store_parameter f i) (Sound-store_parameters f (add32 i 4) b)
Sound-store_parameters f i (Node.variable_declaration k t) = Sound-store_parameter f i
Sound-store_parameters f i _ = Sound-lines [] (λ n. refl)

push_and_pop-Sound :
    {k j : ℕ} {l r : Generator} (ls : List Line)
    → ((n : ℕ) → weigh defines ls n ≡ 0)
    → Sound k l
    → Sound j r
    → Sound (k + j) (push_and_pop l r ls)
push_and_pop-Sound {k} {j} ls e hl hr = Sound-then hl (
    quiet-then (Sound-line _) (
      quiet-then (Sound-line _)
        (then-quiet hr (quiet-then (Sound-line _) (quiet-then (Sound-line _) (Sound-lines ls e))))))

-- The numbers that the code of an operator takes, from those of its operands.
pub binary_code-Sound :
    (op : BinaryOperator) (l r : Node) {gl gr : Generator}
    → Sound (label_count l) gl
    → Sound (label_count r) gr
    → Sound (label_count (Node.binary_operator op l r)) (binary_code op gl gr)
binary_code-Sound BinaryOperator.logical_or l r hl hr = Sound-lines [] (λ n. refl)
binary_code-Sound BinaryOperator.assignment l r hl hr =
    push_and_pop-Sound _ (λ n. refl)
      (quiet-then (Sound-set_lval true) (then-quiet hl (Sound-set_lval false))) hr
binary_code-Sound _ l r hl hr = push_and_pop-Sound _ (λ n. refl) hl hr

pub unary_code-Sound :
    (op : UnaryOperator) (r : Node) {g : Generator}
    → Sound (label_count r) g
    → Sound (label_count (Node.unary_operator op r)) (unary_code op r g)
unary_code-Sound UnaryOperator.address_of r h =
    Sound-named (identifier_of r) (λ k. Sound-by_name k (λ i. Sound-line _) (Sound-line _))
unary_code-Sound _ r h = then-quiet h (Sound-line _)

pub identifier_code-Sound : (k : String) → Sound 0 (identifier_code k)
unfolding identifier_code
identifier_code-Sound k =
    Sound-by_lval (Sound-by_name k (λ i. Sound-line _) (Sound-line _))
      (Sound-by_name k (λ i. Sound-line _) (Sound-lines _ (λ n. refl)))

space_code-Sound : (name : String) (t : Option ValueType) → Sound 0 (space_code name t)
unfolding space_code
space_code-Sound name none = Sound-illegal
space_code-Sound name (some t) =
    quiet-then (Sound-lines _ (λ n. refl))
      (Sound-by_lval (Sound-line _) (Sound-lines [] (λ n. refl)))

pub declaration_code-Sound : (k t : Node) → Sound 0 (declaration_code k t)
unfolding declaration_code
declaration_code-Sound k t =
    Sound-named (identifier_of k) (λ name. space_code-Sound name (value_type_of t))
