-- ===== src/Compiler/Code/Distinct.antt =====
-- src/compiler_util.cpp, `codeGeneration`: the numbered labels of the code of a tree.
use mathlib.Core.Path.{subst}
use kasm.Base.{
  ℕ, ◌+◌, ◌^◌, ◌<◌, ◌≤◌, ◌≡◌, refl, ap, ◌∙◌, arith, Bool, true, false, Option, none, some, List, [],
  ◌∷◌, maybe, if◌then◌else◌,
}
use kasm.Ast.{Node, identifier_of}
use kasm.Compiler.Line.{Line, text}
use kasm.Compiler.Line.Reads.{read_as, others_read_as, read_as-split}
use kasm.Compiler.Code.{State, ◌then◌, lines, line, illegal, code_generation, Mode, compound_mode}
use kasm.Compiler.Code.Count.{Done}
use kasm.Compiler.Code.Labels.{
  label_count, defines, window, Sound, Sound-then, Sound-lines, Sound-line, Sound-clear_locals,
  Sound-named, Sound-illegal, quiet-then, then-quiet, Sound-pass, Sound-store_parameters,
  binary_code-Sound, unary_code-Sound, identifier_code-Sound, declaration_code-Sound,
}
use kasm.Compiler.Code.Loops.{
  if_then-Sound, if_then_else-Sound, while_loop-Sound, do_while-Sound, for_loop-Sound,
  string_literal-Sound,
}

leave-Sound :
    (entry : Option Bool)
    → Sound 0 (
        maybe entry illegal (λ e.
          if e
          then lines (text "\tcopy $a0, $t0" ∷ text "\tli $v0, 0" ∷ text "\tsys" ∷ [])
          else line "\tret"))
leave-Sound none = Sound-illegal
leave-Sound (some true) = Sound-lines _ (λ n. refl)
leave-Sound (some false) = Sound-line _

enter-Sound : (entry : Bool) → Sound 0 (if entry then line "\tcopy $fp, $sp" else line "\tenter")
enter-Sound true = Sound-line _
enter-Sound false = Sound-line _

code_generation-Sound : (m : Mode) (n : Node) → Sound (label_count n) (code_generation m n)
unfolding code_generation
code_generation-Sound m Node.invalid = Sound-illegal
code_generation-Sound m Node.empty = Sound-lines [] (λ n. refl)
code_generation-Sound m (Node.compound a b) =
    Sound-then (code_generation-Sound Mode.alone a)
      (quiet-then (Sound-pass m) (code_generation-Sound (compound_mode m) b))
code_generation-Sound m (Node.return_of c e) =
    then-quiet (code_generation-Sound Mode.alone c) (quiet-then (leave-Sound e) (Sound-pass m))
code_generation-Sound m (Node.literal v) = quiet-then (Sound-line _) (Sound-pass m)
code_generation-Sound m (Node.function_definition k t args body e) =
    quiet-then
      (Sound-named (identifier_of k) (λ f.
        quiet-then (Sound-line _) (quiet-then (enter-Sound e) (Sound-store_parameters f 4 args))))
      (then-quiet (code_generation-Sound Mode.alone body)
        (quiet-then (Sound-line _) (quiet-then Sound-clear_locals (Sound-pass m))))
code_generation-Sound m (Node.function_call k args) =
    then-quiet (code_generation-Sound (Mode.argument 4) args)
      (quiet-then (Sound-named (identifier_of k) (λ f. Sound-line _)) (Sound-pass m))
code_generation-Sound m (Node.binary_operator op l r) =
    then-quiet
      (binary_code-Sound op l r (code_generation-Sound Mode.alone l)
        (code_generation-Sound Mode.alone r))
      (Sound-pass m)
code_generation-Sound m (Node.unary_operator op r) =
    then-quiet (unary_code-Sound op r (code_generation-Sound Mode.alone r)) (Sound-pass m)
code_generation-Sound m (Node.variable_declaration k t) =
    then-quiet (declaration_code-Sound k t) (Sound-pass m)
code_generation-Sound m (Node.identifier k) = then-quiet (identifier_code-Sound k) (Sound-pass m)
code_generation-Sound m (Node.type_of t) = Sound-illegal
code_generation-Sound m (Node.if_then_else c a b) =
    then-quiet
      (if_then_else-Sound (code_generation-Sound Mode.alone c) (code_generation-Sound Mode.alone a)
        (code_generation-Sound Mode.alone b))
      (Sound-pass m)
code_generation-Sound m (Node.if_then c a) =
    then-quiet
      (if_then-Sound (code_generation-Sound Mode.alone c) (code_generation-Sound Mode.alone a))
      (Sound-pass m)
code_generation-Sound m (Node.while_loop c b) =
    then-quiet
      (while_loop-Sound (code_generation-Sound Mode.alone b) (code_generation-Sound Mode.alone c))
      (Sound-pass m)
code_generation-Sound m (Node.do_while c b) =
    then-quiet
      (do_while-Sound (code_generation-Sound Mode.alone b) (code_generation-Sound Mode.alone c))
      (Sound-pass m)
code_generation-Sound m (Node.for_loop i c n b) =
    then-quiet
      (for_loop-Sound (code_generation-Sound Mode.alone i) (code_generation-Sound Mode.alone c)
        (code_generation-Sound Mode.alone n) (code_generation-Sound Mode.alone b))
      (Sound-pass m)
code_generation-Sound m (Node.string_literal s) =
    then-quiet (string_literal-Sound _ _ _) (Sound-pass m)
code_generation-Sound m (Node.asm s) = quiet-then (Sound-line _) (Sound-pass m)

window-beyond : (u k n : ℕ) → u + k < 2 ^ 32 → 2 ^ 32 ≤ n → window u k n ≡ 0
window-beyond u k n room h = ground arith

-- The code of a tree that is generated from the number `uid`, where the numbers do not run past 32
-- bits: `uid` has grown by the number of labels that the tree takes, and for each 32-bit number, the
-- lines of the file that read as its label are one line if the number is between the two, and else
-- none, besides the lines that are not written as a numbered label and read so too, such as the name
-- of a function `_0`.
pub code_generation-distinct :
    (n : Node) (s s' : State) (ls : List Line)
    → s.uid + label_count n < 2 ^ 32
    → code_generation Mode.alone n s ≡ some (ls, s')
    → (s'.uid ≡ s.uid + label_count n)
      × ((l : ℕ) → l < 2 ^ 32 → read_as l ls ≡ window s.uid (label_count n) l + others_read_as l ls)
code_generation-distinct n s s' ls room e =
    let (last, counted) =
      subst (λ o. Done defines s.uid (label_count n) (λ l. window s.uid (label_count n) l) o) e
        ((code_generation-Sound Mode.alone n).done s room) in
    (
      last,
      λ l h.
          read_as-split ls l h
            (λ k beyond. counted k ∙ window-beyond s.uid (label_count n) k room beyond)
          ∙ ap (λ c. c + others_read_as l ls) (counted l),
    )
