-- ===== src/Compiler/Code/Loops.antt =====
-- src/compiler_util.cpp, `codeGeneration`: the numbers of the labels of branches and loops.
use kasm.Base.{ℕ, ◌+◌, List, [], ◌∷◌, arith, if◌then◌else◌, String}
use kasm.Compiler.Line.{Line, label, to_label, text}
use kasm.Compiler.Code.{Generator, ◌then◌, lines, fresh}
use kasm.Compiler.Code.Count.{weigh, Adds, Adds-lines, Adds-then, Adds-fresh, Adds-eq}
use kasm.Compiler.Code.Labels.{defines, window, Sound, Sound-count}

mentions : (ls : List Line) → Adds defines (λ u n. weigh defines ls n) 0 (lines ls)
mentions ls = Adds-lines defines ls

pub if_then-Sound :
    {k j : ℕ} {c a : Generator}
    → Sound k c
    → Sound j a
    → Sound (1 + (k + j)) (
        fresh (λ last.
          c then lines (to_label "\tbeqz $t0, " last ∷ []) then a then lines (label last ∷ [])))
if_then-Sound {k} {j} hc ha = Sound-count (1 + (k + j)) (omega arith) (
    Adds-eq defines (λ u n. window u (1 + (k + (0 + (j + 0)))) n) (λ u n. ground arith)
      (Adds-fresh defines _ (λ last.
        Adds-then defines hc (Adds-then defines (mentions _) (Adds-then defines ha (mentions _))))))

pub if_then_else-Sound :
    {k j i : ℕ} {c a b : Generator}
    → Sound k c
    → Sound j a
    → Sound i b
    → Sound (2 + (k + (j + i))) (
        fresh (λ last. fresh (λ other.
          c
          then lines (to_label "\tbeqz $t0, " other ∷ [])
          then a
          then lines (to_label "\tb " last ∷ label other ∷ [])
          then b
          then lines (label last ∷ []))))
if_then_else-Sound {k} {j} {i} hc ha hb = Sound-count (2 + (k + (j + i))) (omega arith) (
    Adds-eq defines (λ u n. window u (1 + (1 + (k + (0 + (j + (0 + (i + 0))))))) n)
      (λ u n. ground arith)
      (Adds-fresh defines _ (λ last. Adds-fresh defines _ (λ other. Adds-then defines hc (
        Adds-then defines (mentions _) (
          Adds-then defines ha
            (Adds-then defines (mentions _) (Adds-then defines hb (mentions _)))))))))

pub while_loop-Sound :
    {k j : ℕ} {b c : Generator}
    → Sound k b
    → Sound j c
    → Sound (2 + (k + j)) (
        fresh (λ top. fresh (λ bottom.
          lines (to_label "\tb " bottom ∷ label top ∷ [])
          then b
          then lines (label bottom ∷ [])
          then c
          then lines (to_label "\tbne $t0, $zero, " top ∷ []))))
while_loop-Sound {k} {j} hb hc = Sound-count (2 + (k + j)) (omega arith) (
    Adds-eq defines (λ u n. window u (1 + (1 + (0 + (k + (0 + (j + 0)))))) n) (λ u n. ground arith)
      (Adds-fresh defines _ (λ top. Adds-fresh defines _ (λ bottom. Adds-then defines (mentions _) (
        Adds-then defines hb
          (Adds-then defines (mentions _) (Adds-then defines hc (mentions _))))))))

pub do_while-Sound :
    {k j : ℕ} {b c : Generator}
    → Sound k b
    → Sound j c
    → Sound (1 + (k + j)) (
        fresh (λ top.
          lines (label top ∷ []) then b then c then lines (to_label "\tbne $t0, $zero, " top ∷ [])))
do_while-Sound {k} {j} hb hc = Sound-count (1 + (k + j)) (omega arith) (
    Adds-eq defines (λ u n. window u (1 + (0 + (k + (j + 0)))) n) (λ u n. ground arith)
      (Adds-fresh defines _ (λ top.
        Adds-then defines (mentions _) (Adds-then defines hb (Adds-then defines hc (mentions _))))))

pub for_loop-Sound :
    {k j i l : ℕ} {a c n b : Generator}
    → Sound k a
    → Sound j c
    → Sound i n
    → Sound l b
    → Sound (3 + (k + (j + (l + (i + j))))) (
        fresh (λ top. fresh (λ bottom. fresh (λ last.
          a
          then c
          then lines (to_label "\tbeqz $t0, " last ∷ label top ∷ [])
          then b
          then lines (label bottom ∷ [])
          then n
          then c
          then lines (to_label "\tbne $t0, $zero, " top ∷ label last ∷ [])))))
for_loop-Sound {k} {j} {i} {l} ha hc hn hb =
    Sound-count (3 + (k + (j + (l + (i + j))))) (omega arith) (
      Adds-eq defines
        (λ u m. window u (1 + (1 + (1 + (k + (j + (0 + (l + (0 + (i + (j + 0)))))))))) m)
        (λ u m. ground arith)
        (Adds-fresh defines _ (λ top. Adds-fresh defines _ (λ bottom. Adds-fresh defines _ (λ last.
          Adds-then defines ha (
            Adds-then defines hc (
              Adds-then defines (mentions _) (
                Adds-then defines hb (
                  Adds-then defines (mentions _)
                    (Adds-then defines hn (Adds-then defines hc (mentions _))))))))))))

pub string_literal-Sound :
    (before after : String) (str : String)
    → Sound 1 (
        fresh (λ here.
          lines
            (text before ∷ label here ∷ text str ∷ text after ∷ to_label "\tla $t0, " here ∷ [])))
string_literal-Sound before after str =
    Adds-eq defines (λ u n. window u 1 n) (λ u n. ground arith)
      (Adds-fresh defines _ (λ here. mentions _))
