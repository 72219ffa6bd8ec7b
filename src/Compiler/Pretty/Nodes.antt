-- ===== src/Compiler/Pretty/Nodes.antt =====
-- src/compiler_util.cpp, `prettyPrint`: when it throws, and how many lines it prints.
use mathlib.Core.Path.{subst}
use kasm.Base.{
  ℕ, suc, ◌+◌, ◌≡◌, refl, sym, ap, Bool, true, false, ◌&&◌, ◌++◌, String, if◌then◌else◌, length,
  length-append, arith,
}
use kasm.Ast.{Node}
use kasm.Compiler.Pretty.{Printed, ◌next◌, put_line, pretty_print}

-- How many nodes a tree has, those of names and types included where they are printed.
unfoldable pub size : Node → ℕ
size (Node.compound a b) = 1 + (size a + size b)
size (Node.return_of c entry) = 1 + size c
size (Node.function_definition k t args body entry) =
    1 + (size k + (size t + (size args + size body)))
size (Node.function_call k args) = 1 + (size k + size args)
size (Node.binary_operator op l r) = 1 + (size l + size r)
size (Node.unary_operator op r) = 1 + size r
size (Node.variable_declaration k t) = 1 + (size k + size t)
size (Node.if_then_else c a b) = 1 + (size c + (size a + size b))
size (Node.if_then c a) = 1 + (size c + size a)
size (Node.while_loop c b) = 1 + (size c + size b)
size (Node.do_while c b) = 1 + (size c + size b)
size (Node.for_loop i c s b) = 1 + (size i + (size c + (size s + size b)))
size _ = 1

-- No node has the type INVALID.
unfoldable pub all_typed : Node → Bool
all_typed Node.invalid = false
all_typed (Node.compound a b) = all_typed a && all_typed b
all_typed (Node.return_of c entry) = all_typed c
all_typed (Node.function_definition k t args body entry) =
    all_typed k && (all_typed t && (all_typed args && all_typed body))
all_typed (Node.function_call k args) = all_typed k && all_typed args
all_typed (Node.binary_operator op l r) = all_typed l && all_typed r
all_typed (Node.unary_operator op r) = all_typed r
all_typed (Node.variable_declaration k t) = all_typed k && all_typed t
all_typed (Node.if_then_else c a b) = all_typed c && (all_typed a && all_typed b)
all_typed (Node.if_then c a) = all_typed c && all_typed a
all_typed (Node.while_loop c b) = all_typed c && all_typed b
all_typed (Node.do_while c b) = all_typed c && all_typed b
all_typed (Node.for_loop i c s b) = all_typed i && (all_typed c && (all_typed s && all_typed b))
all_typed _ = true

-- The function returned exactly if `b`, and then it printed `n` lines.
pub record Prints (b : Bool) (n : ℕ) (p : Printed) : Type 0 where
  pub returned_if : p.returned ≡ b
  pub line_count : b ≡ true → length p.lines ≡ n

put_line-Prints : (n : ℕ) (s : String) → Prints true 1 (put_line n s)
unfolding put_line
put_line-Prints n s = record { returned_if = refl; line_count = λ _. refl }

both-Prints :
    (b c : Bool) (m n : ℕ) (p q : Printed)
    → Prints b m p
    → Prints c n q
    → Prints (b && c) (m + n) (p next q)
unfolding ◌next◌
both-Prints true c m n p q h k =
    subst (Prints c (m + n))
      (ap (λ r. if r then record { lines = p.lines ++ q.lines; returned = q.returned } else p)
        (sym h.returned_if))
      (record {
        returned_if = k.returned_if;
        line_count =
            λ e. omega (arith, length-append p.lines q.lines, h.line_count refl, k.line_count e);
      })
both-Prints false c m n p q h k =
    subst (Prints false (m + n))
      (ap (λ r. if r then record { lines = p.lines ++ q.lines; returned = q.returned } else p)
        (sym h.returned_if))
      (record { returned_if = h.returned_if; line_count = λ e. cc })

infixr 6 ◌along◌
◌along◌ :
    {b c : Bool} {m n : ℕ} {p q : Printed}
    → Prints b m p
    → Prints c n q
    → Prints (b && c) (m + n) (p next q)
h along k = both-Prints _ _ _ _ _ _ h k

-- `prettyPrint` returns exactly on the trees that have no node of the type INVALID, and then it prints a
-- line for every node, at every level.
pub pretty_print-Prints : (n : ℕ) (t : Node) → Prints (all_typed t) (size t) (pretty_print n t)
unfolding all_typed size pretty_print
pretty_print-Prints n Node.invalid = record { returned_if = refl; line_count = λ e. cc }
pretty_print-Prints n (Node.compound a b) =
    put_line-Prints n _ along pretty_print-Prints (suc n) a along pretty_print-Prints (suc n) b
pretty_print-Prints n (Node.return_of c entry) =
    put_line-Prints n _ along pretty_print-Prints (suc n) c
pretty_print-Prints n (Node.function_definition k t args body entry) =
    put_line-Prints n _
    along pretty_print-Prints (suc n) k
    along pretty_print-Prints (suc n) t
    along pretty_print-Prints (suc n) args
    along pretty_print-Prints (suc n) body
pretty_print-Prints n (Node.function_call k args) =
    put_line-Prints n _ along pretty_print-Prints (suc n) k along pretty_print-Prints (suc n) args
pretty_print-Prints n (Node.binary_operator op l r) =
    put_line-Prints n _ along pretty_print-Prints (suc n) l along pretty_print-Prints (suc n) r
pretty_print-Prints n (Node.unary_operator op r) =
    put_line-Prints n _ along pretty_print-Prints (suc n) r
pretty_print-Prints n (Node.variable_declaration k t) =
    put_line-Prints n _ along pretty_print-Prints (suc n) k along pretty_print-Prints (suc n) t
pretty_print-Prints n (Node.if_then_else c a b) =
    put_line-Prints n _
    along pretty_print-Prints (suc n) c
    along pretty_print-Prints (suc n) a
    along pretty_print-Prints (suc n) b
pretty_print-Prints n (Node.if_then c a) =
    put_line-Prints n _ along pretty_print-Prints (suc n) c along pretty_print-Prints (suc n) a
pretty_print-Prints n (Node.while_loop c b) =
    put_line-Prints n _ along pretty_print-Prints (suc n) c along pretty_print-Prints (suc n) b
pretty_print-Prints n (Node.do_while c b) =
    put_line-Prints n _ along pretty_print-Prints (suc n) c along pretty_print-Prints (suc n) b
pretty_print-Prints n (Node.for_loop i c s b) =
    put_line-Prints n _
    along pretty_print-Prints (suc n) i
    along pretty_print-Prints (suc n) c
    along pretty_print-Prints (suc n) s
    along pretty_print-Prints (suc n) b
pretty_print-Prints n _ = put_line-Prints n _
