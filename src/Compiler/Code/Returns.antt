-- ===== src/Compiler/Code/Returns.antt =====
-- src/compiler_util.cpp, `codeGeneration`: its pieces, and whether they return.
use kasm.Base.{
  ℕ, ◌≡◌, refl, Bool, true, false, Option, none, some, List, [], ◌∷◌, ◌++◌, String, maybe,
  if◌then◌else◌, add32,
}
use kasm.Assembler.{lookup}
use kasm.Ast.{Node, identifier_of}
use kasm.Compiler.Line.{Line, text}
use kasm.Compiler.Code.{
  State, Generator, ◌then◌, lines, line, fresh, set_lval, set_local, clear_locals, by_name, by_lval,
  named,
}

-- From every state the generator returns lines and a state.
pub record Returns (g : Generator) : Type 0 where
  pub gives : (s : State) → (ls : List Line) × (s' : State) × (g s ≡ some (ls, s'))

infixr 6 ◌andalso◌
pub ◌andalso◌ : {g h : Generator} → Returns g → Returns h → Returns (g then h)
unfolding ◌then◌
◌andalso◌ {g} {h} hg hh = record {
  gives = λ s.
      let (ls, s1, p) = hg.gives s in
      let (ms, s2, q) = hh.gives s1 in (ls ++ ms, s2, rw (p, q) refl);
}

pub Returns-lines : (ls : List Line) → Returns (lines ls)
unfolding lines
Returns-lines ls = record { gives = λ s. (ls, s, refl) }

pub Returns-line : (t : String) → Returns (line t)
Returns-line t = Returns-lines (text t ∷ [])

pub Returns-fresh : {f : ℕ → Generator} → ((l : ℕ) → Returns (f l)) → Returns (fresh f)
unfolding fresh
Returns-fresh h = record { gives = λ s. (h s.uid).gives (record s { uid = add32 s.uid 1 }) }

pub Returns-set_lval : (b : Bool) → Returns (set_lval b)
unfolding set_lval
Returns-set_lval b = record { gives = λ s. ([], record s { lval = b }, refl) }

pub Returns-set_local : (k : String) (i : ℕ) → Returns (set_local k i)
unfolding set_local
Returns-set_local k i = record { gives = λ s. ([], _, refl) }

pub Returns-clear_locals : Returns clear_locals
unfolding clear_locals
Returns-clear_locals = record { gives = λ s. ([], record s { local_variables = [] }, refl) }

Returns-choice :
    (b : Bool) {g h : Generator}
    → Returns g
    → Returns h
    → (s : State) → (ls : List Line) × (s' : State) × ((if b then g s else h s) ≡ some (ls, s'))
Returns-choice true hg hh s = hg.gives s
Returns-choice false hg hh s = hh.gives s

pub Returns-by_lval : {g h : Generator} → Returns g → Returns h → Returns (by_lval g h)
unfolding by_lval
Returns-by_lval hg hh = record { gives = λ s. Returns-choice s.lval hg hh s }

Returns-found :
    (o : Option ℕ) {f : ℕ → Generator} {g : Generator}
    → ((i : ℕ) → Returns (f i))
    → Returns g
    → (s : State) → (ls : List Line) × (s' : State) × (maybe o (g s) (λ i. f i s) ≡ some (ls, s'))
Returns-found none hf hg s = hg.gives s
Returns-found (some i) hf hg s = (hf i).gives s

pub Returns-by_name :
    (k : String) {f : ℕ → Generator} {g : Generator}
    → ((i : ℕ) → Returns (f i))
    → Returns g
    → Returns (by_name k f g)
unfolding by_name
Returns-by_name k hf hg = record { gives = λ s. Returns-found (lookup k s.local_variables) hf hg s }

-- A node that is an identifier, or a type.
abbrev pub Named : Node → Type 0
Named (Node.identifier k) = Unit
Named _ = ⊥

abbrev pub Typed : Node → Type 0
Typed (Node.type_of t) = Unit
Typed _ = ⊥

pub Returns-named :
    (n : Node) {f : String → Generator}
    → Named n
    → ((k : String) → Returns (f k))
    → Returns (named (identifier_of n) f)
unfolding named
Returns-named (Node.identifier k) h hf = hf k
Returns-named _ h hf = absurd h
