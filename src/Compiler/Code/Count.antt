-- ===== src/Compiler/Code/Count.antt =====
-- src/compiler_util.cpp, `codeGeneration`: counting lines that mention a numbered label, piece by
-- piece.
use kasm.Base.{
  ℕ, ◌+◌, ◌^◌, ◌<◌, ◌≡◌, refl, ◌∙◌, Option, none, some, List, [], ◌∷◌, ◌++◌, arith, if◌then◌else◌,
  add32,
}
use mathlib.Core.Path.{subst}
use kasm.Compiler.Line.{Line}
use kasm.Compiler.Code.{State, Generator, and_then, add_lines, ◌then◌, lines, fresh, illegal}

-- How often the lines mention a label, where `w` says it of one line.
abbrev pub weigh : (Line → ℕ → ℕ) → List Line → ℕ → ℕ
weigh w [] n = 0
weigh w (x ∷ ls) n = w x n + weigh w ls n

module _ (w : Line → ℕ → ℕ) where
  weigh-append : (ls ms : List Line) (n : ℕ) → weigh w (ls ++ ms) n ≡ weigh w ls n + weigh w ms n
  weigh-append [] ms n = omega arith
  weigh-append (x ∷ ls) ms n = omega (arith, weigh-append ls ms n)

  -- What a generator that started at the number `u` has done: it took `k` numbers, and its lines
  -- mention the label `n` as often as `c n` says.
  abbrev pub Done : ℕ → ℕ → (ℕ → ℕ) → Option (List Line × State) → Type 0
  Done u k c none = Unit
  Done u k c (some (ls, s)) = (s.uid ≡ u + k) × ((n : ℕ) → weigh w ls n ≡ c n)

  -- From any number that leaves room for `k` more.
  pub record Adds (c : ℕ → ℕ → ℕ) (k : ℕ) (g : Generator) : Type 0 where
    pub done : (s : State) → s.uid + k < 2 ^ 32 → Done s.uid k (c s.uid) (g s)

  pub Adds-lines : (ls : List Line) → Adds (λ u n. weigh w ls n) 0 (lines ls)
  unfolding lines
  Adds-lines ls = record { done = λ s h. (omega arith, λ n. refl) }

  pub Adds-illegal : (c : ℕ → ℕ → ℕ) (k : ℕ) → Adds c k illegal
  unfolding illegal
  Adds-illegal c k = record { done = λ s h. tt }

  Done-add_lines :
      (u k j : ℕ) (c d : ℕ → ℕ) (ls : List Line) (o : Option (List Line × State))
      → ((n : ℕ) → weigh w ls n ≡ c n)
      → Done (u + k) j d o
      → Done u (k + j) (λ n. c n + d n) (add_lines ls o)
  Done-add_lines u k j c d ls none hc hd = tt
  Done-add_lines u k j c d ls (some (ms, s)) hc hd =
      (omega (arith, hd.0), λ n. omega (arith, weigh-append ls ms n, hc n, hd.1 n))

  Done-and_then :
      (u k j : ℕ) (c : ℕ → ℕ) (d : ℕ → ℕ → ℕ) (o : Option (List Line × State)) (h : Generator)
      → u + (k + j) < 2 ^ 32
      → Done u k c o
      → Adds d j h
      → Done u (k + j) (λ n. c n + d (u + k) n) (and_then o h)
  Done-and_then u k j c d none h room hc hd = tt
  Done-and_then u k j c d (some (ls, s)) h room hc hd =
      Done-add_lines u k j c (d (u + k)) ls (h s) hc.1
        (subst (λ v. Done v j (d v) (h s)) hc.0 (hd.done s (omega (arith, hc.0, room))))

  pub Adds-then :
      {c d : ℕ → ℕ → ℕ} {k j : ℕ} {g h : Generator}
      → Adds c k g
      → Adds d j h
      → Adds (λ u n. c u n + d (u + k) n) (k + j) (g then h)
  unfolding ◌then◌
  Adds-then {c} {d} {k} {j} {g} {h} hg hh = record {
    done = λ s room.
        Done-and_then s.uid k j (c s.uid) d (g s) h room (hg.done s (omega (arith, room))) hh;
  }

  Done-shift :
      (u k : ℕ) (c : ℕ → ℕ) (o : Option (List Line × State))
      → Done (u + 1) k c o
      → Done u (1 + k) c o
  Done-shift u k c none h = tt
  Done-shift u k c (some (ls, s)) h = (omega (arith, h.0), h.1)

  fresh-Done :
      (c : ℕ → ℕ → ℕ → ℕ) (k : ℕ) (f : ℕ → Generator)
      → ((l : ℕ) → Adds (c l) k (f l))
      → (s : State) → s.uid + (1 + k) < 2 ^ 32
      → Done s.uid (1 + k) (c s.uid (s.uid + 1)) (f s.uid (record s { uid = add32 s.uid 1 }))
  unfolding add32
  fresh-Done c k f hf s room =
      let s' = record s { uid = add32 s.uid 1 } in
      let next : add32 s.uid 1 ≡ s.uid + 1 = omega (arith, room) in
      let here = (hf s.uid).done s' (omega (arith, room, next)) in
      Done-shift s.uid k (c s.uid (s.uid + 1)) (f s.uid s')
        (subst (λ v. Done v k (c s.uid v) (f s.uid s')) next here)

  Done-eq :
      (u k : ℕ) (c d : ℕ → ℕ) (o : Option (List Line × State))
      → ((n : ℕ) → c n ≡ d n)
      → Done u k c o
      → Done u k d o
  Done-eq u k c d none e h = tt
  Done-eq u k c d (some (ls, s)) e h = (h.0, λ n. h.1 n ∙ e n)

  pub Adds-fresh :
      (c : ℕ → ℕ → ℕ → ℕ) {k : ℕ} {f : ℕ → Generator}
      → ((l : ℕ) → Adds (c l) k (f l))
      → Adds (λ u n. c u (u + 1) n) (1 + k) (fresh f)
  unfolding fresh
  Adds-fresh c {k} {f} hf = record { done = λ s room. fresh-Done c k f hf s room }

  pub Adds-eq :
      {c : ℕ → ℕ → ℕ} (d : ℕ → ℕ → ℕ) {k : ℕ} {g : Generator}
      → ((u n : ℕ) → c u n ≡ d u n)
      → Adds c k g
      → Adds d k g
  Adds-eq {c} d {k} {g} e h = record {
    done = λ s room. Done-eq s.uid k (c s.uid) (d s.uid) (g s) (e s.uid) (h.done s room);
  }
