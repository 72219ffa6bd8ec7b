-- ===== src/CompoundInput/Skipping.antt =====
-- src/compoundInputFileStream.cpp, `eof`: the loop keeps the text that is left.
use mathlib.Core.Path.{subst}
use kasm.Base.{
  ◌⊎◌, ℕ, ◌≤◌, ◌≡◌, refl, sym, ap, ◌∙◌, Bool, true, false, not, ◌&&◌, ◌||◌, Option, none, some,
  List, [], ◌∷◌, ◌++◌, ◌==◌, maybe, arith, inl, inr,
}
use kasm.CompoundInput.{
  FileEntry, CompoundInputFileStream, is_stub, ended, call_back, stand, enter, stub, with_uid,
  at_entry, at_end, skip_ended,
}
use kasm.CompoundInput.Remaining.{
  On, Reached, at_byte, at_stub, contents, left_from, left_in-over, left_in-stub, past_end,
}

gives_stub : (a b c : Bool) → (not a && not b && c) ≡ true → (c ≡ true) × (a ≡ false) × (b ≡ false)
gives_stub false false c h = (h, refl, refl)
gives_stub true b c h = cc
gives_stub false true c h = cc

pub no_stub : (a b : Bool) → (a || b) ≡ false → (a ≡ false) × (b ≡ false)
no_stub false b h = (refl, h)
no_stub true b h = cc

-- To split on what decides, with the equation.
pub split_on {ℓ κ} :
    {A : Type ℓ} (Q : A → Type κ) (b : Bool) {x y : A}
    → (b ≡ false → Q x)
    → (b ≡ true → Q y)
    → Q (elim b [ false ↦ x | true ↦ y ])
split_on Q false f g = f refl
split_on Q true f g = g refl

pub either_way {ℓ κ μ} :
    {A : Type ℓ} {B : Type κ} (Q : B → Type μ) (o : Option A) (x y : B)
    → Q x
    → Q y
    → Q (maybe o x (λ _. y))
either_way Q none x y hx hy = hx
either_way Q (some a) x y hx hy = hy

module _ (Q : Bool × CompoundInputFileStream → Type 0) (give : Bool) (before : List FileEntry)
    (e : FileEntry) (rest : List FileEntry)
    (next : CompoundInputFileStream → Bool × CompoundInputFileStream)
    (s : CompoundInputFileStream) where
  -- The three ways of the loop of `eof` at an entry.
  pub at_entry-split :
      ((is_stub e || ended e s.position) ≡ false → Q (false, stand before (e ∷ rest) s))
      → (give ≡ true
          → is_stub e ≡ false
          → (is_stub e || ended e s.position) ≡ true
          → Q (false, stand (with_uid 0 e ∷ before) (stub e.uid ∷ rest) s))
      → ((is_stub e || ended e s.position) ≡ true
          → (not (is_stub e) && not (e.uid == 0) && give) ≡ false
          → Q (next (call_back e s)))
      → Q (at_entry give before e rest next s)
  unfolding at_entry
  at_entry-split stays gives goes = split_on Q (is_stub e || ended e s.position) stays (λ over.
      split_on Q (not (is_stub e) && not (e.uid == 0) && give) (λ c. goes over c)
        (λ h. let (g, st, _) = gives_stub _ _ _ h in gives g st over))

-- An entry that has its stream, or is a stub.
abbrev pub Lookable : FileEntry → CompoundInputFileStream → Type 0
Lookable e s = (is_stub e ≡ true) ⊎ On e s

not_stub : (e : FileEntry) (s : CompoundInputFileStream) → is_stub e ≡ false → Lookable e s → On e s
not_stub e s h (inl b) = cc
not_stub e s h (inr o) = o

some_text : (f : Option (List ℕ)) → maybe f true (λ _. false) ≡ false → (t : List ℕ) × (f ≡ some t)
some_text none h = cc
some_text (some t) h = (t, refl)

no_text : (f : Option (List ℕ)) → maybe f true (λ _. false) ≡ true → f ≡ none
no_text none h = refl
no_text (some t) h = cc

pub enter-On :
    (e : FileEntry) (p : ℕ) (s : CompoundInputFileStream)
    → is_stub e ≡ false
    → e.offset ≤ p
    → On e (enter e p s)
unfolding enter
enter-On e p s h le =
    let (t, has) = some_text e.file h in
    record { text = t; has_text = has; in_text = has; placed = le }

-- The text at an entry that is over is that of the entries after it.
left_from-over :
    (e : FileEntry) (rest : List FileEntry) (p : ℕ)
    → (is_stub e || ended e p) ≡ true
    → left_from (e ∷ rest) p ≡ contents rest
unfolding left_from
left_from-over e rest p h = ap (λ x. x ++ contents rest) (left_in-over e p h)

left_from-stub :
    (e : FileEntry) (rest : List FileEntry) (p : ℕ)
    → is_stub e ≡ true
    → left_from (e ∷ rest) p ≡ contents (e ∷ rest)
unfolding left_from contents
left_from-stub e rest p h =
    ap (λ x. x ++ contents rest) (left_in-stub e p h ∙ sym (left_in-stub e e.offset h))

pub Reached-same :
    {give : Bool} {r r' : List ℕ} {x : Bool × CompoundInputFileStream}
    → r ≡ r'
    → Reached give r x
    → Reached give r' x
Reached-same {give} {x = x} h reached = subst (λ l. Reached give l x) h reached

module _ (give : Bool) (before : List FileEntry) (e : FileEntry) (rest : List FileEntry)
    (s : CompoundInputFileStream) where
  stays-Reached :
      Lookable e s
      → (is_stub e || ended e s.position) ≡ false
      → Reached give (left_from (e ∷ rest) s.position) (false, stand before (e ∷ rest) s)
  unfolding stand
  stays-Reached look h =
      let (st, inside) = no_stub _ _ h in
      let on = not_stub e s st look in
      at_byte refl
        (record {
          text = on.text;
          has_text = on.has_text;
          in_text = on.in_text;
          placed = on.placed;
        })
        inside refl

  gives-Reached :
      give ≡ true
      → (is_stub e || ended e s.position) ≡ true
      → Reached give
          (left_from (e ∷ rest) s.position)
          (false, stand (with_uid 0 e ∷ before) (stub e.uid ∷ rest) s)
  unfolding stand
  gives-Reached g h = at_stub g refl refl (sym (left_from-over e rest s.position h))

contents-entered :
    (e : FileEntry) (rest : List FileEntry) → left_from (e ∷ rest) e.offset ≡ contents (e ∷ rest)
unfolding left_from contents
contents-entered e rest = refl

pub contents-stub :
    (e : FileEntry) (rest : List FileEntry) → is_stub e ≡ true → contents (e ∷ rest) ≡ contents rest
unfolding contents
contents-stub e rest h = ap (λ x. x ++ contents rest) (left_in-stub e e.offset h)

-- The loop of `eof`, from an entry that is a stub or has its stream, ends at the end of all entries
-- with no text left, at a byte, or at a stub if it gives stubs, and keeps the text that is left.
pub skip_ended-Reached :
    (give : Bool) (before : List FileEntry) (e : FileEntry) (rest : List FileEntry)
    (s : CompoundInputFileStream)
    → Lookable e s
    → Reached give (left_from (e ∷ rest) s.position) (skip_ended give before e rest s)
unfolding skip_ended stand at_end enter contents
skip_ended-Reached give before e [] s look =
    at_entry-split (λ x. Reached give (left_from (e ∷ []) s.position) x) give before e [] _ s
      (stays-Reached give before e [] s look) (λ g _ h. gives-Reached give before e [] s g h)
      (λ h _. past_end (left_from-over e [] s.position h) refl refl)
skip_ended-Reached give before e (e' ∷ rest) s look =
    at_entry-split (λ x. Reached give (left_from (e ∷ e' ∷ rest) s.position) x) give before e
      (e' ∷ rest) _ s (stays-Reached give before e (e' ∷ rest) s look)
      (λ g _ h. gives-Reached give before e (e' ∷ rest) s g h)
      (λ h _. Reached-same (sym (left_from-over e (e' ∷ rest) s.position h)) (
        split_on (λ x. Reached give (contents (e' ∷ rest)) x) (is_stub e')
          (λ st.
            let s' = enter e' e'.offset (call_back e s) in
            Reached-same (contents-entered e' rest) (
              skip_ended-Reached give (e ∷ before) e' rest s'
                (inr (enter-On e' e'.offset (call_back e s) st (omega arith)))))
          (λ st.
            split_on (λ x. Reached give (contents (e' ∷ rest)) x) give
              (λ _.
                Reached-same (left_from-stub e' rest (call_back e s).position st)
                  (skip_ended-Reached give (e ∷ before) e' rest (call_back e s) (inl st)))
              (λ g. at_stub g refl (no_text e'.file st) (sym (contents-stub e' rest st))))))
