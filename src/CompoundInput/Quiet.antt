-- ===== src/CompoundInput/Quiet.antt =====
-- src/compoundInputFileStream.cpp, `pushEntry`: an insertion calls no callback.
use mathlib.Core.Path.{subst}
use kasm.Base.{
  ℕ, ◌≡◌, refl, sym, ap, ◌∙◌, Bool, true, false, not, ◌&&◌, ◌||◌, List, [], ◌∷◌, ◌++◌, ◌==◌,
  if◌then◌else◌, if_both, length, maybe, arith, add32,
}
use kasm.CompoundInput.Entry.{SamePlace-Settled, count_uid-SamePlace}
use kasm.CompoundInput.{
  onto, ◌>>=◌, FileEntry, CompoundInputFileStream, is_stub, call_back, enter, stand, at_end,
  skip_ended, eof, Error, Result, ok, err, entries,
}
use kasm.CompoundInput.Push.{
  push_on, push_by, count_uid, push_first, push_before, push_inside, push_entry, move_all,
}
use kasm.CompoundInput.Skipping.{at_entry-split, split_on}
use kasm.CompoundInput.Reading.{Settled, closed, on_entry, eof-closed, eof-entry}
use kasm.CompoundInput.Callbacks.{mark, pending}

-- No number is called, and the same numbers are pending.
pub record Quiet (c : List ℕ) (p : List ℕ) (s : CompoundInputFileStream) : Type 0 where
  pub calls_same : s.calls ≡ c
  pub pending_same : pending s.after ≡ p

abbrev IsQuiet : List ℕ → List ℕ → Bool × CompoundInputFileStream → Type 0
IsQuiet c p x = Quiet c p x.1

Quiet-same :
    {c c' p p' : List ℕ} {s : CompoundInputFileStream}
    → c ≡ c'
    → p ≡ p'
    → Quiet c p s
    → Quiet c' p' s
Quiet-same a b q = record { calls_same = q.calls_same ∙ a; pending_same = q.pending_same ∙ b }

no_number : (a b : Bool) → a ≡ false → (not a && not b && true) ≡ false → b ≡ true
no_number false true ha h = refl
no_number false false ha h = cc
no_number true b ha h = cc

module _ (e : FileEntry) (s : CompoundInputFileStream) (h : (e.uid == 0) ≡ true) where
  call_back-silent : (call_back e s).calls ≡ s.calls
  unfolding call_back
  call_back-silent = ground arith

  pending-silent : (rest : List FileEntry) → pending rest ≡ pending (e ∷ rest)
  unfolding pending
  pending-silent rest = ap (λ b. (if b then [] else e.uid ∷ []) ++ pending rest) (sym h)

skip_ended-Quiet :
    (before : List FileEntry) (e : FileEntry) (rest : List FileEntry) (s : CompoundInputFileStream)
    → is_stub e ≡ false
    → Quiet s.calls (pending (e ∷ rest)) (skip_ended true before e rest s).1
unfolding skip_ended stand at_end enter pending
skip_ended-Quiet before e [] s st =
    at_entry-split (IsQuiet s.calls (pending (e ∷ []))) true before e [] _ s
      (λ _. record { calls_same = refl; pending_same = refl })
      (λ _ _ _. record { calls_same = refl; pending_same = refl })
      (λ _ c.
        let z = no_number (is_stub e) (e.uid == 0) st c in
        record { calls_same = call_back-silent e s z; pending_same = pending-silent e s z [] })
skip_ended-Quiet before e (e' ∷ rest) s st =
    at_entry-split (IsQuiet s.calls (pending (e ∷ e' ∷ rest))) true before e (e' ∷ rest) _ s
      (λ _. record { calls_same = refl; pending_same = refl })
      (λ _ _ _. record { calls_same = refl; pending_same = refl })
      (λ _ c.
        let z = no_number (is_stub e) (e.uid == 0) st c in
        let same_calls = call_back-silent e s z in
        let same_pending = pending-silent e s z (e' ∷ rest) in
        split_on (IsQuiet s.calls (pending (e ∷ e' ∷ rest))) (is_stub e')
          (λ st'.
            Quiet-same same_calls same_pending
              (skip_ended-Quiet (e ∷ before) e' rest (enter e' e'.offset (call_back e s)) st'))
          (λ _. record { calls_same = same_calls; pending_same = same_pending }))

skip_from-Quiet :
    (s : CompoundInputFileStream) → Settled s → Quiet s.calls (pending s.after) (eof true s).1
skip_from-Quiet s (closed c a) =
    subst (λ x. Quiet s.calls (pending s.after) x.1) (sym (eof-closed true s c))
      (record { calls_same = refl; pending_same = refl })
skip_from-Quiet s (on_entry {e} {rest} here on) =
    subst (λ x. Quiet s.calls (pending s.after) x.1) (sym (eof-entry true s on here))
      (Quiet-same refl (ap pending (sym here))
        (skip_ended-Quiet s.before e rest s (ap (λ f. maybe f true (λ _. false)) on.has_text)))

move_all-pending : (n : ℕ) (es : List FileEntry) → pending (move_all n es) ≡ pending es
unfolding pending
move_all-pending n [] = refl
move_all-pending n (e ∷ es) = ap (λ l. mark e.uid ++ l) (move_all-pending n es)

-- Where a push goes through, its number is before the others.
abbrev QuietPush : List ℕ → List ℕ → Result CompoundInputFileStream → Type 0
QuietPush c p (ok s) = Quiet c p s
QuietPush c p (err e) = Unit

push_on-Quiet :
    (t : List ℕ) (u : ℕ) (b : Bool) (es : List FileEntry) (s : CompoundInputFileStream)
    → QuietPush s.calls (mark u ++ pending es) (push_on t u b es s)
unfolding push_on push_before push_inside enter stand pending
push_on-Quiet t u b [] s = tt
push_on-Quiet t u b (e ∷ rest) s =
    if_both (QuietPush s.calls (mark u ++ (mark e.uid ++ pending rest))) (b || is_stub e)
      (record { calls_same = refl; pending_same = refl })
      (record {
        calls_same = refl;
        pending_same = ap (λ l. mark u ++ (mark e.uid ++ l)) (move_all-pending (length t) rest);
      })

cons-ne-nil : {x : FileEntry} {xs : List FileEntry} → (x ∷ xs) ≡ [] → ⊥
cons-ne-nil h = cc

onto-empty : (xs ys : List FileEntry) → onto xs ys ≡ [] → ys ≡ []
onto-empty [] ys h = h
onto-empty (x ∷ xs) ys h = absurd (cons-ne-nil (onto-empty xs (x ∷ ys) h))

push_by-Quiet :
    (es : List FileEntry) (t : List ℕ) (u : ℕ) (s : CompoundInputFileStream)
    → Settled s
    → entries s ≡ es
    → QuietPush s.calls (mark u ++ pending s.after) (push_by es t u s)
unfolding push_by push_first enter stand pending
push_by-Quiet [] t u s h e = record {
  calls_same = refl;
  pending_same = ap (λ es. mark u ++ pending es) (sym (onto-empty s.before s.after e));
}
push_by-Quiet (_ ∷ _) t u s h e =
    let (b, s1) = eof true s in
    let q = skip_from-Quiet s h in
    subst (λ c. QuietPush c (mark u ++ pending s.after) (push_on t u b s1.after s1)) q.calls_same
      (subst (λ p. QuietPush s1.calls (mark u ++ p) (push_on t u b s1.after s1)) q.pending_same
        (push_on-Quiet t u b s1.after s1))

err-ne-ok : {A : Type 0} {e : Error} {a : A} → err e ≡ ok a → ⊥
err-ne-ok h = cc

abbrev returned : ℕ → CompoundInputFileStream → Result (ℕ × CompoundInputFileStream)
returned u s = ok (u, s)

Quiet-returned :
    (x : Result CompoundInputFileStream) (c p : List ℕ) (u u' : ℕ) (s' : CompoundInputFileStream)
    → QuietPush c (mark u ++ p) x
    → (x >>= λ s. returned u s) ≡ returned u' s'
    → Quiet c (mark u' ++ p) s'
Quiet-returned (ok s) c p u u' s' q h =
    let same_number : u ≡ u' = cc in
    let same_state : s ≡ s' = cc in
    subst (λ n. Quiet c (mark n ++ p) s') same_number
      (subst (λ t. Quiet c (mark u ++ p) t) same_state q)
Quiet-returned (err e) c p u u' s' q h = absurd (err-ne-ok h)

count_uid-same : (b : Bool) (s : CompoundInputFileStream) → (count_uid b s).1.calls ≡ s.calls
count_uid-same false s = refl
count_uid-same true s = refl

-- On a settled stream, where `pushEntry` returns a number, no callback was called, and the numbers
-- pending are the returned one, if it is not 0, before those that were pending.
pub push_entry-Quiet :
    (t : List ℕ) (b : Bool) (s s' : CompoundInputFileStream) (u : ℕ)
    → Settled s
    → push_entry t b s ≡ ok (u, s')
    → Quiet s.calls (mark u ++ pending s.after) s'
unfolding push_entry
push_entry-Quiet t b s s' u h e =
    let (n, s1) = count_uid b s in
    let place = count_uid-SamePlace b s in
    Quiet-same (count_uid-same b s) (ap (λ es. mark u ++ pending es) place.same_after) (
      Quiet-returned (push_by (entries s1) t n s1) _ _ n u s'
        (push_by-Quiet (entries s1) t n s1 (SamePlace-Settled place h) refl) e)

Number-returned :
    (x : Result CompoundInputFileStream) (u u' : ℕ) (s' : CompoundInputFileStream)
    → (x >>= λ s. returned u s) ≡ returned u' s'
    → u' ≡ u
Number-returned (ok s) u u' s' h = cc
Number-returned (err e) u u' s' h = absurd (err-ne-ok h)

-- The number that `pushEntry` returns.
pub push_entry-number :
    (t : List ℕ) (s s' : CompoundInputFileStream) (u : ℕ)
    → push_entry t true s ≡ ok (u, s')
    → u ≡ add32 s.uid 1
unfolding push_entry
push_entry-number t s s' u h =
    Number-returned (push_by _ t (add32 s.uid 1) _) (add32 s.uid 1) u s' h
