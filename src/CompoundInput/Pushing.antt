-- ===== src/CompoundInput/Pushing.antt =====
-- src/compoundInputFileStream.cpp, `pushEntry`, on a stream with text left.
use mathlib.Core.Path.{subst}
use kasm.Base.{
  ℕ, ◌≤◌, ◌≡◌, ◌≢◌, refl, sym, ap, ◌∙◌, Bool, true, false, List, [], ◌∷◌, ◌++◌, leb, length,
  if◌then◌else◌, maybe, arith, leb→lt,
}
use kasm.CompoundInput.{
  FileEntry, CompoundInputFileStream, Result, ok, text_of, ended, enter, stand, skip_from, eof,
}
use kasm.CompoundInput.Push.{
  new_entry, move_all, rest_of, push_before, push_inside, push_on, push_at,
}
use kasm.CompoundInput.Remaining.{
  Reached, past_end, at_byte, at_stub, On, left_in, left_from, contents, remaining,
}
use kasm.CompoundInput.Skipping.{no_stub, contents-stub, either_way}
use kasm.CompoundInput.Reading.{Settled, on_entry, remaining-entry}
use kasm.CompoundInput.Inserting.{
  AllWhole, move_all-AllWhole, left_in-Whole, contents-move_all, new_entry-left, rest_of-Whole,
  rest_of-left, skip_ended-AllWhole,
}

-- The text `t` stands before the text `r`.
pub record Inserted (t r : List ℕ) (s : CompoundInputFileStream) : Type 0 where
  pub text : remaining s ≡ t ++ r
  pub settled : Settled s
  pub whole : AllWhole s.after

new_entry-On :
    (t : List ℕ) (start u : ℕ) (s : CompoundInputFileStream)
    → On (new_entry t start u) (enter (new_entry t start u) 0 s)
unfolding enter
new_entry-On t start u s = record {
  text = t;
  has_text = refl;
  in_text = refl;
  placed = omega arith;
}

-- A new entry before others.
entered-Inserted :
    (t : List ℕ) (start u : ℕ) (before es : List FileEntry) (s : CompoundInputFileStream)
    → AllWhole es
    → Inserted t
        (contents es)
        (enter (new_entry t start u) 0 (stand before (new_entry t start u ∷ es) s))
unfolding stand enter left_from
entered-Inserted t start u before es s h =
    let new = new_entry t start u in
    let s' = stand before (new ∷ es) s in
    let on = new_entry-On t start u s' in
    record {
      text =
          remaining-entry false (enter new 0 s') on refl
          ∙ ap (λ l. l ++ contents es) (new_entry-left t start u);
      settled = on_entry refl on;
      whole = (omega arith, h);
    }

Inserted-same :
    {t r r' : List ℕ} {s : CompoundInputFileStream} → r ≡ r' → Inserted t r s → Inserted t r' s
Inserted-same {t} h i = record {
  text = i.text ∙ ap (λ l. t ++ l) h;
  settled = i.settled;
  whole = i.whole;
}

push_inside-Inserted :
    (t : List ℕ) (u : ℕ) (e : FileEntry) (rest : List FileEntry) (s : CompoundInputFileStream)
    → On e s
    → ended e s.position ≡ false
    → AllWhole (e ∷ rest)
    → Inserted t (left_from (e ∷ rest) s.position) (push_inside t u e rest s)
unfolding push_inside contents left_from ended
push_inside-Inserted t u e rest s on inside (h, hs) =
    let p = s.position in
    let n = length t in
    let (a, _) = no_stub (leb (length (text_of e)) p) _ inside in
    let fits : p ≤ length (text_of e) = omega (arith, leb→lt _ _ a) in
    Inserted-same
      (ap (λ l. l ++ contents (move_all n rest))
          (rest_of-left e p n on.placed fits ∙ sym (left_in-Whole e p h on.placed))
        ∙ ap (λ l. left_in e p ++ l) (contents-move_all n rest))
      (entered-Inserted t _ u _ (rest_of e p n ∷ move_all n rest) s
        (rest_of-Whole e p n on.placed fits, move_all-AllWhole n rest hs))

-- The push goes through.
abbrev pub Pushes : List ℕ → List ℕ → Result CompoundInputFileStream → Type 0
Pushes t r x = (s : CompoundInputFileStream) × (x ≡ ok s) × Inserted t r s

pub push_at-Pushes :
    (t : List ℕ) (u : ℕ) {r : List ℕ} {x : Bool × CompoundInputFileStream}
    → Reached true r x
    → AllWhole x.1.after
    → r ≢ []
    → Pushes t r (push_at t u x)
unfolding push_on push_before
push_at-Pushes t u (past_end e _ _) h ne = absurd (ne e)
push_at-Pushes t u (at_byte {s} {e} {rest} here on inside same) h ne = (
  push_inside t u e rest s,
  ap (λ es. push_on t u false es s) here
      ∙ ap
          (λ f.
            if maybe f true (λ _. false)
            then ok (push_before t u e rest s)
            else ok (push_inside t u e rest s))
          on.has_text,
  Inserted-same same (push_inside-Inserted t u e rest s on inside (subst AllWhole here h)),
)
push_at-Pushes t u (at_stub {s} {e} {rest} _ here st same) h ne = (
  push_before t u e rest s,
  ap (λ es. push_on t u false es s) here
      ∙ ap
          (λ f.
            if maybe f true (λ _. false)
            then ok (push_before t u e rest s)
            else ok (push_inside t u e rest s))
          st,
  Inserted-same (contents-stub e rest (ap (λ f. maybe f true (λ _. false)) st) ∙ same)
      (entered-Inserted t e.end u s.before (e ∷ rest) s (subst AllWhole here h)),
)

skip_from-AllWhole :
    (give : Bool) (es : List FileEntry) (s : CompoundInputFileStream)
    → s.after ≡ es
    → AllWhole s.after
    → AllWhole (skip_from give s.before es s).1.after
skip_from-AllWhole give [] s e h = h
skip_from-AllWhole give (e' ∷ rest) s e h =
    skip_ended-AllWhole give s.before e' rest s (subst AllWhole e h)

abbrev WholeFrom : Bool × CompoundInputFileStream → Type 0
WholeFrom x = AllWhole x.1.after

pub eof-AllWhole :
    (give : Bool) (s : CompoundInputFileStream) → AllWhole s.after → AllWhole (eof give s).1.after
unfolding eof
eof-AllWhole give s h =
    either_way WholeFrom s.in_stream (true, s) (skip_from give s.before s.after s) h
      (skip_from-AllWhole give s.after s refl h)
