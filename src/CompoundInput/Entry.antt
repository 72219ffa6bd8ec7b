-- ===== src/CompoundInput/Entry.antt =====
-- src/compoundInputFileStream.cpp, `pushEntry`, from the states that the operations leave.
use mathlib.Core.Path.{subst}
use kasm.Base.{
  ℕ, ◌≡◌, ◌≢◌, refl, sym, ap, ◌∙◌, Bool, true, false, none, List, [], ◌∷◌, ◌++◌, maybe, arith,
}
use kasm.CompoundInput.{
  FileEntry, CompoundInputFileStream, ok, err, undefined, onto, ◌>>=◌, entries,
}
use kasm.CompoundInput.Push.{push_on, push_at, push_by, count_uid, push_entry}
use kasm.CompoundInput.Remaining.{left_from, remaining}
use kasm.CompoundInput.Reading.{
  Settled, closed, on_entry, remaining-closed, eof-closed, eof-Reached,
}
use kasm.CompoundInput.Inserting.{AllWhole}
use kasm.CompoundInput.Pushing.{Pushes, eof-AllWhole, push_at-Pushes}

-- A stream as the operations leave it: settled, and every entry from `it` on goes on to the end of its
-- file.
pub record Ready (s : CompoundInputFileStream) : Type 0 where
  pub settled : Settled s
  pub whole : AllWhole s.after

some_entries :
    (before : List FileEntry) (e : FileEntry) (rest : List FileEntry)
    → (e' : FileEntry) × (es : List FileEntry) × (onto before (e ∷ rest) ≡ e' ∷ es)
some_entries [] e rest = (e, rest, refl)
some_entries (b ∷ before) e rest = some_entries before b (e ∷ rest)

push_by-Pushes :
    (t : List ℕ) (u : ℕ) (s : CompoundInputFileStream)
    → Ready s
    → remaining s ≢ []
    → Pushes t (remaining s) (push_by (entries s) t u s)
unfolding push_by
push_by-Pushes t u s ready ne = elim (ready.settled) [
  | closed c _ ↦ absurd (ne (remaining-closed false s c))
  | on_entry {e} {rest} here on ↦
      let (e', es, filled) = some_entries s.before e rest in
      subst (λ x. Pushes t (remaining s) x)
        (ap (λ es. push_by es t u s) (sym (ap (onto s.before) here ∙ filled)))
        (push_at-Pushes t u (eof-Reached true s (on_entry here on))
          (eof-AllWhole true s ready.whole) ne)
]

-- What of the stream this rests on.
pub record SamePlace (s s' : CompoundInputFileStream) : Type 0 where
  pub same_stream : s'.in_stream ≡ s.in_stream
  pub same_after : s'.after ≡ s.after
  pub same_position : s'.position ≡ s.position

pub SamePlace-Settled : {s s' : CompoundInputFileStream} → SamePlace s s' → Settled s → Settled s'
SamePlace-Settled p (closed c a) = closed (p.same_stream ∙ c) (p.same_after ∙ a)
SamePlace-Settled p (on_entry here on) = on_entry (p.same_after ∙ here) (record {
  text = on.text;
  has_text = on.has_text;
  in_text = p.same_stream ∙ on.in_text;
  placed = omega (arith, on.placed, p.same_position);
})

pub SamePlace-Ready : {s s' : CompoundInputFileStream} → SamePlace s s' → Ready s → Ready s'
SamePlace-Ready {s} {s'} p r = record {
  settled = SamePlace-Settled p r.settled;
  whole = subst AllWhole (sym p.same_after) r.whole;
}

pub SamePlace-remaining :
    {s s' : CompoundInputFileStream} → SamePlace s s' → remaining s' ≡ remaining s
unfolding remaining
SamePlace-remaining {s} {s'} p =
    ap (λ i. maybe i [] (λ _. left_from s'.after s'.position)) p.same_stream
    ∙ ap (λ es. maybe s.in_stream [] (λ _. left_from es s'.position)) p.same_after
    ∙ ap (λ k. maybe s.in_stream [] (λ _. left_from s.after k)) p.same_position

pub count_uid-SamePlace : (b : Bool) (s : CompoundInputFileStream) → SamePlace s (count_uid b s).1
count_uid-SamePlace false s = record { same_stream = refl; same_after = refl; same_position = refl }
count_uid-SamePlace true s = record { same_stream = refl; same_after = refl; same_position = refl }

abbrev pub PushesEntry : List ℕ → Bool → CompoundInputFileStream → Type 0
PushesEntry t b s =
    (u : ℕ) × (s' : CompoundInputFileStream) × (push_entry t b s ≡ ok (u, s'))
    × (remaining s' ≡ t ++ remaining s)
    × Ready s'

-- On a ready stream with text left, `pushEntry` returns, whatever the text to insert and whether it
-- is numbered: the text that is left is the new text before the old one, and the stream is ready.
pub push_entry-PushesEntry :
    (t : List ℕ) (b : Bool) (s : CompoundInputFileStream)
    → Ready s
    → remaining s ≢ []
    → PushesEntry t b s
unfolding push_entry
push_entry-PushesEntry t b s ready ne =
    let (u, s1) = count_uid b s in
    let same : remaining s1 ≡ remaining s = SamePlace-remaining (count_uid-SamePlace b s) in
    let (s', pushed, i) =
      push_by-Pushes t u s1 (SamePlace-Ready (count_uid-SamePlace b s) ready)
        (λ e. ne (sym same ∙ e)) in
    (
      u,
      s',
      ap (λ x. x >>= λ s''. ok (u, s'')) pushed,
      i.text ∙ ap (λ r. t ++ r) same,
      record { settled = i.settled; whole = i.whole },
    )

module _ (t : List ℕ) (u : ℕ) (s : CompoundInputFileStream) {e : FileEntry} {es : List FileEntry}
    (c : s.in_stream ≡ none) (a : s.after ≡ []) (b : s.before ≡ e ∷ es) where
  push_by-past_end : push_by (entries s) t u s ≡ err undefined
  unfolding push_by push_on
  push_by-past_end =
      let (e', es', filled) = some_entries es e [] in
      ap (λ l. push_by l t u s) (ap (λ l. onto s.before l) a ∙ ap (λ l. onto l []) b ∙ filled)
      ∙ ap (λ x. push_at t u x) (eof-closed true s c)
      ∙ ap (λ l. push_on t u true l s) a

-- Once `eof` has answered for the last entry, `pushEntry` dereferences the iterator `end()`, which
-- C++ leaves undefined, whatever the text.
pub push_entry-past_end :
    (t : List ℕ) (numbered : Bool) (s : CompoundInputFileStream) {e : FileEntry}
    {es : List FileEntry}
    → s.in_stream ≡ none
    → s.after ≡ []
    → s.before ≡ e ∷ es
    → push_entry t numbered s ≡ err undefined
unfolding push_entry
push_entry-past_end t false s c a b =
    ap (λ x. x >>= λ s'. ok (0, s')) (push_by-past_end t 0 s c a b)
push_entry-past_end t true s c a b =
    let (u, s1) = count_uid true s in
    ap (λ x. x >>= λ s'. ok (u, s')) (push_by-past_end t u s1 c a b)
