-- ===== src/CompoundInput/Seeking.antt =====
-- src/compoundInputFileStream.cpp, `tellg` and `seekg`: a lexer that goes back to where it was.
use kasm.Base.{
  ℕ, zero, suc, ◌+◌, ◌-◌, ◌≤◌, ◌<◌, ◌≡◌, ◌≢◌, if◌then◌else◌, refl, sym, ap, ◌∙◌, Bool, true, false,
  List, [], ◌∷◌, leb, length, maybe, arith, leb→lt,
}
use mathlib.Core.Path.{subst}
use kasm.CompoundInput.Inserting.{passed-place}
use kasm.CompoundInput.Reading.{remaining-entry}
use kasm.CompoundInput.Skipping.{either_way, no_stub, enter-On}
use kasm.CompoundInput.{
  tell_at, step_on, seek_in, FileEntry, CompoundInputFileStream, ok, is_stub, text_of, tell_in,
  ended, enter, stand, skip_ended, eof, in_entry, last_end, find_entry, onto, entries, seekg, tellg,
  ignore, call_back, skip_from, at_end,
}
use kasm.CompoundInput.Remaining.{Reached, past_end, at_byte, at_stub, On, left_from, remaining}
use kasm.CompoundInput.Skipping.{at_entry-split, split_on}
use kasm.CompoundInput.Reading.{Settled, on_entry, eof-Reached}

-- Entries that follow one another, from a place on.
abbrev pub Ascending : ℕ → List FileEntry → Type 0
Ascending lo [] = Unit
Ascending lo (e ∷ es) = (lo ≤ e.start) × (e.start ≤ e.end) × Ascending e.end es

abbrev EntriesSame : List FileEntry → Bool × CompoundInputFileStream → Type 0
EntriesSame es x = entries x.1 ≡ es

-- The loop of `eof` that gives no stubs moves `it` and keeps the entries.
skip_ended-entries :
    (before : List FileEntry) (e : FileEntry) (rest : List FileEntry) (s : CompoundInputFileStream)
    → entries (skip_ended false before e rest s).1 ≡ onto before (e ∷ rest)
unfolding skip_ended stand at_end
skip_ended-entries before e [] s =
    at_entry-split (EntriesSame (onto before (e ∷ []))) false before e [] _ s (λ _. refl)
      (λ g _ _. cc) (λ _ _. refl)
skip_ended-entries before e (e' ∷ rest) s =
    at_entry-split (EntriesSame (onto before (e ∷ e' ∷ rest))) false before e (e' ∷ rest) _ s
      (λ _. refl) (λ g _ _. cc)
      (λ _ _.
        split_on (EntriesSame (onto before (e ∷ e' ∷ rest))) (is_stub e')
          (λ _. skip_ended-entries (e ∷ before) e' rest (enter e' e'.offset (call_back e s)))
          (λ _. skip_ended-entries (e ∷ before) e' rest (call_back e s)))

skip_from-entries :
    (es : List FileEntry) (s : CompoundInputFileStream)
    → s.after ≡ es
    → entries (skip_from false s.before es s).1 ≡ entries s
skip_from-entries [] s e = refl
skip_from-entries (e' ∷ rest) s e =
    skip_ended-entries s.before e' rest s ∙ ap (λ es. onto s.before es) (sym e)

eof-entries : (s : CompoundInputFileStream) → entries (eof false s).1 ≡ entries s
unfolding eof
eof-entries s =
    either_way (EntriesSame (entries s)) s.in_stream (true, s) (skip_from false s.before s.after s)
      refl (skip_from-entries s.after s refl)

-- `ignore`, a number of times: what a lexer does from YYBACKUP to YYRESTORE.
abbrev pub ignore_times : ℕ → CompoundInputFileStream → CompoundInputFileStream
ignore_times zero s = s
ignore_times (suc n) s = ignore_times n (ignore s)

stepped :
    (x : Bool × CompoundInputFileStream)
    → entries (if x.0 then x.1 else step_on 1 x.1) ≡ entries x.1
stepped (true, s) = refl
stepped (false, s) = refl

ignore-entries : (s : CompoundInputFileStream) → entries (ignore s) ≡ entries s
unfolding ignore
ignore-entries s = stepped (eof false s) ∙ eof-entries s

ignore_times-entries :
    (n : ℕ) (s : CompoundInputFileStream) → entries (ignore_times n s) ≡ entries s
ignore_times-entries zero s = refl
ignore_times-entries (suc n) s = ignore_times-entries n (ignore s) ∙ ignore-entries s

-- None of the entries, the nearest first, goes beyond the place.
abbrev Below : ℕ → List FileEntry → Type 0
Below p [] = Unit
Below p (b ∷ before) = (b.end ≤ p) × Below p before

Below-mono : (p q : ℕ) (before : List FileEntry) → p ≤ q → Below p before → Below q before
Below-mono p q [] h b = tt
Below-mono p q (x ∷ before) h (b, bs) = (omega (arith, b), Below-mono p q before h bs)

Ascending-split :
    (before es : List FileEntry)
    → Ascending 0 (onto before es)
    → (lo : ℕ) × Below lo before × Ascending lo es
Ascending-split [] es h = (0, tt, h)
Ascending-split (b ∷ before) es h =
    let (lo, below, (h1, h2, asc)) = Ascending-split before (b ∷ es) h in
    (b.end, (omega arith, Below-mono lo b.end before (omega (arith, h1, h2)) below), asc)

module _ (p : ℕ) where
  not_in : (e : FileEntry) → e.end ≤ p → in_entry p e ≡ false
  not_in e h = ground arith

  -- The search passes over entries that end before the place.
  find_entry-Below :
      (before es : List FileEntry) (s : CompoundInputFileStream)
      → Below p before
      → find_entry p [] (onto before es) s ≡ find_entry p before es s
  unfolding find_entry
  find_entry-Below [] es s h = refl
  find_entry-Below (b ∷ before) es s (h, hs) =
      find_entry-Below before (b ∷ es) s hs ∙ rw (find_entry, not_in b h) refl

  find_entry-found :
      (before rest : List FileEntry) (e : FileEntry) (s : CompoundInputFileStream)
      → in_entry p e ≡ true
      → find_entry p before (e ∷ rest) s
        ≡ enter e (p - e.start + e.offset) (stand before (e ∷ rest) s)
  unfolding find_entry
  find_entry-found before rest e s h = rw (find_entry, h) refl

last_end-onto :
    (before : List FileEntry) (e : FileEntry) (rest : List FileEntry) (d : ℕ)
    → last_end (onto before (e ∷ rest)) d ≡ last_end rest e.end
last_end-onto [] e rest d = refl
last_end-onto (b ∷ before) e rest d = last_end-onto before b (e ∷ rest) d

last_end-Ascending : (lo : ℕ) (es : List FileEntry) → Ascending lo es → lo ≤ last_end es lo
last_end-Ascending lo [] h = omega arith
last_end-Ascending lo (e ∷ es) (a, b, h) = omega (arith, a, b, last_end-Ascending e.end es h)

seek_in-ok :
    (p : ℕ) (es : List FileEntry) (s : CompoundInputFileStream)
    → p < last_end es 0
    → seek_in p es s ≡ ok (find_entry p [] es s)
unfolding seek_in
seek_in-ok p [] s h = absurd (omega (arith, h))
seek_in-ok p (e ∷ es) s h = ground arith

module _ (e : FileEntry) (p : ℕ) (placed : e.offset ≤ p) (inside : ended e p ≡ false) where
  starts_before : e.start ≤ tell_in e p
  unfolding tell_in
  starts_before = omega (arith, placed)

  in_entry-here : is_stub e ≡ false → in_entry (tell_in e p) e ≡ true
  unfolding ended tell_in
  in_entry-here st = ground (arith, placed, no_stub (leb (length (text_of e)) p) _ inside)

  before_end : tell_in e p < e.end
  unfolding ended
  before_end = leb→lt _ _ (no_stub (leb (length (text_of e)) p) _ inside).1

abbrev pub SeeksBack : List ℕ → ℕ → CompoundInputFileStream → Type 0
SeeksBack r p s =
    (s' : CompoundInputFileStream) × (seekg p s ≡ ok s') × (remaining s' ≡ r) × Settled s'

seeks_back :
    (e : FileEntry) (rest : List FileEntry) (s t : CompoundInputFileStream)
    → On e s
    → ended e s.position ≡ false
    → Ascending 0 (onto s.before (e ∷ rest))
    → entries t ≡ onto s.before (e ∷ rest)
    → SeeksBack (left_from (e ∷ rest) s.position) (tell_in e s.position) t
unfolding seekg stand enter
seeks_back e rest s t on inside asc same =
    let p = tell_in e s.position in
    let es = onto s.before (e ∷ rest) in
    let st = ap (λ f. maybe f true (λ _. false)) on.has_text in
    let (lo, below, (start, fits, asc')) = Ascending-split s.before (e ∷ rest) asc in
    let here = in_entry-here e s.position on.placed inside st in
    let k = p - e.start + e.offset in
    let s1 = stand s.before (e ∷ rest) t in
    let on1 = enter-On e k s1 st (omega arith) in
    let below_p : Below p s.before =
      Below-mono lo p s.before (omega (arith, start, starts_before e s.position on.placed inside))
        below in
    let before_last : p < last_end es 0 = omega (
      arith,
      before_end e s.position on.placed inside,
      last_end-onto s.before e rest 0,
      last_end-Ascending e.end rest asc',
    ) in
    (
      enter e k s1,
      ap (λ l. seek_in p l t) same
          ∙ seek_in-ok p es t before_last
          ∙ ap ok (
              find_entry-Below p s.before (e ∷ rest) t below_p
              ∙ find_entry-found p s.before rest e t here),
      remaining-entry false (enter e k s1) on1 refl
          ∙ ap (λ q. left_from (e ∷ rest) q) (passed-place e s.position 0 on.placed),
      on_entry refl on1,
    )

abbrev place_of : Bool × CompoundInputFileStream → ℕ
place_of (b, s) = if b then 0 else tell_at s.after s.position

eof-SeeksBack :
    {r : List ℕ} {x : Bool × CompoundInputFileStream} (n : ℕ)
    → Reached false r x
    → r ≢ []
    → Ascending 0 (entries x.1)
    → SeeksBack r (place_of x) (ignore_times n x.1)
eof-SeeksBack n (past_end e _ _) ne asc = absurd (ne e)
eof-SeeksBack n (at_stub g _ _ _) ne asc = cc
eof-SeeksBack {r} n (at_byte {s} {e} {rest} here on inside same) ne asc =
    let filled = ap (onto s.before) here in
    subst (λ p. SeeksBack r p (ignore_times n s)) (ap (λ es. tell_at es s.position) (sym here))
      (subst (λ q. SeeksBack q (tell_in e s.position) (ignore_times n s)) same
        (seeks_back e rest s (ignore_times n s) on inside (subst (Ascending 0) filled asc)
          (ignore_times-entries n s ∙ filled)))

abbrev pub Restores : ℕ → CompoundInputFileStream → Type 0
Restores n s = let (p, s') = tellg s in SeeksBack (remaining s) p (ignore_times n s')

-- Where the entries follow one another, on a settled stream with text left, `seekg` to the place
-- that `tellg` gave returns, after any number of bytes were passed by `ignore` in between, and the
-- text that is left is the one at `tellg`.
pub seekg-tellg :
    (n : ℕ) (s : CompoundInputFileStream)
    → Settled s
    → remaining s ≢ []
    → Ascending 0 (entries s)
    → Restores n s
unfolding tellg
seekg-tellg n s h ne asc =
    eof-SeeksBack n (eof-Reached false s h) ne (subst (Ascending 0) (sym (eof-entries s)) asc)
