-- ===== src/CompoundInput/Reading.antt =====
-- src/compoundInputFileStream.cpp, `eof`, `peek`, `ignore`, `get`: reading takes the text that is left
-- byte by byte, across the ends of entries.
use mathlib.Core.Path.{subst}
use kasm.Base.{
  ℕ, suc, ◌+◌, ◌-◌, ◌≤◌, ◌≡◌, refl, sym, ap, ◌∙◌, Bool, true, false, Option, none, some, List, [],
  ◌∷◌, ◌++◌, inr, leb, length, take, drop, get_or, get_elem?, if◌then◌else◌, maybe, arith, leb→lt,
}
use kasm.CompoundInput.{
  FileEntry, CompoundInputFileStream, text_of, tell_in, ended, skip_ended, skip_from, eof, peek,
  ignore, get, byte_at, step_on,
}
use kasm.CompoundInput.Remaining.{
  Reached, past_end, at_byte, at_stub, On, left_in, left_from, contents, remaining, take-drop-front,
}
use kasm.CompoundInput.Skipping.{skip_ended-Reached, no_stub, Reached-same}

-- The stream at rest: at the end, or on an entry whose stream is `in`.
pub data Settled (s : CompoundInputFileStream) : Type 0 where
  closed : s.in_stream ≡ none → s.after ≡ [] → Settled s
  on_entry : {e : FileEntry} {rest : List FileEntry} → s.after ≡ e ∷ rest → On e s → Settled s

module _ (give : Bool) (s : CompoundInputFileStream) where
  pub eof-closed : s.in_stream ≡ none → eof give s ≡ (true, s)
  unfolding eof
  eof-closed h = ap (λ i. maybe i (true, s) (λ _. skip_from give s.before s.after s)) h

  pub remaining-closed : s.in_stream ≡ none → remaining s ≡ []
  unfolding remaining
  remaining-closed h = ap (λ i. maybe i [] (λ _. left_from s.after s.position)) h

  module _ {e : FileEntry} {rest : List FileEntry} (on : On e s) (here : s.after ≡ e ∷ rest) where
    pub eof-entry : eof give s ≡ skip_ended give s.before e rest s
    unfolding eof
    eof-entry =
        ap (λ i. maybe i (true, s) (λ _. skip_from give s.before s.after s)) on.in_text
        ∙ ap (λ es. skip_from give s.before es s) here

    pub remaining-entry : remaining s ≡ left_from (e ∷ rest) s.position
    unfolding remaining
    remaining-entry =
        ap (λ i. maybe i [] (λ _. left_from s.after s.position)) on.in_text
        ∙ ap (λ es. left_from es s.position) here

  -- `eof` answers for the text that is left, and keeps it.
  pub eof-Reached : Settled s → Reached give (remaining s) (eof give s)
  eof-Reached (closed h a) =
      subst (λ x. Reached give (remaining s) x) (sym (eof-closed h))
        (past_end (remaining-closed h) h a)
  eof-Reached (on_entry {e} {rest} here on) =
      subst (λ x. Reached give (remaining s) x) (sym (eof-entry on here))
        (Reached-same (sym (remaining-entry on here))
          (skip_ended-Reached give s.before e rest s (inr on)))

left_in-byte :
    (e : FileEntry) (p : ℕ)
    → e.offset ≤ p
    → ended e p ≡ false
    → left_in e p ≡ get_or (text_of e) p 0 ∷ left_in e (p + 1)
unfolding left_in ended tell_in
left_in-byte e p placed h =
    let (a, b) = no_stub (leb (length (text_of e)) p) (leb e.end (tell_in e p)) h in
    let n = e.end - tell_in e (p + 1) in
    ap (λ k. take k (drop p (text_of e))) {x = e.end - tell_in e p} {y = suc n}
      (omega (arith, leb→lt _ _ b))
    ∙ take-drop-front n p (text_of e) 0 (leb→lt _ _ a)
    ∙ ap (λ k. get_or (text_of e) p 0 ∷ take n (drop k (text_of e))) {x = suc p} {y = p + 1}
        (omega arith)

-- A byte of the text `r` was read, or nothing where it is empty.
pub record Taken (r : List ℕ) (x : Option ℕ × CompoundInputFileStream) : Type 0 where
  pub byte : x.0 ≡ get_elem? r 0
  pub rest : remaining x.1 ≡ drop 1 r
  pub settled : Settled x.1

-- A place in the text of the stream that `in` is.
abbrev text_in : CompoundInputFileStream → List ℕ
text_in s = maybe s.in_stream [] (λ t. t)

text_in-On : {e : FileEntry} {s : CompoundInputFileStream} → On e s → text_in s ≡ text_of e
text_in-On on =
    ap (λ f. maybe f [] (λ t. t)) on.in_text ∙ sym (ap (λ f. maybe f [] (λ t. t)) on.has_text)

step_on-On : {e : FileEntry} {s : CompoundInputFileStream} → On e s → On e (step_on 1 s)
step_on-On on = record {
  text = on.text;
  has_text = on.has_text;
  in_text = on.in_text;
  placed = omega (arith, on.placed);
}

module _ {s : CompoundInputFileStream} {e : FileEntry} {rest : List FileEntry} (on : On e s)
    (here : s.after ≡ e ∷ rest) (inside : ended e s.position ≡ false) where
  -- At a byte, the text that is left is that byte and what is left one place further.
  pub remaining-byte : remaining s ≡ byte_at s ∷ remaining (step_on 1 s)
  unfolding left_from
  remaining-byte =
      remaining-entry false s on here
      ∙ ap (λ l. l ++ contents rest) (left_in-byte e s.position on.placed inside)
      ∙ ap (λ t. get_or t s.position 0 ∷ (left_in e (s.position + 1) ++ contents rest))
          (sym (text_in-On on))
      ∙ ap (λ l. byte_at s ∷ l) (sym (remaining-entry false (step_on 1 s) (step_on-On on) here))

  text_left :
      {r : List ℕ} → left_from (e ∷ rest) s.position ≡ r → byte_at s ∷ remaining (step_on 1 s) ≡ r
  text_left h = sym remaining-byte ∙ remaining-entry false s on here ∙ h

abbrev taken_from : Bool × CompoundInputFileStream → Option ℕ × CompoundInputFileStream
taken_from (b, s) = if b then (none, s) else (some (byte_at s), step_on 1 s)

taken_from-Taken :
    {r : List ℕ} {x : Bool × CompoundInputFileStream} → Reached false r x → Taken r (taken_from x)
taken_from-Taken (past_end e c a) = record {
  byte = ap (λ l. get_elem? l 0) (sym e);
  rest = remaining-closed false _ c ∙ ap (drop 1) (sym e);
  settled = closed c a;
}
taken_from-Taken (at_byte {s} here on inside e) = record {
  byte = ap (λ l. get_elem? l 0) (text_left on here inside e);
  rest = ap (drop 1) (text_left on here inside e);
  settled = on_entry here (step_on-On on);
}
taken_from-Taken (at_stub g _ _ _) = cc

-- On a settled stream, `get` gives the first byte of the text that is left, or nothing where none is
-- left, leaves the rest of that text, and settles.
pub get-Taken : (s : CompoundInputFileStream) → Settled s → Taken (remaining s) (get s)
unfolding get
get-Taken s h = taken_from-Taken (eof-Reached false s h)

-- `peek` gives the first byte of the text that is left, 0 where none is left, and keeps the text.
pub record Peeked (r : List ℕ) (x : ℕ × CompoundInputFileStream) : Type 0 where
  pub byte : x.0 ≡ get_or r 0 0
  pub rest : remaining x.1 ≡ r
  pub settled : Settled x.1

abbrev peeked_from : Bool × CompoundInputFileStream → ℕ × CompoundInputFileStream
peeked_from (b, s) = (if b then 0 else byte_at s, s)

peeked_from-Peeked :
    {r : List ℕ} {x : Bool × CompoundInputFileStream} → Reached false r x → Peeked r (peeked_from x)
peeked_from-Peeked (past_end e c a) = record {
  byte = ap (λ l. get_or l 0 0) (sym e);
  rest = remaining-closed false _ c ∙ sym e;
  settled = closed c a;
}
peeked_from-Peeked (at_byte {s} here on inside e) = record {
  byte = ap (λ l. get_or l 0 0) (text_left on here inside e);
  rest = remaining-entry false s on here ∙ e;
  settled = on_entry here on;
}
peeked_from-Peeked (at_stub g _ _ _) = cc

pub peek-Peeked : (s : CompoundInputFileStream) → Settled s → Peeked (remaining s) (peek s)
unfolding peek
peek-Peeked s h = peeked_from-Peeked (eof-Reached false s h)

ignored-taken :
    (x : Bool × CompoundInputFileStream)
    → (taken_from x).1 ≡ (let (b, s) = x in if b then s else step_on 1 s)
ignored-taken (true, s) = refl
ignored-taken (false, s) = refl

-- `ignore` does to the stream what `get` does.
pub ignore-get : (s : CompoundInputFileStream) → ignore s ≡ (get s).1
unfolding ignore get
ignore-get s = sym (ignored-taken (eof false s))
