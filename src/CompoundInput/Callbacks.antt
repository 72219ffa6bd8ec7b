-- ===== src/CompoundInput/Callbacks.antt =====
-- src/compoundInputFileStream.cpp, `eof` and `pushEntry`: the numbers that the callback is called
-- with, in which order.
use mathlib.Core.List.{append_assoc, append-nil}
use kasm.Base.{
  ℕ, ◌≡◌, refl, sym, ap, ◌∙◌, Bool, true, List, [], ◌∷◌, ◌++◌, ◌==◌, if◌then◌else◌, arith,
}
use kasm.CompoundInput.{
  FileEntry, CompoundInputFileStream, is_stub, call_back, enter, stand, at_end, skip_ended,
  skip_from, eof,
}
use kasm.CompoundInput.Skipping.{at_entry-split, either_way, split_on}

abbrev pub mark : ℕ → List ℕ
mark u = if u == 0 then [] else u ∷ []

-- The numbers of the entries from `it` on, those that are 0 left out.
unfoldable pub pending : List FileEntry → List ℕ
pending [] = []
pending (e ∷ es) = mark e.uid ++ pending es

-- What was called, and what is to be called.
unfoldable pub all_calls : CompoundInputFileStream → List ℕ
unfolding pending
all_calls s = s.calls ++ pending s.after

record Ordered (c : List ℕ) (s : CompoundInputFileStream) : Type 0 where
  pub listens : s.eof_callback ≡ true
  pub same : all_calls s ≡ c

abbrev KeepsOrder : List ℕ → Bool × CompoundInputFileStream → Type 0
KeepsOrder c x = Ordered c x.1

Ordered-same : {c c' : List ℕ} {s : CompoundInputFileStream} → c ≡ c' → Ordered c s → Ordered c' s
Ordered-same h o = record { listens = o.listens; same = o.same ∙ h }

module _ (e : FileEntry) (s : CompoundInputFileStream) where
  call_back-calls : s.eof_callback ≡ true → (call_back e s).calls ≡ s.calls ++ mark e.uid
  unfolding call_back
  call_back-calls h = ground (arith, append-nil s.calls)

  call_back-listens : (call_back e s).eof_callback ≡ s.eof_callback
  unfolding call_back
  call_back-listens = ground arith

  -- The number of an entry that is left moves from those to be called to those that were.
  call_back-Ordered :
      (rest : List FileEntry)
      → s.eof_callback ≡ true
      → (call_back e s).calls ++ pending rest ≡ s.calls ++ pending (e ∷ rest)
  unfolding pending
  call_back-Ordered rest h =
      ap (λ c. c ++ pending rest) (call_back-calls h)
      ∙ append_assoc s.calls (mark e.uid) (pending rest)

skip_ended-Ordered :
    (give : Bool) (before : List FileEntry) (e : FileEntry) (rest : List FileEntry)
    (s : CompoundInputFileStream)
    → s.eof_callback ≡ true
    → Ordered (s.calls ++ pending (e ∷ rest)) (skip_ended give before e rest s).1
unfolding skip_ended stand at_end enter pending all_calls
skip_ended-Ordered give before e [] s h =
    at_entry-split (KeepsOrder (s.calls ++ pending (e ∷ []))) give before e [] _ s
      (λ _. record { listens = h; same = refl }) (λ _ _ _. record { listens = h; same = refl })
      (λ _ _. record { listens = call_back-listens e s ∙ h; same = call_back-Ordered e s [] h })
skip_ended-Ordered give before e (e' ∷ rest) s h =
    let h' = call_back-listens e s ∙ h in
    let same' = call_back-Ordered e s (e' ∷ rest) h in
    at_entry-split (KeepsOrder (s.calls ++ pending (e ∷ e' ∷ rest))) give before e (e' ∷ rest) _ s
      (λ _. record { listens = h; same = refl }) (λ _ _ _. record { listens = h; same = refl })
      (λ _ _.
        split_on (KeepsOrder (s.calls ++ pending (e ∷ e' ∷ rest))) (is_stub e')
          (λ _.
            Ordered-same same' (
              skip_ended-Ordered give (e ∷ before) e' rest (enter e' e'.offset (call_back e s)) h'))
          (λ _.
            split_on (KeepsOrder (s.calls ++ pending (e ∷ e' ∷ rest))) give
              (λ _.
                Ordered-same same'
                  (skip_ended-Ordered give (e ∷ before) e' rest (call_back e s) h'))
              (λ _. record { listens = h'; same = same' })))

module _ (give : Bool) (s : CompoundInputFileStream) (h : s.eof_callback ≡ true) where
  skip_from-Ordered :
      (es : List FileEntry)
      → s.after ≡ es
      → Ordered (s.calls ++ pending s.after) (skip_from give s.before es s).1
  unfolding all_calls
  skip_from-Ordered [] e = record { listens = h; same = refl }
  skip_from-Ordered (e' ∷ rest) e =
      Ordered-same (ap (λ es. s.calls ++ pending es) (sym e))
        (skip_ended-Ordered give s.before e' rest s h)

  eof-Ordered : Ordered (all_calls s) (eof give s).1
  unfolding eof all_calls
  eof-Ordered =
      either_way (KeepsOrder (s.calls ++ pending s.after)) s.in_stream (true, s)
        (skip_from give s.before s.after s) (record { listens = h; same = refl })
        (skip_from-Ordered s.after refl)

-- Where a callback is set, `eof` in either form, from any state, keeps the sequence of the numbers
-- that were called followed by those that are pending: a number is called when its entry is left,
-- in the order of the entries, none twice and none left out.
pub eof-all_calls :
    (give : Bool) (s : CompoundInputFileStream)
    → s.eof_callback ≡ true
    → all_calls (eof give s).1 ≡ all_calls s
eof-all_calls give s h = (eof-Ordered give s h).same

pub eof-listens :
    (give : Bool) (s : CompoundInputFileStream)
    → s.eof_callback ≡ true
    → (eof give s).1.eof_callback ≡ true
eof-listens give s h = (eof-Ordered give s h).listens
