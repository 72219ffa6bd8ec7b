-- ===== src/CompoundInput/Extending.antt =====
-- src/compoundInputFileStream.cpp, `eof`: the calls so far are kept, and new ones come after them.
use mathlib.Core.List.{append_assoc, append-nil}
use kasm.Base.{
  ℕ, ◌≡◌, refl, sym, ap, ◌∙◌, Bool, true, not, ◌&&◌, List, [], ◌∷◌, ◌++◌, ◌==◌, if_both,
}
use kasm.CompoundInput.{
  FileEntry, CompoundInputFileStream, is_stub, call_back, enter, stand, at_end, skip_ended,
  skip_from, eof,
}
use kasm.CompoundInput.Skipping.{at_entry-split, either_way, split_on}

pub record Extends (c : List ℕ) (s : CompoundInputFileStream) : Type 0 where
  pub new_calls : List ℕ
  pub appended : s.calls ≡ c ++ new_calls

abbrev Extended : List ℕ → Bool × CompoundInputFileStream → Type 0
Extended c x = Extends c x.1

nothing_new : (c : List ℕ) (s : CompoundInputFileStream) → s.calls ≡ c → Extends c s
nothing_new c s h = record { new_calls = []; appended = h ∙ sym (append-nil c) }

Extends-trans :
    {c : List ℕ} {s s' : CompoundInputFileStream} → Extends c s → Extends s.calls s' → Extends c s'
Extends-trans {c} x y = record {
  new_calls = x.new_calls ++ y.new_calls;
  appended =
      y.appended ∙ ap (λ l. l ++ y.new_calls) x.appended ∙ append_assoc c x.new_calls y.new_calls;
}

call_back-Extends : (e : FileEntry) (s : CompoundInputFileStream) → Extends s.calls (call_back e s)
unfolding call_back
call_back-Extends e s =
    if_both (Extends s.calls) (s.eof_callback && not (e.uid == 0))
      (record { new_calls = e.uid ∷ []; appended = refl }) (nothing_new s.calls s refl)

skip_ended-Extends :
    (give : Bool) (before : List FileEntry) (e : FileEntry) (rest : List FileEntry)
    (s : CompoundInputFileStream)
    → Extends s.calls (skip_ended give before e rest s).1
unfolding skip_ended stand at_end enter
skip_ended-Extends give before e [] s =
    at_entry-split (Extended s.calls) give before e [] _ s (λ _. nothing_new _ _ refl)
      (λ _ _ _. nothing_new _ _ refl)
      (λ _ _.
        let x = call_back-Extends e s in record { new_calls = x.new_calls; appended = x.appended })
skip_ended-Extends give before e (e' ∷ rest) s =
    let x = call_back-Extends e s in
    at_entry-split (Extended s.calls) give before e (e' ∷ rest) _ s (λ _. nothing_new _ _ refl)
      (λ _ _ _. nothing_new _ _ refl)
      (λ _ _.
        split_on (Extended s.calls) (is_stub e')
          (λ _.
            Extends-trans x
              (skip_ended-Extends give (e ∷ before) e' rest (enter e' e'.offset (call_back e s))))
          (λ _.
            split_on (Extended s.calls) give
              (λ _. Extends-trans x (skip_ended-Extends give (e ∷ before) e' rest (call_back e s)))
              (λ _. record { new_calls = x.new_calls; appended = x.appended })))

skip_from-Extends :
    (give : Bool) (es : List FileEntry) (s : CompoundInputFileStream)
    → Extends s.calls (skip_from give s.before es s).1
skip_from-Extends give [] s = nothing_new _ _ refl
skip_from-Extends give (e ∷ rest) s = skip_ended-Extends give s.before e rest s

-- `eof` in either form, from any state, adds calls at the end only.
pub eof-Extends : (give : Bool) (s : CompoundInputFileStream) → Extends s.calls (eof give s).1
unfolding eof
eof-Extends give s =
    either_way (Extended s.calls) s.in_stream (true, s) (skip_from give s.before s.after s)
      (nothing_new _ _ refl) (skip_from-Extends give s.after s)
