-- ===== src/CompoundInput/Listening.antt =====
-- src/compoundInputFileStream.cpp, `pushEntry`: the callback stays set.
use mathlib.Core.Path.{subst}
use kasm.Base.{ℕ, ◌≡◌, Bool, true, ◌||◌, List, [], ◌∷◌, if_both}
use kasm.CompoundInput.{
  ◌>>=◌, FileEntry, CompoundInputFileStream, is_stub, enter, stand, eof, Error, Result, ok, err,
}
use kasm.CompoundInput.Push.{push_on, push_by, push_first, push_before, push_inside, push_entry}
use kasm.CompoundInput.Callbacks.{eof-listens}

-- Where it returns, the callback is set.
abbrev ListeningPush : Result CompoundInputFileStream → Type 0
ListeningPush (ok s) = s.eof_callback ≡ true
ListeningPush (err e) = Unit

push_on-Listening :
    (t : List ℕ) (u : ℕ) (b : Bool) (es : List FileEntry) (s : CompoundInputFileStream)
    → s.eof_callback ≡ true
    → ListeningPush (push_on t u b es s)
unfolding push_on push_before push_inside enter stand
push_on-Listening t u b [] s h = tt
push_on-Listening t u b (e ∷ rest) s h = if_both ListeningPush (b || is_stub e) h h

push_by-Listening :
    (es : List FileEntry) (t : List ℕ) (u : ℕ) (s : CompoundInputFileStream)
    → s.eof_callback ≡ true
    → ListeningPush (push_by es t u s)
unfolding push_by push_first enter stand
push_by-Listening [] t u s h = h
push_by-Listening (_ ∷ _) t u s h =
    let (b, s1) = eof true s in push_on-Listening t u b s1.after s1 (eof-listens true s h)

err-ne-ok : {A : Type 0} {e : Error} {a : A} → err e ≡ ok a → ⊥
err-ne-ok h = cc

abbrev returned : ℕ → CompoundInputFileStream → Result (ℕ × CompoundInputFileStream)
returned u s = ok (u, s)

returned-Listening :
    (x : Result CompoundInputFileStream) (u u' : ℕ) (s' : CompoundInputFileStream)
    → ListeningPush x
    → (x >>= λ s. returned u s) ≡ returned u' s'
    → s'.eof_callback ≡ true
returned-Listening (ok s) u u' s' l h =
    let same_state : s ≡ s' = cc in subst (λ t. t.eof_callback ≡ true) same_state l
returned-Listening (err e) u u' s' l h = absurd (err-ne-ok h)

-- With the callback set, `pushEntry` of a numbered entry leaves it set.
pub push_entry-listens :
    (t : List ℕ) (s s' : CompoundInputFileStream) (u : ℕ)
    → s.eof_callback ≡ true
    → push_entry t true s ≡ ok (u, s')
    → s'.eof_callback ≡ true
unfolding push_entry
push_entry-listens t s s' u h e =
    returned-Listening (push_by _ t _ _) _ u s' (push_by-Listening _ t _ _ h) e
