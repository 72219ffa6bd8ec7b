-- ===== src/CompoundInput/Inserting.antt =====
-- src/compoundInputFileStream.cpp, `pushEntry`: an inserted text stands before the text that was left.
use kasm.Base.{
  ℕ, zero, suc, ◌+◌, ◌-◌, ◌≤◌, ◌≡◌, refl, ap, ◌∙◌, Bool, List, [], ◌∷◌, ◌++◌, length, take, drop,
  length-drop, arith,
}
use kasm.CompoundInput.{
  FileEntry, CompoundInputFileStream, is_stub, text_of, tell_in, call_back, enter, stand, at_end,
  skip_ended,
}
use kasm.CompoundInput.Push.{new_entry, moved, move_all, rest_of}
use kasm.CompoundInput.Remaining.{left_in, contents}
use kasm.CompoundInput.Skipping.{at_entry-split, split_on}

-- An entry that goes on to the end of its file.
abbrev pub Whole : FileEntry → Type 0
Whole e = e.start + length (text_of e) ≤ e.end + e.offset

abbrev pub AllWhole : List FileEntry → Type 0
AllWhole [] = Unit
AllWhole (e ∷ es) = Whole e × AllWhole es

abbrev WholeFrom : Bool × CompoundInputFileStream → Type 0
WholeFrom x = AllWhole x.1.after

-- The loop of `eof` keeps this, and so do the stubs that it adds.
pub skip_ended-AllWhole :
    (give : Bool) (before : List FileEntry) (e : FileEntry) (rest : List FileEntry)
    (s : CompoundInputFileStream)
    → AllWhole (e ∷ rest)
    → AllWhole (skip_ended give before e rest s).1.after
unfolding skip_ended stand at_end enter
skip_ended-AllWhole give before e [] s h =
    at_entry-split WholeFrom give before e [] _ s (λ _. h) (λ _ _ _. (omega arith, tt)) (λ _ _. tt)
skip_ended-AllWhole give before e (e' ∷ rest) s (h, hs) =
    at_entry-split WholeFrom give before e (e' ∷ rest) _ s (λ _. (h, hs))
      (λ _ _ _. (omega arith, hs))
      (λ _ _.
        split_on WholeFrom (is_stub e')
          (λ _.
            skip_ended-AllWhole give (e ∷ before) e' rest (enter e' e'.offset (call_back e s)) hs)
          (λ _.
            split_on WholeFrom give
              (λ _. skip_ended-AllWhole give (e ∷ before) e' rest (call_back e s) hs) (λ _. hs)))

pub move_all-AllWhole : (n : ℕ) (es : List FileEntry) → AllWhole es → AllWhole (move_all n es)
move_all-AllWhole n [] h = tt
move_all-AllWhole n (e ∷ es) (h, hs) = (omega (arith, h), move_all-AllWhole n es hs)

take-all {ℓ} : {A : Type ℓ} (n : ℕ) (xs : List A) → length xs ≤ n → take n xs ≡ xs
take-all zero [] h = refl
take-all (suc n) [] h = refl
take-all zero (x ∷ xs) h = absurd (omega arith)
take-all (suc n) (x ∷ xs) h = ap (λ l. x ∷ l) (take-all n xs (omega arith))

-- A whole entry has all that its file has from the place on.
pub left_in-Whole :
    (e : FileEntry) (p : ℕ) → Whole e → e.offset ≤ p → left_in e p ≡ drop p (text_of e)
unfolding left_in tell_in
left_in-Whole e p h placed =
    take-all (e.end - tell_in e p) (drop p (text_of e)) (omega (arith, length-drop p (text_of e)))

left_in-moved : (n : ℕ) (e : FileEntry) → left_in (moved n e) e.offset ≡ left_in e e.offset
unfolding left_in tell_in
left_in-moved n e =
    ap (λ k. take k (drop e.offset (text_of e)))
      {x = e.end + n - (e.start + n + e.offset - e.offset)}
      {y = e.end - (e.start + e.offset - e.offset)} (omega arith)

pub contents-move_all : (n : ℕ) (es : List FileEntry) → contents (move_all n es) ≡ contents es
unfolding contents
contents-move_all n [] = refl
contents-move_all n (e ∷ es) =
    ap (λ l. l ++ contents (move_all n es)) (left_in-moved n e)
    ∙ ap (λ l. left_in e e.offset ++ l) (contents-move_all n es)

pub new_entry-left : (t : List ℕ) (start u : ℕ) → left_in (new_entry t start u) 0 ≡ t
new_entry-left t start u = left_in-Whole (new_entry t start u) 0 (omega arith) (omega arith)

module _ (e : FileEntry) (p n : ℕ) (placed : e.offset ≤ p) where
  pub passed-place : tell_in e p - e.start + e.offset ≡ p
  unfolding tell_in
  passed-place = omega (arith, placed)

  pub rest_of-Whole : p ≤ length (text_of e) → Whole (rest_of e p n)
  unfolding tell_in
  rest_of-Whole inside = omega (arith, placed, inside)

  pub rest_of-left :
      p ≤ length (text_of e) → left_in (rest_of e p n) (rest_of e p n).offset ≡ drop p (text_of e)
  rest_of-left inside =
      left_in-Whole (rest_of e p n) (rest_of e p n).offset (rest_of-Whole inside) (omega arith)
      ∙ ap (λ k. drop k (text_of e)) passed-place
