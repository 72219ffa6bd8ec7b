-- ===== src/CompoundInput/Remaining.antt =====
-- src/compoundInputFileStream.cpp, `eof`: the text that is left to read, and that the loop keeps it.
use kasm.Base.{
  ℕ, zero, suc, ◌-◌, ◌≤◌, ◌<◌, ◌≡◌, refl, ap, ◌∙◌, Bool, true, false, ◌||◌, Option, none, some,
  List, [], ◌∷◌, ◌++◌, leb, length, take, drop, get_or, maybe, arith, Bool-cases, inl, inr, leb→le,
}
use kasm.CompoundInput.{FileEntry, CompoundInputFileStream, is_stub, text_of, tell_in, ended}

-- What an entry has left, read from a place of its stream.
unfoldable pub left_in : FileEntry → ℕ → List ℕ
unfolding tell_in
left_in e position = take (e.end - tell_in e position) (drop position (text_of e))

-- What entries that have not been reached add.
unfoldable pub contents : List FileEntry → List ℕ
unfolding left_in
contents [] = []
contents (e ∷ es) = left_in e e.offset ++ contents es

unfoldable pub left_from : List FileEntry → ℕ → List ℕ
unfolding left_in contents
left_from [] position = []
left_from (e ∷ es) position = left_in e position ++ contents es

-- The text that is left to read.
unfoldable pub remaining : CompoundInputFileStream → List ℕ
unfolding left_from
remaining s = maybe s.in_stream [] (λ _. left_from s.after s.position)

-- `it` is on an entry of a text, `in` is its stream, placed in it or past it.
pub record On (e : FileEntry) (s : CompoundInputFileStream) : Type 0 where
  pub text : List ℕ
  pub has_text : e.file ≡ some text
  pub in_text : s.in_stream ≡ some text
  pub placed : e.offset ≤ s.position

-- What `eof` leaves, and the text `r` that is left there: the end; a byte that can be read; or, where
-- stubs are asked for, a stub.
pub data Reached (give : Bool) (r : List ℕ) : Bool × CompoundInputFileStream → Type 0 where
  past_end :
      {s : CompoundInputFileStream}
      → r ≡ []
      → s.in_stream ≡ none
      → s.after ≡ []
      → Reached give r (true, s)
  at_byte :
      {s : CompoundInputFileStream} {e : FileEntry} {rest : List FileEntry}
      → s.after ≡ e ∷ rest
      → On e s
      → ended e s.position ≡ false
      → left_from (e ∷ rest) s.position ≡ r
      → Reached give r (false, s)
  at_stub :
      {s : CompoundInputFileStream} {e : FileEntry} {rest : List FileEntry}
      → give ≡ true
      → s.after ≡ e ∷ rest
      → e.file ≡ none
      → contents rest ≡ r
      → Reached give r (false, s)

module _ {ℓ} {A : Type ℓ} where
  take-empty : (n : ℕ) → take {A = A} n [] ≡ []
  take-empty zero = refl
  take-empty (suc n) = refl

  take-nothing : (n : ℕ) {xs : List A} → xs ≡ [] → take n xs ≡ []
  take-nothing n h = ap (take n) h ∙ take-empty n

  drop-all : (n : ℕ) (xs : List A) → length xs ≤ n → drop n xs ≡ []
  drop-all zero [] h = refl
  drop-all (suc n) [] h = refl
  drop-all zero (x ∷ xs) h = absurd (omega arith)
  drop-all (suc n) (x ∷ xs) h = drop-all n xs (omega arith)

  take-zero : (n : ℕ) (xs : List A) → n ≡ 0 → take n xs ≡ []
  take-zero zero xs h = refl
  take-zero (suc n) xs h = absurd (omega arith)

  -- The front of what is left at a place of a list.
  pub take-drop-front :
      (n i : ℕ) (xs : List A) (d : A)
      → i < length xs
      → take (suc n) (drop i xs) ≡ get_or xs i d ∷ take n (drop (suc i) xs)
  take-drop-front n i [] d h = absurd (omega arith)
  take-drop-front n zero (x ∷ xs) d h = refl
  take-drop-front n (suc i) (x ∷ xs) d h = take-drop-front n i xs d (omega arith)

stub_length :
    (f : Option (List ℕ))
    → maybe f true (λ _. false) ≡ true
    → (p : ℕ) → length (maybe f [] (λ t. t)) ≤ p
stub_length none h p = omega arith
stub_length (some t) h p = cc

other_holds : (a b : Bool) → a ≡ false → (a || b) ≡ true → b ≡ true
other_holds false b e h = h
other_holds true b e h = cc

-- An entry that is over, or a stub, has nothing left.
left_in-ended : (e : FileEntry) (p : ℕ) → ended e p ≡ true → left_in e p ≡ []
unfolding left_in ended
left_in-ended e p h = elim (Bool-cases (leb (length (text_of e)) p)) [
  | inl over ↦ take-nothing (e.end - tell_in e p) (drop-all p (text_of e) (leb→le _ _ over))
  | inr inside ↦
      take-zero (e.end - tell_in e p) (drop p (text_of e))
        (omega (arith, leb→le e.end (tell_in e p) (other_holds _ _ inside h)))
]

pub left_in-stub : (e : FileEntry) (p : ℕ) → is_stub e ≡ true → left_in e p ≡ []
unfolding left_in
left_in-stub e p h =
    take-nothing (e.end - tell_in e p) (drop-all p (text_of e) (stub_length (e.file) h p))

pub left_in-over : (e : FileEntry) (p : ℕ) → is_stub e || ended e p ≡ true → left_in e p ≡ []
left_in-over e p h = elim (Bool-cases (is_stub e)) [
  | inl b ↦ left_in-stub e p b
  | inr b ↦ left_in-ended e p (other_holds _ _ b h)
]
