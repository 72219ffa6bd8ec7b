-- ===== src/CompoundInput/Strings.antt =====
-- src/compoundInputFileStream.cpp, `pushString`, `include`: texts under their names.
use kasm.Base.{
  ℕ, ◌≡◌, ◌≢◌, refl, sym, ap, ◌∙◌, Bool, Option, none, some, List, [], ◌++◌, String, maybe,
}
use kasm.Assembler.{lookup, insert}
use kasm.CompoundInput.{CompoundInputFileStream, ok}
use kasm.CompoundInput.Push.{push_entry, with_file, push_string}
use kasm.CompoundInput.Remaining.{remaining}
use kasm.CompoundInput.Entry.{
  Ready, SamePlace, SamePlace-Ready, SamePlace-remaining, push_entry-PushesEntry,
}

-- The text under the name, if there is one, is that of the string.
abbrev pub Unclaimed : (String → List ℕ) → String → CompoundInputFileStream → Type 0
Unclaimed codes str s = (t : List ℕ) → lookup str s.files ≡ some t → t ≡ codes str

record Named (t : List ℕ) (s : CompoundInputFileStream) (x : List ℕ × CompoundInputFileStream)
    : Type 0 where
  pub text : x.0 ≡ t
  pub place : SamePlace s x.1

Named-maybe :
    (o : Option (List ℕ)) (t : List ℕ) (s s' : CompoundInputFileStream)
    → ((t' : List ℕ) → o ≡ some t' → t' ≡ t)
    → SamePlace s s'
    → Named t s (maybe o (t, s') (λ t'. (t', s)))
Named-maybe none t s s' h p = record { text = refl; place = p }
Named-maybe (some t') t s s' h p = record {
  text = h t' refl;
  place = record { same_stream = refl; same_after = refl; same_position = refl };
}

with_file-Named :
    (codes : String → List ℕ) (str : String) (s : CompoundInputFileStream)
    → Unclaimed codes str s
    → Named (codes str) s (with_file str (codes str) s)
unfolding with_file
with_file-Named codes str s h =
    Named-maybe (lookup str s.files) (codes str) s _ h
      (record { same_stream = refl; same_after = refl; same_position = refl })

abbrev pub PushesString : (String → List ℕ) → String → Bool → CompoundInputFileStream → Type 0
PushesString codes str b s =
    (u : ℕ) × (s' : CompoundInputFileStream) × (push_string codes str b s ≡ ok (u, s'))
    × (remaining s' ≡ codes str ++ remaining s)
    × Ready s'

-- On a ready stream with text left, `pushString` of a string whose name is not taken by another
-- text returns, numbered or not: the text that is left is the string before what was left, and the
-- stream is ready.
pub push_string-PushesString :
    (codes : String → List ℕ) (str : String) (b : Bool) (s : CompoundInputFileStream)
    → Ready s
    → remaining s ≢ []
    → Unclaimed codes str s
    → PushesString codes str b s
unfolding push_string
push_string-PushesString codes str b s ready ne free =
    let (t, s1) = with_file str (codes str) s in
    let w = with_file-Named codes str s free in
    let same : remaining s1 ≡ remaining s = SamePlace-remaining w.place in
    let (u, s', pushed, left, r) =
      push_entry-PushesEntry t b s1 (SamePlace-Ready w.place ready) (λ e. ne (sym same ∙ e)) in
    (u, s', pushed, left ∙ ap (λ x. x ++ remaining s1) w.text ∙ ap (λ x. codes str ++ x) same, r)

-- A string that is the name of a file that was read stands for the text of this file: that is what is
-- inserted.
pub push_string-claimed :
    (codes : String → List ℕ) (str : String) (b : Bool) (s : CompoundInputFileStream) (t : List ℕ)
    → lookup str s.files ≡ some t
    → push_string codes str b s ≡ push_entry t b s
unfolding push_string with_file
push_string-claimed codes str b s t h =
    ap
      (λ o.
        let x : List ℕ × CompoundInputFileStream =
          maybe o (codes str, record s { files = insert str (codes str) s.files })
            (λ t'. (t', s)) in
        push_entry x.0 b x.1)
      h
