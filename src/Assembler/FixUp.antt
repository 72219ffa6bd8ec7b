-- ===== src/Assembler/FixUp.antt =====
-- src/assembler.yy, the loop at the end of `assemble`: what a late address changes.
use kasm.Base.{
  ℕ, ◌+◌, ◌-◌, ◌≤◌, ◌<◌, ◌≡◌, ◌≢◌, refl, ap, ◌∙◌, sym, false, none, some, List, [], ◌∷◌, ◌++◌,
  String, str_eq, add32, sub32, Bool-cases, length, get_or, ◌⊎◌, inl, inr, arith,
}
use kasm.Common.{
  set_register1, set_direct_address_absolute, set_direct_address_offset, AddressType,
  data_segment_offset,
}
use mathlib.Core.Path.{subst}
use kasm.Builder as Builder
use kasm.Builder.{BinaryBuilder}
use kasm.Builder.Patch.{Patched, write_word-set_location}
use kasm.Assembler.{
  AddressData, Assembler, Error, Result, ok, err, ◌>>=◌, lookup, resolved, resolved_by, load_words,
  must_resolve, fix_up, fix_all, emit, write_resolved,
}

-- An address of a type that `resolveAddress` treats, with a label that the table has.
abbrev pub Known : List (String × ℕ) → AddressData → Type 0
Known t d = (d.type ≢ AddressType.invalid) × ((l : ℕ) × (lookup d.label t ≡ some l))

abbrev pub AllKnown : List (String × ℕ) → List AddressData → Type 0
AllKnown t [] = Unit
AllKnown t (d ∷ ds) = Known t d × AllKnown t ds

abbrev Resolves : AddressType → List (String × ℕ) → AddressData → Type 0
Resolves ty t d = (d' : AddressData) × (resolved_by ty t d ≡ some d')

Known-Resolves :
    (ty : AddressType) (t : List (String × ℕ)) (d : AddressData) (l : ℕ)
    → ty ≢ AddressType.invalid
    → lookup d.label t ≡ some l
    → Resolves ty t d
unfolding resolved_by
Known-Resolves AddressType.invalid t d l valid h = absurd (valid refl)
Known-Resolves AddressType.direct_address_absolute t d l valid h =
    (record d { instruction = set_direct_address_absolute d.instruction l }, rw h refl)
Known-Resolves AddressType.direct_address_offset t d l valid h = (
  record d { instruction = set_direct_address_offset d.instruction (sub32 l d.position) },
  rw h refl,
)
Known-Resolves AddressType.indirect_address_offset t d l valid h =
    let w = set_register1 d.instruction d.reg in
    elim (Bool-cases (str_eq d.label "")) [
      | inl e ↦ (
        record d { instruction = set_direct_address_offset w (sub32 d.offset d.position) },
        rw e refl,
      )
      | inr e ↦ (
        record d {
          instruction = set_direct_address_offset w (sub32 (add32 l d.offset) d.position);
        },
        rw (e, h) refl,
      )
    ]
Known-Resolves _ t d l valid h = (record d { instruction = l }, rw h refl)

missing-Resolves :
    (ty : AddressType) (t : List (String × ℕ)) (d : AddressData)
    → str_eq d.label "" ≡ false
    → lookup d.label t ≡ none
    → resolved_by ty t d ≡ none
unfolding resolved_by
missing-Resolves AddressType.invalid t d named h = refl
missing-Resolves AddressType.indirect_address_offset t d named h = rw (named, h) refl
missing-Resolves _ t d named h = rw h refl

write_resolved-labels :
    (ty : AddressType) (g g' : ℕ) (d : AddressData) (a : Assembler)
    → (write_resolved ty g g' d a).label_locations ≡ a.label_locations
unfolding load_words emit
write_resolved-labels AddressType.invalid g g' d a = refl
write_resolved-labels AddressType.direct_address_absolute g g' d a = refl
write_resolved-labels AddressType.direct_address_offset g g' d a = refl
write_resolved-labels AddressType.indirect_address_offset g g' d a = refl
write_resolved-labels AddressType.direct_address_absolute_word g g' d a = refl
write_resolved-labels AddressType.direct_address_absolute_byte g g' d a = refl
write_resolved-labels AddressType.direct_address_absolute_load g g' d a = refl

-- A round at a known address returns, and keeps the labels.
fix_up-Known :
    (g g' : ℕ) (d : AddressData) (a : Assembler)
    → Known a.label_locations d
    → (b : Assembler) × (fix_up g g' d a ≡ ok b) × (b.label_locations ≡ a.label_locations)
unfolding fix_up must_resolve resolved
fix_up-Known g g' d a (valid, (l, h)) =
    let back = record a { binary = Builder.set_location d.position a.binary } in
    let (d', e) = Known-Resolves d.type a.label_locations d l valid h in
    (write_resolved d'.type g g' d' back, rw e refl, write_resolved-labels d'.type g g' d' back)

-- The loop ends with the error that names its label at the first late address whose label no
-- definition has, where the label of every address before it is defined, whatever stands after it.
pub fix_all-unresolved :
    (g g' : ℕ → ℕ) (before : List AddressData) (d : AddressData) (after : List AddressData)
    (a : Assembler)
    → AllKnown a.label_locations before
    → str_eq d.label "" ≡ false
    → lookup d.label a.label_locations ≡ none
    → fix_all g g' (before ++ d ∷ after) a ≡ err (Error.unresolved_label d.label)
unfolding fix_all fix_up must_resolve resolved
fix_all-unresolved g g' [] d after a known named missing =
    rw (missing-Resolves d.type a.label_locations d named missing) refl
fix_all-unresolved g g' (e ∷ before) d after a (known, rest) named missing =
    let n = length (before ++ d ∷ after) in
    let (b, first, labels) = fix_up-Known (g n) (g' n) e a known in
    ap (λ (r : Result Assembler). r >>= λ a'. fix_all g g' (before ++ d ∷ after) a') first
    ∙ fix_all-unresolved g g' before d after b (subst (λ t. AllKnown t before) (sym labels) rest)
        named (ap (lookup d.label) labels ∙ missing)

-- An address that stands in one word: the types of jumps, branches, loads and stores, and `.word`.
pub data InWord : AddressType → Type 0 where
  absolute : InWord AddressType.direct_address_absolute
  offset : InWord AddressType.direct_address_offset
  indirect : InWord AddressType.indirect_address_offset
  word : InWord AddressType.direct_address_absolute_word

write_resolved-InWord :
    {t : AddressType} (g g' : ℕ) (d : AddressData) (a : Assembler)
    → InWord t
    → write_resolved t g g' d a ≡ emit d.instruction a
write_resolved-InWord g g' d a InWord.absolute = refl
write_resolved-InWord g g' d a InWord.offset = refl
write_resolved-InWord g g' d a InWord.indirect = refl
write_resolved-InWord g g' d a InWord.word = refl

-- A late address whose word lies within the text segment, and the word that its label gives it.
pub record Late (a : Assembler) (d : AddressData) (w : ℕ) : Type 0 where
  pub in_word : InWord d.type
  pub inside : d.position + 4 ≤ length a.binary.text_segment.chars
  pub below : d.position < data_segment_offset
  pub known : resolved a.label_locations d ≡ some (record d { instruction = w })

-- One round of the loop, at a late address that stands in one word of the text segment and has a
-- label, returns; it replaces the word by the one that the label gives, and keeps every other byte of
-- the text, the data segment and the labels.
pub fix_up-Patched :
    (g g' w : ℕ) (d : AddressData) (a : Assembler)
    → Late a d w
    → (b : Assembler) × (fix_up g g' d a ≡ ok b)
      × Patched d.position w a.binary b.binary
      × (b.label_locations ≡ a.label_locations)
unfolding fix_up must_resolve emit
fix_up-Patched g g' w d a late =
    let back = record a { binary = Builder.set_location d.position a.binary } in
    (
      emit w back,
      rw late.known
          (ap ok (write_resolved-InWord g g' (record d { instruction = w }) back late.in_word)),
      write_word-set_location d.position w a.binary late.inside late.below,
      refl,
    )

-- Every address of a list is late, and has a word.
abbrev pub AllLate : Assembler → List AddressData → Type 0
AllLate a [] = Unit
AllLate a (d ∷ ds) = ((w : ℕ) × Late a d w) × AllLate a ds

-- The byte at `i` is in none of the list's places.
abbrev pub Outside : ℕ → List AddressData → Type 0
Outside i [] = Unit
Outside i (d ∷ ds) = ((i < d.position) ⊎ (d.position + 4 ≤ i)) × Outside i ds

-- The text after the loop: as long as before, and the same byte wherever no late address stands.
pub record Fixed (ds : List AddressData) (a b : Assembler) : Type 0 where
  pub same_length : length b.binary.text_segment.chars ≡ length a.binary.text_segment.chars
  pub same_labels : b.label_locations ≡ a.label_locations
  pub data_same : b.binary.data_segment ≡ a.binary.data_segment
  pub others :
      (i : ℕ)
      → Outside i ds
      → get_or b.binary.text_segment.chars i 0 ≡ get_or a.binary.text_segment.chars i 0

Patched-outside :
    {k w i : ℕ} {b r : BinaryBuilder}
    → Patched k w b r
    → (i < k) ⊎ (k + 4 ≤ i)
    → get_or r.text_segment.chars i 0 ≡ get_or b.text_segment.chars i 0
Patched-outside p (inl h) = p.before_same _ h
Patched-outside {k} {i = i} {b} {r} p (inr h) =
    let e : k + 4 + (i - (k + 4)) ≡ i = omega arith in
    subst (λ j. get_or r.text_segment.chars j 0 ≡ get_or b.text_segment.chars j 0) e
      (p.after_same (i - (k + 4)))

Late-next :
    {a b : Assembler} {d : AddressData} {w : ℕ}
    → b.label_locations ≡ a.label_locations
    → length b.binary.text_segment.chars ≡ length a.binary.text_segment.chars
    → Late a d w
    → Late b d w
Late-next labels long late = record {
  in_word = late.in_word;
  inside = omega (arith, late.inside, long);
  below = late.below;
  known = rw labels late.known;
}

AllLate-next :
    (a b : Assembler) (ds : List AddressData)
    → b.label_locations ≡ a.label_locations
    → length b.binary.text_segment.chars ≡ length a.binary.text_segment.chars
    → AllLate a ds
    → AllLate b ds
AllLate-next a b [] labels long h = tt
AllLate-next a b (d ∷ ds) labels long ((w, h), hs) =
    ((w, Late-next labels long h), AllLate-next a b ds labels long hs)

-- The loop over late addresses that each stand in one word of the text segment and have a label
-- returns, and leaves a text of the same length with the same bytes outside these words, the same
-- labels and the same data segment.
pub fix_all-Fixed :
    (g g' : ℕ → ℕ) (ds : List AddressData) (a : Assembler)
    → AllLate a ds
    → (b : Assembler) × (fix_all g g' ds a ≡ ok b) × Fixed ds a b
unfolding fix_all
fix_all-Fixed g g' [] a h = (
  a,
  refl,
  record { same_length = refl; same_labels = refl; data_same = refl; others = λ i o. refl },
)
fix_all-Fixed g g' (d ∷ ds) a ((w, late), rest) =
    let (b, e, patch, labels) = fix_up-Patched (g (length ds)) (g' (length ds)) w d a late in
    let (c, e', fixed) =
      fix_all-Fixed g g' ds b (AllLate-next a b ds labels patch.same_length rest) in
    (
      c,
      rw e e',
      record {
        same_length = fixed.same_length ∙ patch.same_length;
        same_labels = fixed.same_labels ∙ labels;
        data_same = fixed.data_same ∙ patch.data_same;
        others = λ i o. fixed.others i o.1 ∙ Patched-outside patch o.0;
      },
    )
