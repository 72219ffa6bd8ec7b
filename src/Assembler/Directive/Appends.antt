-- ===== src/Assembler/Directive/Appends.antt =====
-- src/assembler.yy, what each directive leaves in the data segment.
use mathlib.Core.List.{append_assoc, append-nil}
use kasm.Base.{
  ℕ, zero, suc, ◌+◌, ◌*◌, ◌^◌, ◌≤◌, ◌<◌, ◌≡◌, refl, ap, sym, ◌∙◌, Option, none, some, List, [], ◌∷◌,
  ◌++◌, String, maybe, arith, length, length-append, length-replicate, replicate, ◌==◌, add32,
  le→ltb, Bool-cases, ne_of_==, eq_of_==, inl, inr,
}
use kasm.Common.{AddressType, data_segment_offset}
use kasm.Builder
use kasm.Builder.{BinaryBuilder, SegmentType, word_bytes, set_location, end}
use kasm.Builder.Buffer.{Stream, seek_end}
use kasm.Assembler.{AddressData, Assembler}
use kasm.Assembler.Directive.{
  Directive, with_binary, write_words, alignment_of, aligned, in_data, asserted, assemble_directive,
}
use native.Mathlib.Nat.{pow-suc}
use kasm.Assembler.Directive.AtEnd.{
  data_at, short, short-below, write_string-data_at, pad-data_at, align-data_at,
}
use kasm.Assembler.Directive.Contents.{
  low_byte, all_bytes, all_waiting, holding, write_words-holding, write_bytes-holding,
}

-- The bytes that a directive adds at a location, with the labels defined so far.
abbrev pub contents : List (String × ℕ) → ℕ → Directive → List ℕ
contents labels p (Directive.word xs) = replicate (short p 4) 0 ++ all_bytes word_bytes labels xs
contents labels p (Directive.byte xs) = all_bytes low_byte labels xs
contents labels p (Directive.ascii s) = s
contents labels p (Directive.asciiz s) = s ++ 0 ∷ []
contents labels p (Directive.align n) = replicate (short p (2 ^ n)) 0
contents labels p (Directive.space n) = replicate n 0
contents labels p _ = []

-- The addresses that are left for the end of `assemble`, with their places.
abbrev pub waiting : List (String × ℕ) → ℕ → Directive → List AddressData
waiting labels p (Directive.word xs) =
    all_waiting 4 AddressType.direct_address_absolute_word labels (p + short p 4) xs
waiting labels p (Directive.byte xs) =
    all_waiting 1 AddressType.direct_address_absolute_byte labels p xs
waiting labels p _ = []

add32_small : (a b : ℕ) → a + b < 2 ^ 32 → add32 a b ≡ a + b
unfolding add32
add32_small a b h = omega arith

-- There is room in the address space.
abbrev pub Fits : ℕ → Directive → Type 0
Fits p (Directive.word xs) = p + 4 + 4 * length xs < end
Fits p (Directive.byte xs) = p + length xs < end
Fits p (Directive.ascii s) = p + length s < end
Fits p (Directive.asciiz s) = p + length s + 1 < end
Fits p (Directive.align n) = p + 2 ^ n < end
Fits p (Directive.space n) = p + n < end
Fits p Directive.data_type = p < end
Fits p Directive.text = ⊥

alignment_of-power : (n : ℕ) → 2 ^ n < 2 ^ 32 → (alignment_of n ≡ 2 ^ n) × (0 < 2 ^ n)
unfolding alignment_of
alignment_of-power zero h = (refl, omega arith)
alignment_of-power (suc n) h =
    let twice = pow-suc 2 n in
    let (e, pos) = alignment_of-power n (omega (arith, h, twice)) in
    (omega (arith, e, h, twice), omega (arith, pos, twice))

alignment_of-none : (n : ℕ) → 32 ≤ n → alignment_of n ≡ 0
unfolding alignment_of
alignment_of-none zero h = absurd (omega arith)
alignment_of-none (suc n) h = elim (Bool-cases (n == 31)) [
  | inl e ↦ ap (λ k. alignment_of (suc k)) (eq_of_== n 31 e)
  | inr e ↦ let z = alignment_of-none n (omega (arith, h, ne_of_== n 31 e)) in omega (arith, z)
]

module _ (a : Assembler) (t : Stream) (cs : List ℕ) (late : List AddressData) where
  abbrev place : ℕ
  place = data_segment_offset + length cs

  in_data-holding : (r : Option Assembler) → in_data (holding a t cs late) r ≡ r
  unfolding Builder.get_segment_type
  in_data-holding r = rw (le→ltb place data_segment_offset (omega arith)) refl

  aligned-holding :
      (n : ℕ)
      → 0 < n
      → place + n < end
      → aligned n (holding a t cs late)
        ≡ some (holding a t (cs ++ replicate (short place n) 0) late)
  aligned-holding n pos h = rw (align-data_at t cs n pos h) refl

-- The state after a directive at the end of the data segment.
abbrev pub Appends : Directive → Assembler → Stream → List ℕ → List AddressData → Type 0
Appends d a t cs late =
    let p = data_segment_offset + length cs in
    assemble_directive d (holding a t cs late)
    ≡ some
        (holding a t (cs ++ contents a.label_locations p d) (late ++ waiting a.label_locations p d))

-- Every directive but TEXT, met at the end of the data segment with room in the address space, returns
-- with the builder at the end of the data segment again: it has added its arguments as words or bytes,
-- its string, or its zeros, after zeros up to the next multiple of 4 for WORD and of 2 ^ n for ALIGN n;
-- a label that is defined is its place, and one that is not waits for the end of the assembly with
-- the place that its argument has.
pub assemble_directive-Appends :
    (d : Directive) (a : Assembler) (t : Stream) (cs : List ℕ) (late : List AddressData)
    → Fits (data_segment_offset + length cs) d
    → Appends d a t cs late
unfolding assemble_directive Builder.set_segment_type seek_end
assemble_directive-Appends Directive.text a t cs late h = absurd h
assemble_directive-Appends Directive.data_type a t cs late h =
    rw (append-nil, append-nil)
      (ap (λ c. some (with_binary (holding a t cs late) (record (data_at t cs) { cursor = c })))
        (add32_small data_segment_offset (length cs) (omega (arith, h))))
assemble_directive-Appends (Directive.word xs) a t cs late h =
    let p = data_segment_offset + length cs in
    let zeros : List ℕ = replicate (short p 4) 0 in
    let reach : short p 4 < 4 = short-below p 4 (omega arith) in
    let longer = length-append {0} cs zeros in
    let padding = length-replicate {0} {A = ℕ} (short p 4) 0 in
    in_data-holding a t cs late _
    ∙ ap (λ r. maybe r none (λ a'. some (write_words xs a')))
        (aligned-holding a t cs late 4 (omega arith) (omega (arith, h)))
    ∙ ap some
        (write_words-holding a t xs (cs ++ zeros) late (omega (arith, h, longer, padding, reach)))
    ∙ ap some (
        rw append_assoc (
          ap
            (λ k. holding a t (cs ++ (zeros ++ all_bytes word_bytes a.label_locations xs)) (
              late
              ++ all_waiting 4 AddressType.direct_address_absolute_word a.label_locations k xs))
            (omega (arith, longer, padding))))
assemble_directive-Appends (Directive.byte xs) a t cs late h =
    in_data-holding a t cs late _ ∙ ap some (write_bytes-holding a t xs cs late (omega (arith, h)))
assemble_directive-Appends (Directive.ascii s) a t cs late h =
    in_data-holding a t cs late _
    ∙ rw (write_string-data_at t cs s (omega (arith, h)), append-nil) refl
assemble_directive-Appends (Directive.asciiz s) a t cs late h =
    in_data-holding a t cs late _
    ∙ rw
        (
          write_string-data_at t cs (s ++ 0 ∷ []) (omega (arith, h, length-append {0} s (0 ∷ []))),
          append-nil,
        )
        refl
assemble_directive-Appends (Directive.align n) a t cs late h =
    let (e, pos) = alignment_of-power n (omega (arith, h)) in
    in_data-holding a t cs late _
    ∙ ap (λ k. aligned k (holding a t cs late)) e
    ∙ aligned-holding a t cs late (2 ^ n) pos h
    ∙ ap
        (λ l.
          some
            (holding a t (cs ++ replicate (short (data_segment_offset + length cs) (2 ^ n)) 0) l))
        (sym (append-nil late))
assemble_directive-Appends (Directive.space n) a t cs late h =
    in_data-holding a t cs late _ ∙ rw (pad-data_at t cs n h, append-nil) refl

asserted-none : (k : SegmentType) → asserted k none ≡ none
asserted-none SegmentType.text = refl
asserted-none SegmentType.data_type = refl

-- ALIGN by 32 or more divides by zero, or fails its assertion in the text segment.
pub align_directive-beyond :
    (n : ℕ) (a : Assembler) → 32 ≤ n → assemble_directive (Directive.align n) a ≡ none
unfolding assemble_directive Builder.align
align_directive-beyond n a h =
    ap (λ k. in_data a (aligned k a)) (alignment_of-none n h) ∙ asserted-none _
