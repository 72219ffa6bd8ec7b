-- ===== src/Assembler/Directive/Contents.antt =====
-- src/assembler.yy, the arguments of WORD and BYTE.
use mathlib.Core.List.{append_assoc, append-nil}
use kasm.Base.{
  ℕ, ◌+◌, ◌*◌, ◌%◌, ◌^◌, ◌<◌, ◌≡◌, refl, ap, sym, ◌∙◌, none, some, List, [], ◌∷◌, ◌++◌, String,
  maybe, arith, length, length-append, Option-cases, inl, inr,
}
use kasm.Common.{AddressType, data_segment_offset}
use kasm.Builder
use kasm.Builder.{BinaryBuilder, SegmentType, word_bytes, set_location, end}
use kasm.Builder.Buffer.{Stream}
use kasm.Assembler.{AddressData, Assembler, lookup, resolve_address, resolved, resolved_by, emit}
use kasm.Assembler.Directive.{Argument, argument_value, with_binary, write_words, write_bytes}
use kasm.Assembler.Directive.AtEnd.{data_at, write_word-data_at, write_byte-data_at}

-- What an argument stands for with the labels defined so far, and what waits for a label.
abbrev value_of : List (String × ℕ) → Argument → ℕ
value_of labels (Argument.literal v) = v
value_of labels (Argument.label d) = maybe (lookup d.label labels) d.instruction (λ l. l)

abbrev waits_for : List (String × ℕ) → AddressType → ℕ → Argument → List AddressData
waits_for labels ty p (Argument.literal v) = []
waits_for labels ty p (Argument.label d) =
    maybe (lookup d.label labels) (record d { type = ty; position = p } ∷ []) (λ l. [])

abbrev pub low_byte : ℕ → List ℕ
low_byte v = v % 2 ^ 8 ∷ []

abbrev pub all_bytes : (ℕ → List ℕ) → List (String × ℕ) → List Argument → List ℕ
all_bytes f labels [] = []
all_bytes f labels (x ∷ xs) = f (value_of labels x) ++ all_bytes f labels xs

abbrev pub all_waiting : ℕ → AddressType → List (String × ℕ) → ℕ → List Argument → List AddressData
all_waiting step ty labels p [] = []
all_waiting step ty labels p (x ∷ xs) =
    waits_for labels ty p x ++ all_waiting step ty labels (p + step) xs

-- An assembler whose builder is at the end of the data segment.
abbrev pub holding : Assembler → Stream → List ℕ → List AddressData → Assembler
holding a t cs late = record a { binary = data_at t cs; unresolved_address_locations = late }

module _ (a : Assembler) (t : Stream) where
  -- An address whose type leaves the whole word to the label.
  module _ (ty : AddressType)
      (whole : (labels : List (String × ℕ)) (d : AddressData)
        → resolved_by ty labels d
          ≡ maybe (lookup d.label labels) none (λ l. some (record d { instruction = l }))) where
    argument_value-holding :
        (x : Argument) (cs : List ℕ) (late : List AddressData)
        → argument_value ty x (holding a t cs late) ≡ (
          value_of a.label_locations x,
          holding a t cs
              (late ++ waits_for a.label_locations ty (data_segment_offset + length cs) x),
        )
    unfolding argument_value resolve_address resolved
    argument_value-holding (Argument.literal v) cs late =
        ap (λ l. (v, holding a t cs l)) (sym (append-nil late))
    argument_value-holding (Argument.label d) cs late =
        let here = record d { type = ty; position = data_segment_offset + length cs } in
        elim (Option-cases (lookup d.label a.label_locations)) [
          | inl e ↦ rw (whole a.label_locations here, e) refl
          | inr (l, e) ↦
              rw (whole a.label_locations here, e)
                (ap (λ u. (l, holding a t cs u)) (sym (append-nil late)))
        ]

  joined :
      (f : ℕ → List ℕ) (step p q : ℕ) (ty : AddressType) (x : Argument) (xs : List Argument)
      (cs : List ℕ) (late : List AddressData)
      → q ≡ p + step
      → holding a t ((cs ++ f (value_of a.label_locations x)) ++ all_bytes f a.label_locations xs) (
          (late ++ waits_for a.label_locations ty p x)
          ++ all_waiting step ty a.label_locations q xs)
        ≡ holding a t
            (cs ++ all_bytes f a.label_locations (x ∷ xs))
            (late ++ all_waiting step ty a.label_locations p (x ∷ xs))
  joined f step p q ty x xs cs late h = rw (h, append_assoc, append_assoc) refl

  pub write_words-holding :
      (xs : List Argument) (cs : List ℕ) (late : List AddressData)
      → data_segment_offset + length cs + 4 * length xs < 2 ^ 32
      → write_words xs (holding a t cs late)
        ≡ holding a t (cs ++ all_bytes word_bytes a.label_locations xs) (
            late
            ++ all_waiting 4 AddressType.direct_address_absolute_word a.label_locations
                (data_segment_offset + length cs)
                xs)
  unfolding write_words emit word_bytes resolved_by
  write_words-holding [] cs late h = rw (append-nil, append-nil) refl
  write_words-holding (x ∷ xs) cs late h =
      let ty = AddressType.direct_address_absolute_word in
      let v = value_of a.label_locations x in
      let late' = late ++ waits_for a.label_locations ty (data_segment_offset + length cs) x in
      let longer = length-append {0} cs (word_bytes v) in
      ap (λ (r : ℕ × Assembler). write_words xs (emit r.0 r.1))
        (argument_value-holding ty (λ labels d. refl) x cs late)
      ∙ ap (λ b. write_words xs (record a { binary = b; unresolved_address_locations = late' }))
          (write_word-data_at t cs v (omega (arith, h)))
      ∙ write_words-holding xs (cs ++ word_bytes v) late' (omega (arith, h, longer))
      ∙ joined word_bytes 4 (data_segment_offset + length cs) _ ty x xs cs late
          (omega (arith, longer))

  pub write_bytes-holding :
      (xs : List Argument) (cs : List ℕ) (late : List AddressData)
      → data_segment_offset + length cs + length xs < 2 ^ 32
      → write_bytes xs (holding a t cs late)
        ≡ holding a t (cs ++ all_bytes low_byte a.label_locations xs) (
            late
            ++ all_waiting 1 AddressType.direct_address_absolute_byte a.label_locations
                (data_segment_offset + length cs)
                xs)
  unfolding write_bytes resolved_by
  write_bytes-holding [] cs late h = rw (append-nil, append-nil) refl
  write_bytes-holding (x ∷ xs) cs late h =
      let ty = AddressType.direct_address_absolute_byte in
      let v = value_of a.label_locations x in
      let late' = late ++ waits_for a.label_locations ty (data_segment_offset + length cs) x in
      let longer = length-append {0} cs (low_byte v) in
      ap
        (λ (r : ℕ × Assembler).
          write_bytes xs (with_binary r.1 (Builder.write_byte (r.0 % 2 ^ 8) r.1.binary)))
        (argument_value-holding ty (λ labels d. refl) x cs late)
      ∙ ap (λ b. write_bytes xs (record a { binary = b; unresolved_address_locations = late' }))
          (write_byte-data_at t cs (v % 2 ^ 8) (omega (arith, h))
            ∙ ap (λ k. data_at t (cs ++ k ∷ [])) {y = v % 2 ^ 8} (omega arith))
      ∙ write_bytes-holding xs (cs ++ low_byte v) late' (omega (arith, h, longer))
      ∙ joined low_byte 1 (data_segment_offset + length cs) _ ty x xs cs late
          (omega (arith, longer))
