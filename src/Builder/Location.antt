-- ===== src/Builder/Location.antt =====
-- src/binaryBuilder.cpp, `setLocation`, `pad`, `align` and the writes: where the cursor and the put
-- positions stand, and what the data segment holds.
use kasm.Base.{
  ℕ, zero, suc, ◌+◌, ◌-◌, ◌%◌, ◌^◌, ◌≤◌, ◌<◌, ◌≡◌, refl, ap, sym, ◌∙◌, List, [], ◌∷◌, ◌++◌, arith,
  ltb, length, length-append, length-replicate, replicate, Bool-cases, ==_of_ne, le→ltb, lt→ltb,
  inl, inr, ltb→lt, ltb→le,
}
use mathlib.Core.List.{append_assoc, append-nil}
use kasm.Common.{data_segment_offset}
use kasm.Builder.Buffer.{Stream, write, seek_end, seek_to, write-at_end}
use kasm.Builder.{
  BinaryBuilder, write_byte, fill, set_data_location, set_text_location, set_location, end,
}

-- A buffer with its put position at the end.
abbrev pub at_end : List ℕ → Stream
at_end cs = record { chars = cs; put = length cs }

append_zeros : (cs : List ℕ) (n : ℕ) → (cs ++ 0 ∷ []) ++ replicate n 0 ≡ cs ++ replicate (suc n) 0
append_zeros cs n = append_assoc cs (0 ∷ []) (replicate n 0)

pub write-append : (bs cs : List ℕ) → write bs (at_end cs) ≡ at_end (cs ++ bs)
write-append bs cs =
    write-at_end bs (at_end cs) refl
    ∙ ap (λ n. record { chars = cs ++ bs; put = n }) (sym (length-append cs bs))

write_zero-at_end : (cs : List ℕ) → write (0 % 2 ^ 8 ∷ []) (at_end cs) ≡ at_end (cs ++ 0 ∷ [])
write_zero-at_end cs = write-append (0 ∷ []) cs

-- Zero bytes that are written at the end of the data segment lengthen it, and the text segment
-- stays.
fill-data :
    (n : ℕ) (b : BinaryBuilder) (cs : List ℕ)
    → b.data_segment ≡ at_end cs
    → ((fill n b).data_segment ≡ at_end (cs ++ replicate n 0))
      × ((fill n b).text_segment ≡ b.text_segment)
unfolding fill write_byte
fill-data zero b cs h = (h ∙ ap at_end (sym (append-nil cs)), refl)
fill-data (suc n) b cs h =
    let grown = write_byte 0 b in
    let step : grown.data_segment ≡ at_end (cs ++ 0 ∷ []) = rw h (write_zero-at_end cs) in
    let (data_part, text_part) = fill-data n grown (cs ++ 0 ∷ []) step in
    (data_part ∙ ap at_end (append_zeros cs n), text_part)

-- Where the data segment's buffer ends after `setLocation`: nowhere else if the place is in it, and
-- at the place if that is farther, with zeros between.
abbrev pub grown_to : ℕ → List ℕ → List ℕ
grown_to k cs = cs ++ replicate (k - length cs) 0

-- What `setLocation` promises for a place in the data segment.
pub record AtData (location : ℕ) (b r : BinaryBuilder) : Type 0 where
  pub cursor_at : r.cursor ≡ location
  pub put_at : r.data_segment.put ≡ location - data_segment_offset
  pub grown : r.data_segment.chars ≡ grown_to (location - data_segment_offset) b.data_segment.chars
  pub text_same : r.text_segment ≡ b.text_segment

module _ (location : ℕ) (b : BinaryBuilder) (above : data_segment_offset ≤ location) where
  set_data_location-within :
      location - data_segment_offset ≤ length b.data_segment.chars
      → AtData location b (record (set_data_location location b) { cursor = location })
  unfolding set_data_location seek_to
  set_data_location-within h =
      rw (le→ltb (length b.data_segment.chars) (location - data_segment_offset) h) (record {
        cursor_at = refl;
        put_at = refl;
        grown =
            sym (append-nil _)
            ∙ ap (λ n. b.data_segment.chars ++ replicate n 0) {x = 0} (omega arith);
        text_same = refl;
      })

  set_data_location-beyond :
      length b.data_segment.chars < location - data_segment_offset
      → AtData location b (record (set_data_location location b) { cursor = location })
  unfolding set_data_location seek_end
  set_data_location-beyond h =
      let cs = b.data_segment.chars in
      let (data_part, text_part) =
        fill-data (location - (data_segment_offset + length cs))
          (record b {
            data_segment = seek_end b.data_segment;
            cursor = data_segment_offset + length cs;
          })
          cs refl in
      rw (lt→ltb (length b.data_segment.chars) (location - data_segment_offset) h) (record {
        cursor_at = refl;
        put_at =
            ap (λ (t : Stream). t.put) data_part
            ∙ omega (
              arith,
              length-append {0} cs (replicate (location - (data_segment_offset + length cs)) 0),
              length-replicate {0} {A = ℕ} (location - (data_segment_offset + length cs)) 0,
            );
        grown =
            ap (λ (t : Stream). t.chars) data_part ∙ ap (λ n. cs ++ replicate n 0) (omega arith);
        text_same = text_part;
      })

data-at_end :
    (b : BinaryBuilder)
    → b.data_segment.put ≡ length b.data_segment.chars
    → b.data_segment ≡ at_end b.data_segment.chars
data-at_end b h = ap (λ n. record { chars = b.data_segment.chars; put = n }) h

-- `setLocation` at a place of the data segment below 0xFFFFFFFF: the cursor and the put position stand
-- at the place, the data segment has its bytes and zeros up to the place if it was shorter, and the
-- text segment is as it was.
pub set_location-AtData :
    (location : ℕ) (b : BinaryBuilder)
    → data_segment_offset ≤ location
    → location < end
    → AtData location b (set_location location b)
unfolding set_location
set_location-AtData location b above below =
    rw (==_of_ne location end (omega arith), le→ltb location data_segment_offset above)
      (elim (Bool-cases (ltb (length b.data_segment.chars) (location - data_segment_offset))) [
        | inl h ↦ set_data_location-beyond location b above (ltb→lt _ _ h)
        | inr h ↦ set_data_location-within location b above (ltb→le _ _ h)
      ])

-- `setLocation` at a place of the text segment past its end, with the data segment's put position at
-- its end, sets the cursor to the place, but leaves the text as it was with the put position at its
-- end, and writes the missing bytes to the data segment.
pub set_location-text_beyond :
    (location : ℕ) (b : BinaryBuilder)
    → length b.text_segment.chars < location
    → location < data_segment_offset
    → b.data_segment.put ≡ length b.data_segment.chars
    → ((set_location location b).cursor ≡ location)
      × ((set_location location b).text_segment ≡ at_end b.text_segment.chars)
      × ((set_location location b).data_segment.chars
          ≡ b.data_segment.chars ++ replicate (location - length b.text_segment.chars) 0)
unfolding set_location set_text_location seek_end
set_location-text_beyond location b beyond below ended =
    let size = length b.text_segment.chars in
    let start = record b { text_segment = seek_end b.text_segment; cursor = size } in
    let (data_part, text_part) =
      fill-data (location - size) start b.data_segment.chars (data-at_end b ended) in
    rw
      (
        ==_of_ne location end (omega arith),
        lt→ltb location data_segment_offset below,
        lt→ltb size location beyond,
      )
      (refl, text_part, ap (λ (t : Stream). t.chars) data_part)
