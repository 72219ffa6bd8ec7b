-- ===== src/Builder.antt =====
-- src/binaryBuilder.hpp, src/binaryBuilder.cpp: the two segments of a program while it is written.
pub mod Buffer
pub mod Location
pub mod Image
pub mod Align
pub mod Patch
use kasm.Base.{
  ℕ, zero, suc, ◌+◌, ◌-◌, ◌*◌, ◌/◌, ◌%◌, ◌^◌, Bool, Option, none, some, List, [], ◌∷◌, ◌++◌, ltb,
  leb, ◌==◌, if◌then◌else◌, add32, length, take,
}
use kasm.Common.{data_segment_offset, ProgramHeader}
use kasm.Builder.Buffer.{Stream, empty, write, seek_end, seek_to}

pub record BinaryBuilder : Type 0 where
  pub cursor : ℕ
  pub text_segment : Stream
  pub data_segment : Stream

pub data SegmentType : Type 0 where
  text data_type : SegmentType

abbrev pub end : ℕ
end = 2 ^ 32 - 1

-- `open`: both streams are emptied.
unfoldable pub open_builder : BinaryBuilder
open_builder = record { cursor = 0; text_segment = empty; data_segment = empty }

-- The bytes of a word in memory, lowest first.
unfoldable pub word_bytes : ℕ → List ℕ
word_bytes w = (w % 2 ^ 8) ∷ (w / 2 ^ 8 % 2 ^ 8) ∷ (w / 2 ^ 16 % 2 ^ 8) ∷ (w / 2 ^ 24 % 2 ^ 8) ∷ []

unfoldable pub write_word : ℕ → BinaryBuilder → BinaryBuilder
write_word w b =
    if ltb b.cursor data_segment_offset
    then record b { text_segment = write (word_bytes w) b.text_segment; cursor = add32 b.cursor 4 }
    else record b { data_segment = write (word_bytes w) b.data_segment; cursor = add32 b.cursor 4 }

-- The bytes go to the data segment wherever the cursor stands.
unfoldable pub write_byte : ℕ → BinaryBuilder → BinaryBuilder
write_byte v b = record b {
  data_segment = write (v % 2 ^ 8 ∷ []) b.data_segment;
  cursor = add32 b.cursor 1;
}

-- `writeData` and `writeString`.
unfoldable pub write_string : List ℕ → BinaryBuilder → BinaryBuilder
write_string s b = record b {
  data_segment = write s b.data_segment;
  cursor = add32 b.cursor (length s);
}

-- `while (cursor < location) writeByte(0)`, with the rounds that are left.
unfoldable pub fill : ℕ → BinaryBuilder → BinaryBuilder
fill zero b = b
fill (suc n) b = fill n (write_byte 0 b)

-- The data segment's part of `setLocation`: to the end, and on with zeros if the place is farther.
unfoldable pub set_data_location : ℕ → BinaryBuilder → BinaryBuilder
set_data_location location b =
    let size = length b.data_segment.chars in
    if ltb size (location - data_segment_offset)
    then fill (location - (data_segment_offset + size))
        (record b { data_segment = seek_end b.data_segment; cursor = data_segment_offset + size })
    else record b { data_segment = seek_to (location - data_segment_offset) b.data_segment }

-- The text segment's part: what is missing is written to the data segment.
unfoldable pub set_text_location : ℕ → BinaryBuilder → BinaryBuilder
set_text_location location b =
    let size = length b.text_segment.chars in
    if ltb size location
    then fill (location - size) (record b { text_segment = seek_end b.text_segment; cursor = size })
    else record b { text_segment = seek_to location b.text_segment }

unfoldable pub set_location : ℕ → BinaryBuilder → BinaryBuilder
set_location location b =
    if location == end
    then record b {
      data_segment = seek_end b.data_segment;
      cursor = add32 data_segment_offset (length b.data_segment.chars);
    }
    else record (if ltb location data_segment_offset
        then set_text_location location b
        else set_data_location location b) { cursor = location }

unfoldable pub pad : ℕ → BinaryBuilder → BinaryBuilder
pad size b = set_location (add32 b.cursor size) b

-- `align`; an alignment of 0 divides by zero.
unfoldable pub align : ℕ → BinaryBuilder → Option BinaryBuilder
align alignment b =
    if alignment == 0
    then none
    else some (let r = b.cursor % alignment in if r == 0 then b else pad (alignment - r) b)

unfoldable pub get_segment_type : BinaryBuilder → SegmentType
get_segment_type b =
    if ltb b.cursor data_segment_offset then SegmentType.text else SegmentType.data_type

unfoldable pub set_segment_type : SegmentType → BinaryBuilder → BinaryBuilder
set_segment_type SegmentType.text b = record b {
  text_segment = seek_end b.text_segment;
  cursor = length b.text_segment.chars % 2 ^ 32;
}
set_segment_type SegmentType.data_type b = record b {
  data_segment = seek_end b.data_segment;
  cursor = add32 data_segment_offset (length b.data_segment.chars);
}

-- `close`: the header, of 16 bytes, and the two segments.
unfoldable pub close : BinaryBuilder → List ℕ
close b =
    let text = b.text_segment.chars in
    let data_chars = b.data_segment.chars in
    word_bytes 16
    ++ (word_bytes (length text)
        ++ (word_bytes (16 + length text)
            ++ (word_bytes (length data_chars) ++ (text ++ data_chars))))
