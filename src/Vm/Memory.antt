-- ===== src/Vm/Memory.antt =====
-- src/virtualMachine.hpp, class `Program`: the loaded image, the stack and the global area, and
-- the translation of an address to a place in one of the three. A byte array is its size and a
-- function from index to byte; a read or a write outside the array, which C++ leaves undefined,
-- is `none`. Addresses are `std::uint32_t` and the host is little-endian.
pub mod Laws
pub mod HasBytes
use mathlib.Core.Option
use kasm.Base.{
  ℕ, zero, suc, [], ◌∷◌, ◌++◌, ◌+◌, ◌-◌, ◌*◌, ◌/◌, ◌%◌, ◌^◌, Option, none, some, List, ltb, leb,
  ◌==◌, if◌then◌else◌, get_or, drop,
}
use kasm.Common.{
  ProgramHeader, data_segment_offset, stack_offset, global_offset, stack_size, global_size,
}

abbrev pub Bytes : Type 0
Bytes = ℕ → ℕ

pub record Program : Type 0 where
  pub header : ProgramHeader
  -- `size()` of the vector that `Program` extends, and its elements
  pub size : ℕ
  pub image : Bytes
  pub stack : Bytes
  pub global : Bytes

-- The array that an address falls into, and the index in it.
pub data Area : Type 0 where
  in_image in_stack in_global : Area

pub record Place : Type 0 where
  pub area : Area
  pub index : ℕ

abbrev pub place : Area → ℕ → Place
place a i = record { area = a; index = i }

-- The tests of `getWord` and `getCharPtr`, which move a pointer.
unfoldable pub locate : Program → ℕ → Place
locate p i =
    if ltb i data_segment_offset
    then place Area.in_image i
    else if ltb i stack_offset
    then place Area.in_image (i - data_segment_offset + p.header.text_segment_length)
    else if ltb i global_offset
    then place Area.in_stack (i - stack_offset)
    else place Area.in_global (i - global_offset)

-- The tests of `operator[]`, which computes the index in `std::uint32_t`.
unfoldable pub locate_byte : Program → ℕ → Place
locate_byte p i =
    if ltb i data_segment_offset
    then place Area.in_image i
    else if ltb i stack_offset
    then place Area.in_image ((i - data_segment_offset + p.header.text_segment_length) % 2 ^ 32)
    else if ltb i global_offset
    then place Area.in_stack (i - stack_offset)
    else place Area.in_global (i - global_offset)

unfoldable pub bound : Program → Area → ℕ
bound p Area.in_image = p.size
bound p Area.in_stack = stack_size
bound p Area.in_global = global_size

unfoldable pub bytes_of : Program → Area → Bytes
bytes_of p Area.in_image = p.image
bytes_of p Area.in_stack = p.stack
bytes_of p Area.in_global = p.global

unfoldable pub with_bytes : Program → Area → Bytes → Program
with_bytes p Area.in_image f = record p { image = f }
with_bytes p Area.in_stack f = record p { stack = f }
with_bytes p Area.in_global f = record p { global = f }

-- A `std::uint32_t` in an array of bytes, lowest byte first.
unfoldable pub word_at : Bytes → ℕ → ℕ
word_at f i = f i + f (i + 1) * 2 ^ 8 + f (i + 2) * 2 ^ 16 + f (i + 3) * 2 ^ 24

unfoldable pub put_word : Bytes → ℕ → ℕ → Bytes
put_word f i w j =
    if j == i
    then w % 2 ^ 8
    else if j == i + 1
    then w / 2 ^ 8 % 2 ^ 8
    else if j == i + 2
    then w / 2 ^ 16 % 2 ^ 8
    else if j == i + 3
    then w / 2 ^ 24 % 2 ^ 8
    else f j

unfoldable pub put_byte : Bytes → ℕ → ℕ → Bytes
put_byte f i v j = if j == i then v % 2 ^ 8 else f j

-- `getWord(i)`, read.
unfoldable pub get_word : Program → ℕ → Option ℕ
get_word p i =
    let l = locate p i in
    if leb (l.index + 4) (bound p l.area) then some (word_at (bytes_of p l.area) l.index) else none

-- `getWord(i) = w`.
unfoldable pub set_word : Program → ℕ → ℕ → Option Program
set_word p i w =
    let l = locate p i in
    if leb (l.index + 4) (bound p l.area)
    then some (with_bytes p l.area (put_word (bytes_of p l.area) l.index w))
    else none

-- `program[i]`, read.
unfoldable pub get_byte : Program → ℕ → Option ℕ
get_byte p i =
    let l = locate_byte p i in
    if ltb l.index (bound p l.area) then some (bytes_of p l.area l.index) else none

-- `program[i] = v`; the assignment converts a word to a byte.
unfoldable pub set_byte : Program → ℕ → ℕ → Option Program
set_byte p i v =
    let l = locate_byte p i in
    if ltb l.index (bound p l.area)
    then some (with_bytes p l.area (put_byte (bytes_of p l.area) l.index v))
    else none

-- `*getCharPtr(i)`, read.
unfoldable pub get_char : Program → ℕ → Option ℕ
get_char p i =
    let l = locate p i in
    if ltb l.index (bound p l.area) then some (bytes_of p l.area l.index) else none

-- `*getCharPtr(i) = c`.
unfoldable pub set_char : Program → ℕ → ℕ → Option Program
set_char p i c =
    let l = locate p i in
    if ltb l.index (bound p l.area)
    then some (with_bytes p l.area (put_byte (bytes_of p l.area) l.index c))
    else none

-- The bytes of a C string from a pointer on: up to the terminating zero, or `none` if the array
-- ends first. The count bounds the bytes that are left in the array.
unfoldable pub c_string : ℕ → Bytes → ℕ → Option (List ℕ)
c_string zero f i = none
c_string (suc left) f i =
    let rest = c_string left f (i + 1) in
    if f i == 0 then some [] else Option.map (λ s. f i ∷ s) rest

-- The text that a stream prints for `getCharPtr(i)`.
unfoldable pub get_c_string : Program → ℕ → Option (List ℕ)
get_c_string p i =
    let l = locate p i in c_string (bound p l.area - l.index) (bytes_of p l.area) l.index

-- A word in a file, from a list of its bytes.
unfoldable pub read_word : List ℕ → ℕ
unfolding word_at
read_word bs = word_at (λ i. get_or bs i 0) 0

-- The bytes of a number in memory, and those of a header.
abbrev word_list : ℕ → List ℕ
word_list w = (w % 2 ^ 8) ∷ (w / 2 ^ 8 % 2 ^ 8) ∷ (w / 2 ^ 16 % 2 ^ 8) ∷ (w / 2 ^ 24 % 2 ^ 8) ∷ []

-- What stands where a file is read over old bytes, and goes on after them.
abbrev read_over : List ℕ → List ℕ → List ℕ
read_over file [] = file
read_over [] (o ∷ os) = o ∷ os
read_over (x ∷ xs) (o ∷ os) = x ∷ read_over xs os

unfoldable pub header_over : List ℕ → ProgramHeader → List ℕ
header_over file h = read_over file (
    word_list h.text_segment_begin
    ++ (word_list h.text_segment_length
        ++ (word_list h.data_segment_begin ++ word_list h.data_segment_length)))

-- `open` on the bytes of a file that can be opened: the header, then the two segments into the vector.
-- What the file lacks keeps its old value, in the header and in the vector; the elements that `resize`
-- adds are zero. The arrays `stack` and `global` keep what they held. That `resize` may find no memory is
-- left out.
unfoldable pub load : Program → List ℕ → Program
unfolding header_over
load p file =
    let start = header_over file p.header in
    let h : ProgramHeader = record {
      text_segment_begin = read_word start;
      text_segment_length = read_word (drop 4 start);
      data_segment_begin = read_word (drop 8 start);
      data_segment_length = read_word (drop 12 start);
    } in
    record p {
      header = h;
      size = (h.text_segment_length + h.data_segment_length) % 2 ^ 32;
      image = λ i. get_or (drop 16 file) i (if ltb i p.size then p.image i else 0);
    }
