-- ===== src/Builder/Image.antt =====
-- src/binaryBuilder.cpp, `close`, against src/virtualMachine.hpp, `Program::open`: the file that the
-- one writes and the other reads.
use kasm.Base.{
  ℕ, zero, suc, [], ◌∷◌, length-append, ◌+◌, ◌-◌, ◌%◌, ◌^◌, ◌≤◌, ◌<◌, ◌≡◌, refl, ◌∙◌, some, List,
  ◌++◌, arith, IsWord, length, get_or, get_or-append_left, get_or-append_right, lt→ltb, le→ltb,
}
use mathlib.Core.Path.{ap₂}
use kasm.Common.{data_segment_offset, stack_offset}
use kasm.Vm.Memory.{
  Program, load, header_over, read_word, word_at, get_char, locate, bound, bytes_of,
}
use kasm.Builder.{BinaryBuilder, close, word_bytes}

pub read_word-word_bytes : (w : ℕ) (rest : List ℕ) → IsWord w → read_word (word_bytes w ++ rest) ≡ w
unfolding read_word word_at word_bytes
read_word-word_bytes w rest h = omega arith

-- The segments of the builder in a machine that has loaded its file.
pub record Loaded (b : BinaryBuilder) (q : Program) : Type 0 where
  pub text_length : q.header.text_segment_length ≡ length b.text_segment.chars
  pub size_loaded : q.size ≡ length b.text_segment.chars + length b.data_segment.chars
  pub image_loaded :
      (i : ℕ)
      → i < length b.text_segment.chars + length b.data_segment.chars
      → q.image i ≡ get_or (b.text_segment.chars ++ b.data_segment.chars) i 0

-- Both segments fit the areas that the machine gives them.
pub record Fits (b : BinaryBuilder) : Type 0 where
  pub text_fits : length b.text_segment.chars ≤ data_segment_offset
  pub data_fits : length b.data_segment.chars ≤ stack_offset - data_segment_offset

get_or-within : (xs : List ℕ) (i d e : ℕ) → i < length xs → get_or xs i d ≡ get_or xs i e
get_or-within [] i d e h = absurd (omega arith)
get_or-within (x ∷ xs) zero d e h = refl
get_or-within (x ∷ xs) (suc i) d e h = get_or-within xs i d e (omega arith)

-- The file that `close` writes loads as the two segments, one behind the other.
load-close : (p : Program) (b : BinaryBuilder) → Fits b → Loaded b (load p (close b))
unfolding load header_over read_word close word_bytes
load-close p b h =
    let text = b.text_segment.chars in
    let held = b.data_segment.chars in
    let text_ok =
      read_word-word_bytes (length text)
        (word_bytes (16 + length text) ++ (word_bytes (length held) ++ (text ++ held)))
        (omega (arith, h.text_fits)) in
    let data_ok = read_word-word_bytes (length held) (text ++ held) (omega (arith, h.data_fits)) in
    record {
      text_length = text_ok;
      size_loaded =
          ap₂ (λ (m n : ℕ). (m + n) % 2 ^ 32) text_ok data_ok
          ∙ omega (arith, h.text_fits, h.data_fits);
      image_loaded = λ i within.
          get_or-within (text ++ held) i _ 0 (omega (arith, within, length-append {0} text held));
    }

module _ (b : BinaryBuilder) (q : Program) (l : Loaded b q) (h : Fits b) (k : ℕ) where
  get_char-text :
      k < length b.text_segment.chars → get_char q k ≡ some (get_or b.text_segment.chars k 0)
  unfolding get_char locate bound bytes_of
  get_char-text hk = rw (
    lt→ltb k data_segment_offset (omega (arith, h.text_fits)),
    lt→ltb k q.size (omega (arith, l.size_loaded)),
    l.image_loaded k (omega (arith, hk)),
    get_or-append_left b.text_segment.chars b.data_segment.chars k 0 hk,
  )

  get_char-data :
      k < length b.data_segment.chars
      → get_char q (data_segment_offset + k) ≡ some (get_or b.data_segment.chars k 0)
  unfolding get_char locate bound bytes_of
  get_char-data hk =
      let text = b.text_segment.chars in
      let index : data_segment_offset + k - data_segment_offset + q.header.text_segment_length
          ≡ length text + k =
        omega (arith, l.text_length) in
      rw (
        le→ltb (data_segment_offset + k) data_segment_offset (omega arith),
        lt→ltb (data_segment_offset + k) stack_offset (omega (arith, h.data_fits)),
        index,
        lt→ltb (length text + k) q.size (omega (arith, l.size_loaded)),
        l.image_loaded (length text + k) (omega (arith, hk)),
        get_or-append_right text b.data_segment.chars k 0,
      )

-- Where both segments fit the areas that the machine gives them, the byte at a place of the text
-- segment that was assembled is the one that the machine reads at this address, once the file is
-- loaded.
pub get_char-load_text :
    (p : Program) (b : BinaryBuilder) (k : ℕ)
    → Fits b
    → k < length b.text_segment.chars
    → get_char (load p (close b)) k ≡ some (get_or b.text_segment.chars k 0)
get_char-load_text p b k h hk = get_char-text b (load p (close b)) (load-close p b h) h k hk

-- Where both segments fit the areas that the machine gives them, the byte at a place of the data
-- segment that was assembled is the one that the machine reads at this place past the segment's
-- offset, once the file is loaded.
pub get_char-load_data :
    (p : Program) (b : BinaryBuilder) (k : ℕ)
    → Fits b
    → k < length b.data_segment.chars
    → get_char (load p (close b)) (data_segment_offset + k) ≡ some (get_or b.data_segment.chars k 0)
get_char-load_data p b k h hk = get_char-data b (load p (close b)) (load-close p b h) h k hk
