-- ===== src/Disassembler/Returns.antt =====
-- src/disassembler.cpp, `disassemble`, on the files of src/binaryBuilder.cpp, `close`.
use mathlib.Core.List.{append_assoc}
use kasm.Base.{
  ℕ, zero, suc, ◌+◌, ◌*◌, ◌%◌, ◌^◌, ◌≤◌, ◌≡◌, refl, ap, ◌∙◌, true, false, some, List, [], ◌∷◌, ◌++◌,
  arith, ltb, if◌then◌else◌, length, lt→ltb, le→ltb, IsWord, add32, drop, ◌==◌,
}
use kasm.Common.{Opcode, decode, opcode}
use kasm.Vm.Memory.{read_word}
use kasm.Builder.{BinaryBuilder, word_bytes, close}
use kasm.Builder.Image.{Fits, read_word-word_bytes}
use kasm.Builder.Buffer.{empty, write}
use kasm.Disassembler.Tables.{text}
use kasm.Disassembler.{
  Symbols, Listing, disassemble, list_segments, with_data, complete, next_word, print_instruction,
  instruction_line, text_round, text_loop,
}

-- The bytes of a text, word by word.
abbrev pub text_of : List ℕ → List ℕ
text_of [] = []
text_of (w ∷ ws) = word_bytes w ++ text_of ws

-- Words that carry an opcode of the table.
abbrev pub HaveOpcodes : List ℕ → Type 0
HaveOpcodes [] = Unit
HaveOpcodes (w ∷ ws) = IsWord w × ((op : Opcode) × (decode (opcode w) ≡ some op)) × HaveOpcodes ws

next_word-word_bytes :
    (v w : ℕ) (bs : List ℕ) → IsWord w → next_word v (word_bytes w ++ bs) ≡ (w, bs, true)
unfolding next_word word_bytes
next_word-word_bytes v w bs h = ap (λ x. (x, bs, true)) (omega arith)

-- A round of the loop at a word with an opcode.
text_round_lem :
    (t : Symbols) (l : Listing) (w : ℕ) (bs : List ℕ) (op : Opcode)
    → IsWord w
    → l.rest ≡ word_bytes w ++ bs
    → decode (opcode w) ≡ some op
    → (l' : Listing) × (text_round t l ≡ (some l', true))
      × (l'.rest ≡ bs)
      × (l'.position ≡ l.position + 4)
unfolding text_round instruction_line
text_round_lem t l w bs op hw e h = (
  record {
    rest = bs;
    position = l.position + 4;
    pc = add32 l.pc 4;
    word = w;
    out = print_instruction t l.pc w op l.out;
  },
  rw (e, next_word-word_bytes l.word w bs hw, h) refl,
  refl,
  refl,
)

-- The loop over words that all have an opcode ends where the text does, and leaves what follows.
text_loop-complete :
    (fuel : ℕ) (t : Symbols) (limit : ℕ) (ws : List ℕ) (bs : List ℕ) (l : Listing)
    → HaveOpcodes ws
    → l.rest ≡ text_of ws ++ bs
    → l.position + 4 * length ws ≡ limit
    → length ws ≤ fuel
    → (l' : Listing) × (text_loop fuel t limit l ≡ some (complete l')) × (l'.rest ≡ bs)
unfolding text_loop
text_loop-complete zero t limit [] bs l h e p f =
    (l, rw (le→ltb l.position limit (omega arith)) refl, e)
text_loop-complete (suc fuel) t limit [] bs l h e p f =
    (l, rw (le→ltb l.position limit (omega arith)) refl, e)
text_loop-complete zero t limit (w ∷ ws) bs l h e p f = absurd (omega arith)
text_loop-complete (suc fuel) t limit (w ∷ ws) bs l (hw, (op, d), hs) e p f =
    let (l1, round, rest, moved) =
      text_round_lem t l w (text_of ws ++ bs) op hw
        (e ∙ append_assoc (word_bytes w) (text_of ws) bs) d in
    let (l2, done, left) =
      text_loop-complete fuel t limit ws bs l1 hs rest (omega (arith, moved, p)) (omega arith) in
    (l2, rw (lt→ltb l.position limit (omega arith), round) done, left)

length-text_of : (ws : List ℕ) → length (text_of ws) ≡ 4 * length ws
unfolding word_bytes
length-text_of [] = refl
length-text_of (w ∷ ws) = omega (arith, length-text_of ws)

-- What `close` writes, read as a header.
header_of :
    (b : BinaryBuilder)
    → Fits b
    → (read_word (close b) ≡ 16)
      × (read_word (drop 4 (close b)) ≡ length b.text_segment.chars)
      × (drop 16 (close b) ≡ b.text_segment.chars ++ b.data_segment.chars)
unfolding close word_bytes
header_of b h =
    let chars = b.text_segment.chars in
    let held = b.data_segment.chars in
    let tail = word_bytes (16 + length chars) ++ (word_bytes (length held) ++ (chars ++ held)) in
    (
      read_word-word_bytes 16 (word_bytes (length chars) ++ tail) (omega arith),
      read_word-word_bytes (length chars) tail (omega (arith, h.text_fits)),
      refl,
    )

header_fits : (b : BinaryBuilder) → ltb (length (close b)) 16 ≡ false
unfolding close word_bytes
header_fits b = le→ltb (length (close b)) 16 (omega arith)

list_segments-complete :
    (fuel g : ℕ) (t : Symbols) (limit n k : ℕ) (ws bs : List ℕ)
    → HaveOpcodes ws
    → 16 + 4 * length ws ≡ limit
    → length ws ≤ fuel
    → (l : Listing) × (list_segments fuel g t limit n k (text_of ws ++ bs) ≡ some (complete l))
unfolding list_segments
list_segments-complete fuel g t limit n k ws bs h p f =
    let start : Listing = record {
      rest = text_of ws ++ bs;
      position = 16;
      pc = 0;
      word = g;
      out = if n == 0 then empty else write (text "\t.text\n") empty;
    } in
    let (l, done, left) = text_loop-complete fuel t limit ws bs start h refl p f in
    (with_data t k l, rw done refl)

-- On the file that `close` writes for a text of words whose opcodes are in the table, with both
-- segments of the machine's sizes, `disassemble` ends with a complete listing, whatever the symbols
-- and the data; one unit of fuel for each word is enough.
pub disassemble-close :
    (fuel g : ℕ) (t : Symbols) (ws : List ℕ) (b : BinaryBuilder)
    → b.text_segment.chars ≡ text_of ws
    → HaveOpcodes ws
    → Fits b
    → length ws ≤ fuel
    → (l : Listing) × (disassemble fuel g t (close b) ≡ some (complete l))
unfolding disassemble add32
disassemble-close fuel g t ws b e h fits f =
    let n = length b.text_segment.chars in
    let (begin, size, rest) = header_of b fits in
    let chars = rest ∙ ap (λ (c : List ℕ). c ++ b.data_segment.chars) e in
    let long : n ≡ 4 * length ws = ap (λ (c : List ℕ). length c) e ∙ length-text_of ws in
    let limit : 16 + 4 * length ws ≡ (16 + n) % 2 ^ 32 = omega (arith, long, fits.text_fits) in
    rw (header_fits b, begin, size, chars)
      (list_segments-complete fuel g t ((16 + n) % 2 ^ 32) n (read_word (drop 12 (close b))) ws
        b.data_segment.chars h limit f)
