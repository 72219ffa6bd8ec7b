-- ===== src/Disassembler.antt =====
-- src/disassembler.hpp, src/disassembler.cpp: the listing of a program file. The output file is the
-- buffer of Builder/Buffer with its put position, since a line ends by stepping back over ", ".
pub mod Tables
pub mod Hex
pub mod Returns
use kasm.Base.{
  ℕ, zero, suc, ◌+◌, ◌-◌, ◌*◌, ◌/◌, ◌%◌, ◌^◌, Bool, true, false, not, ◌&&◌, ◌||◌, Option, none,
  some, List, [], ◌∷◌, ◌++◌, ltb, leb, ◌==◌, if◌then◌else◌, maybe, length, replicate, drop, add32,
  sub32,
}
use kasm.Common.{
  Opcode, decode, opcode, register0, register1, register2, immediate, direct_address_absolute,
  direct_address_offset, data_segment_offset, stack_offset,
}
use kasm.Vm.Memory.{read_word}
use kasm.Builder.Buffer.{Stream, write, empty}
use kasm.Disassembler.Tables.{
  text, instruction_name, register_name, format, has, in_r0, in_r1, in_r2, in_absolute, in_offset,
  in_immediate, in_indirect,
}
use kasm.Disassembler.Hex.{hex, padded_hex}

-- `unordered_map<std::uint32_t, std::string> symbolTable`.
abbrev pub Symbols : Type 0
Symbols = List (ℕ × List ℕ)

unfoldable pub find_symbol : ℕ → Symbols → Option (List ℕ)
find_symbol a [] = none
find_symbol a ((b, l) ∷ t) = if b == a then some l else find_symbol a t

abbrev has_symbol : ℕ → Symbols → Bool
has_symbol a t = maybe (find_symbol a t) false (λ _. true)

-- `getLabelFromAddress`.
unfoldable pub get_label_from_address : Symbols → ℕ → Bool → Bool → List ℕ
get_label_from_address t a padded data_only =
    let in_data = leb data_segment_offset a && ltb a stack_offset in
    let number =
      if data_only && ltb a data_segment_offset
      then text "0x" ++ hex a
      else text "_" ++ padded_hex 8 a in
    maybe (find_symbol a t) number (λ l.
      if not data_only || in_data
      then (if padded then replicate (9 - length l) 32 ++ l else l)
      else number)

abbrev piece : Bool → List ℕ → List ℕ
piece b s = if b then s ++ text ", " else []

-- The operand of a load or a store.
unfoldable pub indirect_operand : Symbols → ℕ → ℕ → List ℕ
indirect_operand t pc d =
    let a = add32 (direct_address_offset d) pc in
    let offset = a % 4 in
    let base =
      maybe (find_symbol a t)
        (get_label_from_address t (sub32 a offset) false false
          ++ (if offset == 0 then [] else text "+" ++ hex offset))
        (λ _. get_label_from_address t a false true) in
    base ++ (if register1 d == 0 then [] else text "(" ++ (register_name (register1 d) ++ text ")"))

-- The operands of an instruction, each followed by ", ".
unfoldable pub operands : Symbols → ℕ → ℕ → ℕ → List ℕ
operands t pc d f =
    piece (has in_r0 f) (register_name (register0 d))
    ++ (piece (has in_r1 f) (register_name (register1 d))
        ++ (piece (has in_r2 f) (register_name (register2 d))
            ++ (piece (has in_absolute f)
                  (get_label_from_address t (direct_address_absolute d) false false)
                ++ (piece (has in_offset f)
                      (get_label_from_address t (add32 (direct_address_offset d) pc) false false)
                    ++ (piece (has in_immediate f) (text "0x" ++ padded_hex 4 (immediate d))
                        ++ piece (has in_indirect f) (indirect_operand t pc d))))))

-- The line of a symbol that stands at the address.
abbrev symbol_line : Symbols → ℕ → List ℕ
symbol_line t a = if has_symbol a t then text "_" ++ (padded_hex 8 a ++ text ":\n") else []

-- `seekp(-2, std::ios::cur)`.
abbrev step_back : Stream → Stream
step_back s = record s { put = s.put - 2 }

-- A line of the text segment, for an opcode that has a format.
unfoldable pub print_instruction : Symbols → ℕ → ℕ → Opcode → Stream → Stream
print_instruction t pc d op out =
    let front = symbol_line t pc ++ (get_label_from_address t pc true false ++ text ": ") in
    let s =
      write (front ++ (instruction_name op ++ (text " " ++ operands t pc d (format op)))) out in
    write (text "\n") (if format op == 0 then s else step_back s)

-- `none` where `instructionFormats.at` throws.
unfoldable pub instruction_line : Symbols → ℕ → ℕ → Stream → Option Stream
instruction_line t pc d out =
    maybe (decode (opcode d)) none (λ op. some (print_instruction t pc d op out))

-- The state of the loops: the bytes that are still to be read and where they start in the file, `pc`,
-- the word `d` and the output.
pub record Listing : Type 0 where
  pub rest : List ℕ
  pub position : ℕ
  pub pc : ℕ
  pub word : ℕ
  pub out : Stream

-- How the listing ends: it is complete, `std::out_of_range` of an opcode without a format, the loop
-- over a text that the file does not hold never ends, or C++ leaves the rest undefined.
pub data Listed : Type 0 where
  complete : Listing → Listed
  no_format : Listed
  endless : Listed
  undefined : Listed

-- `programFile.read` of a word: the new word, the rest, and whether four bytes were there; fewer
-- replace the low bytes of the word.
unfoldable pub next_word : ℕ → List ℕ → ℕ × List ℕ × Bool
next_word w [] = (w, [], false)
next_word w (a ∷ []) = (w / 2 ^ 8 * 2 ^ 8 + a, [], false)
next_word w (a ∷ b ∷ []) = (w / 2 ^ 16 * 2 ^ 16 + (b * 2 ^ 8 + a), [], false)
next_word w (a ∷ b ∷ c ∷ []) = (w / 2 ^ 24 * 2 ^ 24 + (c * 2 ^ 16 + (b * 2 ^ 8 + a)), [], false)
next_word w (a ∷ b ∷ c ∷ d ∷ bs) = (d * 2 ^ 24 + (c * 2 ^ 16 + (b * 2 ^ 8 + a)), bs, true)

-- One round of the loop over the text: the word and its line.
unfoldable pub text_round : Symbols → Listing → Option Listing × Bool
text_round t l =
    let (w, rest, full) = next_word l.word l.rest in
    (
      maybe (instruction_line t l.pc w l.out) none (λ out. some (record {
        rest = rest;
        position = l.position + 4;
        pc = add32 l.pc 4;
        word = w;
        out = out;
      })),
      full,
    )

-- The loop over the text, on fuel. After a read that fails `tellg` gives -1, so the condition stays
-- true: the same word is printed for ever.
unfoldable pub text_loop : ℕ → Symbols → ℕ → Listing → Option Listed
text_loop zero t limit l = if ltb l.position limit then none else some (complete l)
text_loop (suc fuel) t limit l =
    let (next, full) = text_round t l in
    let more =
      maybe next (some no_format)
        (λ l'. if full then text_loop fuel t limit l' else some endless) in
    if ltb l.position limit then more else some (complete l)

abbrev byte_line : Symbols → ℕ → ℕ → List ℕ
byte_line t a b =
    symbol_line t a
    ++ (get_label_from_address t a true false
        ++ (text ": .byte 0x" ++ (padded_hex 2 b ++ text "\n")))

-- A word of the data segment, as four bytes if a symbol stands inside it.
unfoldable pub data_line : Symbols → ℕ → ℕ → List ℕ
data_line t pc w =
    let inside =
      has_symbol (add32 pc 1) t || (has_symbol (add32 pc 2) t || has_symbol (add32 pc 3) t) in
    if inside
    then byte_line t pc (w % 2 ^ 8)
      ++ (byte_line t (add32 pc 1) (w / 2 ^ 8 % 2 ^ 8)
          ++ (byte_line t (add32 pc 2) (w / 2 ^ 16 % 2 ^ 8)
              ++ byte_line t (add32 pc 3) (w / 2 ^ 24 % 2 ^ 8)))
    else symbol_line t pc
      ++ (get_label_from_address t pc true false
          ++ (text ": .word 0x" ++ (padded_hex 8 w ++ text "\n")))

-- The loop over the data: while four bytes are left.
unfoldable pub data_loop : Symbols → ℕ → List ℕ → Stream → Stream
data_loop t pc (a ∷ b ∷ c ∷ d ∷ bs) out =
    data_loop t (add32 pc 4) bs
      (write (data_line t pc (d * 2 ^ 24 + (c * 2 ^ 16 + (b * 2 ^ 8 + a)))) out)
data_loop t pc _ out = out

-- The data segment behind the text.
unfoldable pub with_data : Symbols → ℕ → Listing → Listing
with_data t size l =
    let (pc, out) =
      if size == 0 then (l.pc, l.out) else (data_segment_offset, write (text "\t.data\n") l.out) in
    record l { out = data_loop t pc l.rest out }

abbrev pub then_data : Symbols → ℕ → Listed → Listed
then_data t size (complete l) = complete (with_data t size l)
then_data t size e = e

-- `disassemble` once the header is read: where the text ends in the file, the two sizes, and the rest
-- of the file. `g` stands in the uninitialised word.
unfoldable pub list_segments : ℕ → ℕ → Symbols → ℕ → ℕ → ℕ → List ℕ → Option Listed
list_segments fuel g t limit text_size data_size rest =
    let start : Listing = record {
      rest = rest;
      position = 16;
      pc = 0;
      word = g;
      out = if text_size == 0 then empty else write (text "\t.text\n") empty;
    } in
    maybe (text_loop fuel t limit start) none (λ e. some (then_data t data_size e))

-- `disassemble`, from the symbols and the bytes of the program file. A file without a whole header
-- leaves the header undefined.
unfoldable pub disassemble : ℕ → ℕ → Symbols → List ℕ → Option Listed
disassemble fuel g t file =
    let text_size = read_word (drop 4 file) in
    if ltb (length file) 16
    then some undefined
    else list_segments fuel g t (add32 (read_word file) text_size) text_size
        (read_word (drop 12 file)) (drop 16 file)
