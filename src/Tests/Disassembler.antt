-- ===== src/Tests/Disassembler.antt =====
-- The disassembler's theorems at two words, and one printed line.
use kasm.Base.{ℕ, ◌*◌, ◌^◌, ◌≡◌, refl, true, false, some, List, [], ◌∷◌, arith}
use kasm.Common.{Opcode, decode, opcode}
use kasm.Builder.{BinaryBuilder, close, word_bytes}
use kasm.Builder.Image.{Fits}
use kasm.Disassembler.{Symbols, Listing, disassemble, complete, get_label_from_address, find_symbol}
use kasm.Disassembler.Hex.{padded_hex, digit}
use kasm.Disassembler.Tables.{text}
use kasm.Disassembler.Returns.{text_of, HaveOpcodes, disassemble-close}

-- `sys` and `ori $a0, $zero, 7`.
abbrev words : List ℕ
words = 43 * 2 ^ 26 ∷ 0x6C800007 ∷ []

abbrev two_words : BinaryBuilder
two_words = record {
  cursor = 8;
  text_segment = record { chars = 0 ∷ 0 ∷ 0 ∷ 172 ∷ 7 ∷ 0 ∷ 128 ∷ 108 ∷ []; put = 8 };
  data_segment = record { chars = []; put = 0 };
}

abbrev symbols : Symbols
symbols = (4, text "next") ∷ []

words-HaveOpcodes : HaveOpcodes words
unfolding decode opcode
words-HaveOpcodes = (omega arith, (Opcode.sys, refl), (omega arith, (Opcode.ori, refl), tt))

two_words-Fits : Fits two_words
two_words-Fits = record { text_fits = omega arith; data_fits = omega arith }

two_words-bytes : two_words.text_segment.chars ≡ text_of words
unfolding word_bytes
two_words-bytes = refl

disassemble-close_example :
    (l : Listing) × (disassemble 2 0 symbols (close two_words) ≡ some (complete l))
disassemble-close_example =
    disassemble-close 2 0 symbols words two_words two_words-bytes words-HaveOpcodes two_words-Fits
      (omega arith)

label_of_next : get_label_from_address symbols 4 true false ≡ text "     next"
unfolding get_label_from_address find_symbol
label_of_next = refl

label_of_eleven : get_label_from_address symbols 17 true false ≡ text "_00000011"
unfolding get_label_from_address find_symbol padded_hex digit
label_of_eleven = refl
