-- ===== src/Tests/Directive.antt =====
-- The directives on a data segment of one byte, with one label defined and one not.
use kasm.Base.{◌≡◌, refl, none, [], ◌∷◌, ◌+◌, arith, String}
use kasm.Common.{AddressType, data_segment_offset}
use kasm.Builder
use kasm.Builder.Buffer.{empty}
use kasm.Assembler.{AddressData, Assembler, lookup}
use kasm.Assembler.Directive.{Argument, Directive, assemble_directive}
use kasm.Assembler.Directive.AtEnd.{data_at}
use kasm.Assembler.Directive.Appends.{
  Appends, contents, assemble_directive-Appends, align_directive-beyond,
}

abbrev to_label : String → AddressData
to_label k = record {
  type = AddressType.invalid;
  position = 0;
  instruction = 0;
  label = k;
  offset = 0;
  reg = 0;
}

abbrev base : Assembler
base = record {
  macros = [];
  macro_functions = [];
  binary = data_at empty [];
  label_locations = ("loop", 4) ∷ [];
  unresolved_address_locations = [];
}

abbrev words : Directive
words = Directive.word (
    Argument.literal 513
    ∷ Argument.label (to_label "loop")
    ∷ Argument.label (to_label "later")
    ∷ [])

words-contents :
    contents base.label_locations (data_segment_offset + 1) words
    ≡ 0 ∷ 0 ∷ 0 ∷ 1 ∷ 2 ∷ 0 ∷ 0 ∷ 4 ∷ 0 ∷ 0 ∷ 0 ∷ 0 ∷ 0 ∷ 0 ∷ 0 ∷ []
unfolding lookup Builder.word_bytes
words-contents = refl

assemble_directive-Appends_example : Appends words base empty (65 ∷ []) []
assemble_directive-Appends_example =
    assemble_directive-Appends words base empty (65 ∷ []) [] (omega arith)

align_by_40 : assemble_directive (Directive.align 40) base ≡ none
align_by_40 = align_directive-beyond 40 base (omega arith)
