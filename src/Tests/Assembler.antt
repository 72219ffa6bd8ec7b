-- ===== src/Tests/Assembler.antt =====
-- The assembler's theorems at a text of four words, of which two wait for a label.
use kasm.Base.{ℕ, ◌≡◌, ◌≢◌, refl, some, [], ◌∷◌, arith, String, replicate, add32}
use kasm.Common.{AddressType, data_segment_offset, Opcode, ra}
use kasm.Vm.State.{VirtualMachine, set_register}
use kasm.Builder.{BinaryBuilder}
use kasm.Assembler.{
  AddressData, Assembler, Error, ok, err, lookup, resolved, resolved_by, define_label,
  is_identifier_defined, fix_all, load_immediate,
}
use kasm.Assembler.Symbols.{Defines, define_label-Defines}
use kasm.Assembler.Reach.{
  Writes, OnEquality, Jumps, emit_address-branch_word, emit_address-jump_word,
}
use kasm.Assembler.Indirect.{
  Takes, resolved_by-Takes_near, resolved_by-Takes_beyond, resolved_by-Takes_data,
}
use kasm.Assembler.Words.{Loads, load_immediate-Loaded}
use kasm.Assembler.FixUp.{InWord, Late, Fixed, fix_all-unresolved, fix_all-Fixed}
use kasm.Tests.Machine.{machine}

abbrev binary : BinaryBuilder
binary = record {
  cursor = 16;
  text_segment = record { chars = replicate 16 0; put = 16 };
  data_segment = record { chars = []; put = 0 };
}

-- The label `loop` stands at 4.
abbrev assembler : Assembler
assembler = record {
  macros = [];
  macro_functions = [];
  binary = binary;
  label_locations = ("loop", 4) ∷ ("value", data_segment_offset) ∷ [];
  unresolved_address_locations = [];
}

abbrev address : String → AddressType → ℕ → AddressData
address label type position = record {
  type = type;
  position = position;
  instruction = 0;
  label = label;
  offset = 0;
  reg = 0;
}

abbrev at_branch : VirtualMachine
at_branch = record machine { pc = 16 }

found_loop : lookup "loop" assembler.label_locations ≡ some 4
unfolding lookup
found_loop = refl

abbrev branch : AddressData
branch = address "loop" AddressType.direct_address_offset 0

emit_address-branch_word_example :
    Writes 0 Opcode.beq 2 3 4 branch assembler
    × Writes 0 Opcode.bne 2 3 4 branch assembler
    × OnEquality 0 4 2 3 16 at_branch
emit_address-branch_word_example =
    emit_address-branch_word 0 2 3 4 branch assembler at_branch (omega arith) (omega arith)
      (omega arith) found_loop (omega arith, omega arith, omega arith, omega arith) refl

emit_address-jump_word_example :
    Jumps 0 Opcode.j 4 branch assembler machine machine
    × Jumps 0 Opcode.jal 4 branch assembler machine (set_register ra (add32 machine.pc 4) machine)
emit_address-jump_word_example =
    emit_address-jump_word 0 4 branch assembler machine found_loop (omega arith)

load_immediate-Loaded_example :
    Loads 5 0x12345678 machine assembler (load_immediate 0 0 5 0x12345678 assembler)
load_immediate-Loaded_example =
    load_immediate-Loaded 0 0 5 0x12345678 machine (omega arith) (omega arith) (omega arith)
      (omega arith) assembler refl

define_label-Defines_example :
    (b : Assembler) × (define_label "next" 8 assembler ≡ ok b) × Defines "next" 8 assembler b
unfolding is_identifier_defined lookup
define_label-Defines_example = define_label-Defines "next" 8 assembler refl

abbrev late_word : AddressData
late_word = address "loop" AddressType.direct_address_absolute_word 8

fix_all-unresolved_example :
    fix_all
      (λ _. 0)
      (λ _. 0)
      (late_word ∷ address "gone" AddressType.direct_address_offset 8 ∷ late_word ∷ [])
      assembler
    ≡ err (Error.unresolved_label "gone")
unfolding lookup
fix_all-unresolved_example =
    fix_all-unresolved (λ _. 0) (λ _. 0) (late_word ∷ [])
      (address "gone" AddressType.direct_address_offset 8) (late_word ∷ []) assembler
      (((λ e. cc), (4, refl)), tt) refl refl

late_word-Late : Late assembler late_word 4
unfolding resolved resolved_by lookup
late_word-Late = record {
  in_word = InWord.word;
  inside = omega arith;
  below = omega arith;
  known = refl;
}

fix_all-Fixed_example :
    (b : Assembler) × (fix_all (λ _. 0) (λ _. 0) (late_word ∷ []) assembler ≡ ok b)
    × Fixed (late_word ∷ []) assembler b
fix_all-Fixed_example =
    fix_all-Fixed (λ _. 0) (λ _. 0) (late_word ∷ []) assembler ((4, late_word-Late), tt)

-- `0($zero)` at the place 0 and at 0x9000, and the place of `value` at 0.
resolved_by-Takes_near_example :
    Takes [] (address "" AddressType.indirect_address_offset 0) machine (add32 0 0)
resolved_by-Takes_near_example =
    resolved_by-Takes_near [] (address "" AddressType.indirect_address_offset 0) 0 machine
      (omega arith) refl refl (omega arith) (omega arith) (omega arith) (omega arith)

resolved_by-Takes_beyond_example :
    Takes []
      (address "" AddressType.indirect_address_offset 0x9000)
      (record machine { pc = 0x9000 })
      (add32 0 0x10000)
resolved_by-Takes_beyond_example =
    resolved_by-Takes_beyond [] (address "" AddressType.indirect_address_offset 0x9000) 0
      (record machine { pc = 0x9000 }) (omega arith) refl refl refl (omega arith) (omega arith)

resolved_by-Takes_data_example :
    (x : ℕ) × Takes assembler.label_locations
      (address "value" AddressType.indirect_address_offset 0)
      machine
      x
    × (x ≢ data_segment_offset)
unfolding lookup add32
resolved_by-Takes_data_example =
    resolved_by-Takes_data assembler.label_locations
      (address "value" AddressType.indirect_address_offset 0) data_segment_offset machine
      (omega arith) refl refl (omega arith) (omega arith) (omega arith) refl
