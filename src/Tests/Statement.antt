-- ===== src/Tests/Statement.antt =====
-- The pseudo-instructions on a text of one word and a label at 4.
use kasm.Base.{◌≡◌, refl, some, [], ◌∷◌, arith, replicate, add32}
use kasm.Common.{AddressType}
use kasm.Vm.State.{VirtualMachine, set_register, put}
use kasm.Assembler.{AddressData, Assembler, lookup}
use kasm.Assembler.Statement.Branches.{ComparesAndBranches, assemble_statement-ComparesAndBranches}
use kasm.Assembler.Statement.Push.{WritesAndMoves, push_word-pop_word}
use kasm.Tests.Machine.{machine}

abbrev assembler : Assembler
assembler = record {
  macros = [];
  macro_functions = [];
  binary = record {
    cursor = 4;
    text_segment = record { chars = replicate 4 0; put = 4 };
    data_segment = record { chars = []; put = 0 };
  };
  label_locations = ("loop", 4) ∷ [];
  unresolved_address_locations = [];
}

abbrev to_loop : AddressData
to_loop = record {
  type = AddressType.direct_address_offset;
  position = 0;
  instruction = 0;
  label = "loop";
  offset = 0;
  reg = 0;
}

-- `$t0` holds 3, and `$sp` leaves room for a word.
abbrev running : VirtualMachine
running = set_register 29 0x80000100 (set_register 8 3 (record machine { pc = 4 }))

loop_at_4 : lookup "loop" assembler.label_locations ≡ some 4
unfolding lookup
loop_at_4 = refl

assemble_statement-ComparesAndBranches_example :
    ComparesAndBranches (λ _. 0) 8 9 4 to_loop assembler running
unfolding set_register put add32
assemble_statement-ComparesAndBranches_example =
    assemble_statement-ComparesAndBranches (λ _. 0) 8 9 4 to_loop assembler running (omega arith)
      (omega arith) (omega arith) (omega arith) refl loop_at_4
      (omega arith, omega arith, omega arith, omega arith) refl

push_word-pop_word_example : WritesAndMoves (λ _. 0) 8 9 assembler running
unfolding set_register put
push_word-pop_word_example =
    push_word-pop_word (λ _. 0) 8 9 assembler running (λ _. omega arith) (omega arith) (omega arith)
      (omega arith) (omega arith) (omega arith) refl (omega arith) (omega arith) (omega arith)
