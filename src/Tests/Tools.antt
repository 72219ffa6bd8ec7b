-- ===== src/Tests/Tools.antt =====
-- The command line on the program that exits with 7, a symbol table file, and a text that is
-- read onto the stack.
use kasm.Base.{
  ℕ, Option, none, str_eq, if◌then◌else◌, ◌-◌, ◌≡◌, refl, true, some, List, [], ◌∷◌, ◌++◌, String,
  arith, add32,
}
use kasm.Vm.Memory.{
  Program, Area, with_bytes, put_byte, load, header_over, read_word, word_at, set_char, locate,
  bound, bytes_of,
}
use kasm.Vm.Console.{get}
use kasm.Vm.State.{VirtualMachine, Outcome, reset, set_register, put}
use kasm.Vm.Syscall.{read_string_call, read_string_loop}
use kasm.Vm.Strings.{WritesWithin, read_string_call-WritesWithin}
use kasm.Vm.Run.Reach.{Rounds, Stops, rounds_of}
use kasm.Assembler.{save_symbol_table}
use kasm.SymbolFile.{Uninitialised, opened, read_entries}
use kasm.SymbolFile.Reading.{listed, stray, read_entries-save_symbol_table}
use kasm.CommandLine.{Tools, Ending, Exit, main, execute_file}
use kasm.CommandLine.Status.{Explained, main-vm, main-Explained}
use kasm.Tests.Machine.{machine, exit_file, blank}
use kasm.Tests.Vm.{after_third, rounds, three_rounds, test_last}

abbrev tools : Tools
tools = record {
  assemble = λ _ _. Ending.returns 0;
  disassemble = λ _ _. Ending.returns 0;
  execute = λ _. Ending.returns 7;
}

abbrev disk : String → Option (List ℕ)
disk path = if str_eq path "a.kexe" then some exit_file else none

abbrev unloaded : VirtualMachine
unloaded = record machine { program = blank }

abbrev from_file : VirtualMachine
from_file = reset (record unloaded { program = load blank exit_file })

loaded : Rounds from_file after_third
unfolding load header_over read_word word_at reset
loaded = rounds

three_from_file : rounds_of loaded ≡ 3
unfolding rounds_of loaded load header_over read_word word_at reset
three_from_file = three_rounds

main-vm_example :
    main
      (record tools { execute = execute_file 4 (λ _. "") disk unloaded })
      ("kasm" ∷ "vm" ∷ "a.kexe" ∷ [])
    ≡ Exit.exits 7 []
main-vm_example =
    main-vm tools 4 (λ _. "") "kasm" "a.kexe" [] disk exit_file unloaded after_third loaded refl
      (Stops.by_test test_last) (omega (arith, three_from_file))

main_seven : main tools ("kasm" ∷ "vm" ∷ "a.kexe" ∷ []) ≡ Exit.exits 7 []
unfolding main
main_seven = refl

main-Explained_example : Explained tools ("kasm" ∷ "vm" ∷ "a.kexe" ∷ []) 7 []
main-Explained_example = main-Explained tools ("kasm" ∷ "vm" ∷ "a.kexe" ∷ []) 7 [] main_seven

abbrev codes : String → List ℕ
codes _ = 97 ∷ 98 ∷ []

abbrev bits : ℕ → Uninitialised
bits _ = record { label_size = 2; location = 99 }

read_entries-save_symbol_table_example :
    read_entries 3 bits (opened (save_symbol_table codes (("ab", 4) ∷ [])))
    ≡ some (listed codes (("ab", 4) ∷ []) ++ stray (bits 1) ∷ [])
read_entries-save_symbol_table_example =
    read_entries-save_symbol_table 3 bits codes (("ab", 4) ∷ []) (omega arith, omega arith, tt)
      (omega arith) (omega arith)

-- A buffer of two bytes in the stack area, and "A" and a newline to be read.
abbrev reader : VirtualMachine
reader = record (set_register 5 2 (set_register 4 0x80000000 machine)) {
  console = record { input = 65 ∷ 10 ∷ []; good = true; output = [] };
}

abbrev a_read : Program
a_read =
    let p = with_bytes machine.program Area.in_stack (put_byte machine.program.stack 0 65) in
    with_bytes p Area.in_stack (put_byte p.stack 1 0)

abbrev after_read : VirtualMachine
after_read = record reader {
  program = a_read;
  console = record { input = []; good = true; output = [] };
}

text_read : read_string_call reader ≡ Outcome.ok after_read
unfolding read_string_call read_string_loop set_char locate bound bytes_of get add32 set_register
    put with_bytes
text_read = refl

read_string_call-WritesWithin_example :
    WritesWithin reader.program after_read.program 0x80000000 (2 - 1)
unfolding set_register put
read_string_call-WritesWithin_example =
    read_string_call-WritesWithin reader after_read (omega arith) (omega arith) text_read
