-- ===== src/Tests/Vm.antt =====
-- The machine's theorems at the program that exits with 7.
use kasm.Base.{inr, ◌≡◌, refl, true, some, arith, add32}
use kasm.Common.{
  set_opcode, set_register0, set_register1, set_register2, Opcode, encode, decode, decode-encode,
  opcode, register0, register1, immediate,
}
use kasm.Common.Encoding.{ThreeRegisters, set_register2-ThreeRegisters}
use kasm.Vm.Memory.{
  Program, Area, with_bytes, get_word, set_word, locate, bound, bytes_of, put_word, word_at,
}
use kasm.Vm.State.{VirtualMachine, Outcome, reset, set_register, put, advance_pc}
use kasm.Vm.Execute.{execute, execute_instruction, write_back}
use kasm.Vm.Syscall.{system_call, decode_syscall, serve}
use kasm.Vm.Run.{run, execute_program}
use kasm.Vm.Run.Reach.{
  Continues, Leaves, Executes, fetched, Rounds, Stops, Ends, rounds_of, run-Ends, Ends-run,
}
use kasm.Vm.Frame.{execute-SameOutside, SameOutside, Ensures}
use kasm.Vm.Signs.{sign_tests, BothSignTests}
use kasm.Tests.Machine.{machine, exit_program}

-- The states after one, two and three instructions.
abbrev pub after_first : VirtualMachine
after_first = set_register 2 0 (record (reset machine) { pc = 4 })

abbrev pub after_second : VirtualMachine
after_second = set_register 4 7 (record after_first { pc = 8 })

abbrev pub after_third : VirtualMachine
after_third = record after_second { pc = 12; should_exit = true; exit_code = 7 }

pub first_done : Executes (reset machine) (Outcome.ok after_first)
unfolding get_word locate bound word_at bytes_of execute_instruction decode opcode execute
    write_back register0 register1 immediate reset set_register put advance_pc add32
first_done = fetched 0x6C400000 refl refl

pub second_done : Executes after_first (Outcome.ok after_second)
unfolding get_word locate bound word_at bytes_of execute_instruction decode opcode execute
    write_back register0 register1 immediate reset set_register put advance_pc add32
second_done = fetched 0x6C800007 refl refl

pub third_done : Executes after_second (Outcome.ok after_third)
unfolding get_word locate bound word_at bytes_of execute_instruction decode opcode execute
    write_back register0 register1 immediate reset set_register put advance_pc add32 system_call
    decode_syscall serve
third_done = fetched 0xAC000000 refl refl

pub at_first : Continues (reset machine)
unfolding reset set_register
at_first = record { in_text = omega arith; no_exit = refl }

pub at_second : Continues after_first
unfolding reset set_register
at_second = record { in_text = omega arith; no_exit = refl }

pub at_third : Continues after_second
unfolding reset set_register
at_third = record { in_text = omega arith; no_exit = refl }

pub test_last : Leaves after_third
unfolding reset set_register
test_last = inr refl

abbrev pub rounds : Rounds (reset machine) after_third
rounds =
    Rounds.next at_first first_done
      (Rounds.next at_second second_done (Rounds.next at_third third_done Rounds.here))

pub three_rounds : rounds_of rounds ≡ 3
unfolding rounds_of
three_rounds = refl

Ends-run_example : run 4 (reset machine) ≡ some (Outcome.ok after_third)
Ends-run_example = Ends-run 4 rounds (Stops.by_test test_last) (omega (arith, three_rounds))

exits_with_seven : execute_program 4 machine ≡ some (Outcome.ok after_third)
unfolding execute_program
exits_with_seven = Ends-run 4 rounds (Stops.by_test test_last) (omega (arith, three_rounds))

run-Ends_example : Ends (reset machine) (Outcome.ok after_third)
run-Ends_example =
    run-Ends 4 (reset machine) (Outcome.ok after_third)
      (Ends-run 4 rounds (Stops.by_test test_last) (omega (arith, three_rounds)))

execute-SameOutside_example : Ensures (SameOutside machine) (execute Opcode.lw 0 machine)
execute-SameOutside_example = execute-SameOutside Opcode.lw 0 machine (λ h. h)

sign_tests_example : BothSignTests 8 machine
sign_tests_example = sign_tests 8 machine

set_register2-ThreeRegisters_example :
    ThreeRegisters (set_register2 (set_register1 (set_register0 (set_opcode 0 3) 4) 5) 6) 3 4 5 6
set_register2-ThreeRegisters_example =
    set_register2-ThreeRegisters 0 3 4 5 (omega arith) (omega arith) (omega arith) (omega arith) 6
      (omega arith)

decode-encode_sys : decode (encode Opcode.sys) ≡ some Opcode.sys
decode-encode_sys = decode-encode Opcode.sys

-- A word on the stack.
abbrev pushed : Program
pushed = with_bytes exit_program Area.in_stack (put_word exit_program.stack 252 305419896)

stack_write : set_word exit_program 0x800000FC 305419896 ≡ some pushed
unfolding set_word locate bound bytes_of
stack_write = refl

stack_read : get_word exit_program 0x800000FC ≡ some 0
unfolding get_word locate bound bytes_of word_at
stack_read = refl
