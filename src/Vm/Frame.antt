-- ===== src/Vm/Frame.antt =====
-- src/virtualMachine.cpp, `executeInstruction`: what an instruction leaves alone, and an opcode that
-- has no case.
use kasm.Base.{ℕ, ◌≤◌, ◌≡◌, none, arith, get_elem?-none}
use kasm.Common.{Opcode, decode, opcode, opcodes}
use kasm.Vm.State.{VirtualMachine, Signal, Outcome, set_register, advance_pc, execute_signal}
use kasm.Vm.Execute.{
  execute, execute_instruction, write_back, jump_to, branch_if, link, divide, multiply, shift,
  add_immediate, resolve_address,
}

-- Whatever way a function ends that C++ defines, the state it leaves satisfies `P`.
abbrev pub Ensures : (VirtualMachine → Type 0) → Outcome → Type 0
Ensures P (Outcome.ok vm) = P vm
Ensures P (Outcome.signal s vm) = P vm
Ensures P (Outcome.error m vm) = P vm
Ensures P (Outcome.out_of_range vm) = P vm
Ensures P (Outcome.bad_alloc vm) = P vm
Ensures P Outcome.undefined = Unit

-- The instructions that may write to memory.
abbrev pub IsStore : Opcode → Type 0
IsStore Opcode.sb = Unit
IsStore Opcode.sw = Unit
IsStore Opcode.sys = Unit
IsStore _ = ⊥

-- Memory, the streams, the open files, the blocks of the host, the handlers, and the exit flag and code.
pub record SameOutside (vm vm' : VirtualMachine) : Type 0 where
  pub same_program : vm'.program ≡ vm.program
  pub same_console : vm'.console ≡ vm.console
  pub same_files : vm'.files ≡ vm.files
  pub same_file_id : vm'.file_id ≡ vm.file_id
  pub same_heap : vm'.heap ≡ vm.heap
  pub same_handlers : vm'.signal_handlers ≡ vm.signal_handlers
  pub same_calls : vm'.handler_calls ≡ vm.handler_calls
  pub same_exit : vm'.should_exit ≡ vm.should_exit
  pub same_exit_code : vm'.exit_code ≡ vm.exit_code

abbrev Keeps : VirtualMachine → Outcome → Type 0
Keeps vm = Ensures (SameOutside vm)

-- Every instruction but SB, SW and SYS leaves memory, the streams, the open files, the blocks of the
-- host, the signal handlers with their calls, and the exit flag and code as they were, whether it
-- completes or not.
pub execute-SameOutside :
    (op : Opcode) (d : ℕ) (vm : VirtualMachine)
    → (IsStore op → ⊥)
    → Ensures (SameOutside vm) (execute op d vm)
unfolding execute write_back jump_to branch_if link divide multiply shift add_immediate
    resolve_address advance_pc set_register
execute-SameOutside Opcode.sb d vm h = absurd (h tt)
execute-SameOutside Opcode.sw d vm h = absurd (h tt)
execute-SameOutside Opcode.sys d vm h = absurd (h tt)
execute-SameOutside _ d vm h = ground arith

-- A number from 48 on is no opcode.
decode-none : (n : ℕ) → 48 ≤ n → decode n ≡ none
unfolding decode
decode-none n h = get_elem?-none opcodes n h

-- An instruction whose opcode has no case raises the signal where no handler is set, and leaves the
-- state as it was, `pc` included.
pub execute_instruction-illegal :
    (d : ℕ) (vm : VirtualMachine)
    → 48 ≤ opcode d
    → vm.signal_handlers Signal.illegal_opcode ≡ none
    → execute_instruction d vm ≡ Outcome.signal Signal.illegal_opcode vm
unfolding execute_instruction execute_signal
execute_instruction-illegal d vm h free = rw (decode-none (opcode d) h, free)
