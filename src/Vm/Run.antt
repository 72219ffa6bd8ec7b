-- ===== src/Vm/Run.antt =====
-- src/virtualMachine.cpp, `fetchInstruction`, `step`, `run`, `execute`. The `while` of `run` need not
-- end, so it takes fuel: `none` says that the fuel ran out.
pub mod Reach
use kasm.Base.{ℕ, zero, suc, Bool, true, false, not, ◌&&◌, Option, none, some, ltb}
use kasm.Vm.Memory.{get_word}
use kasm.Vm.State.{VirtualMachine, Outcome, given, reset}
use kasm.Vm.Execute.{execute_instruction}

-- `fetchInstruction` and `executeInstruction`; the body of the loop of `run`, and `step`.
unfoldable pub step : VirtualMachine → Outcome
step vm = given (get_word vm.program vm.pc) λ d. execute_instruction d vm

-- The condition of the loop.
unfoldable pub running : VirtualMachine → Bool
running vm = ltb vm.pc vm.program.header.text_segment_length && not vm.should_exit

-- An exception leaves the loop.
abbrev pub and_then : Outcome → (VirtualMachine → Option Outcome) → Option Outcome
and_then (Outcome.ok vm) f = f vm
and_then o f = some o

unfoldable pub run : ℕ → VirtualMachine → Option Outcome
run zero vm = elim (running vm) [ true ↦ none | false ↦ some (Outcome.ok vm) ]
run (suc fuel) vm = elim (running vm) [
  | true ↦ and_then (step vm) (λ vm'. run fuel vm')
  | false ↦ some (Outcome.ok vm)
]

-- `execute` returns `exitCode` of the state that the loop leaves.
unfoldable pub execute_program : ℕ → VirtualMachine → Option Outcome
execute_program fuel vm = run fuel (reset vm)
