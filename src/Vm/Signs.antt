-- ===== src/Vm/Signs.antt =====
-- src/virtualMachine.cpp, `executeInstruction`: the comparisons with zero. The registers are
-- `std::uint32_t`, so the tests `>= 0` and `< 0` do not look at a sign.
use kasm.Base.{ℕ, ◌≡◌, arith, add32, ◌==◌, if◌then◌else◌}
use kasm.Common.{Opcode, register0, direct_address_offset}
use kasm.Vm.State.{VirtualMachine, Outcome, advance_pc}
use kasm.Vm.Execute.{execute, branch_if, jump_to, resolve_address}

-- Where a taken branch goes.
abbrev pub target : ℕ → VirtualMachine → ℕ
target d vm = add32 (direct_address_offset d) vm.pc

abbrev pub BothSignTests : ℕ → VirtualMachine → Type 0
BothSignTests d vm =
    (execute Opcode.bgez d vm ≡ Outcome.ok (record vm { pc = target d vm }))
    × (execute Opcode.bltz d vm ≡ Outcome.ok (advance_pc vm))
    × (execute Opcode.bltzal d vm ≡ Outcome.ok (advance_pc (advance_pc vm)))

-- Whatever the register holds, a word with the sign bit set too, BGEZ takes its branch, BLTZ goes
-- on with the next instruction, and BLTZAL skips that one as well.
pub sign_tests : (d : ℕ) (vm : VirtualMachine) → BothSignTests d vm
unfolding execute branch_if jump_to resolve_address
sign_tests d vm = (ground arith, ground arith, ground arith)

abbrev pub BothZeroTests : ℕ → VirtualMachine → Type 0
BothZeroTests d vm =
    let at_zero = vm.registers (register0 d) == 0 in
    let taken = Outcome.ok (record vm { pc = target d vm }) in
    let passed = Outcome.ok (advance_pc vm) in
    (execute Opcode.bgtz d vm ≡ (if at_zero then passed else taken))
    × (execute Opcode.blez d vm ≡ (if at_zero then taken else passed))

-- BGTZ takes its branch at every word but 0, one with the sign bit set too, and BLEZ at 0 only;
-- otherwise they go on with the next instruction.
pub zero_tests : (d : ℕ) (vm : VirtualMachine) → BothZeroTests d vm
unfolding execute branch_if jump_to resolve_address
zero_tests d vm = (ground arith, ground arith)
