-- ===== src/Vm/Execute.antt =====
-- src/virtualMachine.cpp, `executeInstruction` and `resolveAddress`.
use kasm.Base.{
  ℕ, ◌-◌, ◌*◌, ◌/◌, ◌%◌, ◌^◌, Bool, not, Option, none, some, ltb, leb, ◌==◌, if◌then◌else◌, maybe,
  add32, sub32, not32, sign_extend, add_overflows, bit_and, bit_or, bit_xor,
}
use kasm.Common.{
  Opcode, decode, instruction_size, ra, opcode, register0, register1, register2, immediate,
  direct_address_absolute, direct_address_offset, AddressType,
}
use kasm.Vm.Memory.{get_word, set_word, get_byte, set_byte}
use kasm.Vm.State.{
  VirtualMachine, Signal, Outcome, ◌>>=◌, given, set_register, advance_pc, execute_signal,
}
use kasm.Vm.Syscall.{system_call}

-- `resolveAddress`; the types that it does not treat leave the function without a value.
unfoldable pub resolve_address : AddressType → ℕ → VirtualMachine → Option ℕ
unfolding add32
resolve_address AddressType.direct_address_absolute d vm = some (direct_address_absolute d)
resolve_address AddressType.direct_address_offset d vm =
    some (add32 (direct_address_offset d) vm.pc)
resolve_address AddressType.indirect_address_offset d vm =
    some (add32 (add32 (vm.registers (register1 d)) (direct_address_offset d)) vm.pc)
resolve_address _ d vm = none

-- `registers[d.register0] = v; advancePc();`
unfoldable pub write_back : ℕ → ℕ → VirtualMachine → Outcome
write_back d v vm = Outcome.ok (advance_pc (set_register (register0 d) v vm))

-- `pc = resolveAddress(d, type)`
unfoldable pub jump_to : AddressType → ℕ → VirtualMachine → Outcome
jump_to t d vm = given (resolve_address t d vm) λ a. Outcome.ok (record vm { pc = a })

unfoldable pub branch_if : Bool → ℕ → VirtualMachine → Outcome
branch_if b d vm =
    if b then jump_to AddressType.direct_address_offset d vm else Outcome.ok (advance_pc vm)

-- `registers[RA] = pc + INSTRUCTION_SIZE`
unfoldable pub link : VirtualMachine → VirtualMachine
link vm = set_register ra (add32 vm.pc instruction_size) vm

-- The quotient and the remainder of two registers; by zero undefined.
unfoldable pub divide : ℕ → VirtualMachine → Outcome
divide d vm =
    let a = vm.registers (register0 d) in
    let b = vm.registers (register1 d) in
    if b == 0
    then Outcome.undefined
    else Outcome.ok (advance_pc (record vm { lo = a / b; hi = a % b }))

unfoldable pub multiply : ℕ → VirtualMachine → Outcome
multiply d vm =
    let product = vm.registers (register0 d) * vm.registers (register1 d) in
    Outcome.ok (advance_pc (record vm { lo = product % 2 ^ 32; hi = product / 2 ^ 32 }))

-- A shift of a 32-bit value by 32 or more is undefined.
unfoldable pub shift : ℕ → ℕ → ℕ → VirtualMachine → Outcome
shift d count v vm = if ltb count 32 then write_back d v vm else Outcome.undefined

-- A comparison gives 1 or 0.
abbrev pub flag : Bool → ℕ
flag b = if b then 1 else 0

-- The address of a load or a store.
abbrev operand : ℕ → VirtualMachine → Option ℕ
operand d vm = resolve_address AddressType.indirect_address_offset d vm

unfoldable pub add_immediate : ℕ → VirtualMachine → Outcome
unfolding sign_extend
add_immediate d vm =
    let a = vm.registers (register1 d) in
    let i = sign_extend (immediate d) in
    if add_overflows a i then Outcome.undefined else write_back d (add32 a i) vm

-- The `switch`, case by case.
unfoldable pub execute : Opcode → ℕ → VirtualMachine → Outcome
execute op d vm =
    let r0 = vm.registers (register0 d) in
    let r1 = vm.registers (register1 d) in
    let r2 = vm.registers (register2 d) in
    let i = immediate d in
    elim op [
      | Opcode.add ↦ write_back d (add32 r1 r2) vm
      | Opcode.addi ↦ add_immediate d vm
      | Opcode.addiu ↦ write_back d (add32 r1 i) vm
      | Opcode.addu ↦ write_back d (add32 r1 r2) vm
      | Opcode.and ↦ write_back d (bit_and r1 r2) vm
      | Opcode.andi ↦ write_back d (bit_and r1 i) vm
      | Opcode.beq ↦ branch_if (r0 == r1) d vm
      | Opcode.bgez ↦ branch_if (leb 0 r0) d vm
      | Opcode.bgezal ↦
          if leb 0 r0
          then jump_to AddressType.direct_address_offset d (link vm)
          else Outcome.ok (advance_pc vm)
      | Opcode.bgtz ↦ branch_if (ltb 0 r0) d vm
      | Opcode.blez ↦ branch_if (leb r0 0) d vm
      | Opcode.bltz ↦ branch_if (ltb r0 0) d vm
      | Opcode.bltzal ↦
          let vm' = advance_pc vm in
          if ltb r0 0
          then jump_to AddressType.direct_address_offset d (link vm')
          else Outcome.ok (advance_pc vm')
      | Opcode.bne ↦ branch_if (not (r0 == r1)) d vm
      | Opcode.div ↦ divide d vm
      | Opcode.divu ↦ divide d vm
      | Opcode.j ↦ jump_to AddressType.direct_address_absolute d vm
      | Opcode.jal ↦ jump_to AddressType.direct_address_absolute d (link vm)
      | Opcode.jr ↦ Outcome.ok (record vm { pc = r0 })
      | Opcode.lb ↦ given (operand d vm) λ a. given (get_byte vm.program a) λ b. write_back d b vm
      | Opcode.lui ↦ write_back d (i * 2 ^ 16) vm
      | Opcode.lw ↦ given (operand d vm) λ a. given (get_word vm.program a) λ w. write_back d w vm
      | Opcode.mfhi ↦ write_back d vm.hi vm
      | Opcode.mflo ↦ write_back d vm.lo vm
      | Opcode.mult ↦ multiply d vm
      | Opcode.multu ↦ multiply d vm
      | Opcode.or ↦ write_back d (bit_or r1 r2) vm
      | Opcode.ori ↦ write_back d (bit_or r1 i) vm
      | Opcode.sb ↦ given (operand d vm) λ a.
          given (set_byte vm.program a r0) λ p. Outcome.ok (advance_pc (record vm { program = p }))
      | Opcode.sll ↦ shift d i (r1 * 2 ^ i % 2 ^ 32) vm
      | Opcode.sllv ↦ shift d r2 (r1 * 2 ^ r2 % 2 ^ 32) vm
      | Opcode.slt ↦ write_back d (flag (ltb r1 r2)) vm
      | Opcode.slti ↦ write_back d (flag (ltb r1 i)) vm
      | Opcode.sltiu ↦ write_back d (flag (ltb r1 i)) vm
      | Opcode.sltu ↦ write_back d (flag (ltb r1 r2)) vm
      | Opcode.sne ↦ write_back d (flag (not (r1 == r2))) vm
      | Opcode.seq ↦ write_back d (flag (r1 == r2)) vm
      | Opcode.sra ↦ shift d i (bit_or (r1 / 2 ^ i) (not32 ((2 ^ 32 - 1) / 2 ^ i))) vm
      | Opcode.srl ↦ shift d i (r1 / 2 ^ i) vm
      | Opcode.srlv ↦ shift d r2 (r1 / 2 ^ r2) vm
      | Opcode.sub ↦ write_back d (sub32 r1 r2) vm
      | Opcode.subu ↦ write_back d (sub32 r1 r2) vm
      | Opcode.sw ↦ given (operand d vm) λ a.
          given (set_word vm.program a r0) λ p. Outcome.ok (advance_pc (record vm { program = p }))
      | Opcode.sys ↦ (system_call vm >>= λ vm'. Outcome.ok (advance_pc vm'))
      | Opcode.xor ↦ write_back d (bit_xor r1 r2) vm
      | Opcode.xori ↦ write_back d (bit_xor r1 i) vm
      | Opcode.jalr ↦
          let vm' = set_register (register1 d) (add32 vm.pc instruction_size) vm in
          Outcome.ok (record vm' { pc = vm'.registers (register0 d) })
      | Opcode.nor ↦ write_back d (not32 (bit_or r1 r2)) vm
    ]

-- `executeInstruction`: a number with no case raises the signal and leaves `pc` where it is.
unfoldable pub execute_instruction : ℕ → VirtualMachine → Outcome
execute_instruction d vm =
    maybe (decode (opcode d)) (execute_signal Signal.illegal_opcode vm) (λ op. execute op d vm)
