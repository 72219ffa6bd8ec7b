-- ===== src/Assembler/Statement.antt =====
-- src/assembler.yy, the actions of the instructions and the pseudo-instructions.
pub mod Branches
pub mod Stack
pub mod Push
use kasm.Base.{ℕ, suc, ◌+◌, Bool, Option, none, some, List, [], ◌∷◌, String, sub32}
use kasm.Common.{Opcode, AddressType, instruction_size, r_zero, r_at, sp, fp, ra}
use kasm.Assembler.{
  AddressData, Assembler, word_rrr, word_rrl, word_rr, word_rl, word_r, word_o, emit, emit_address,
  load_immediate, load_address,
}

-- An instruction or a pseudo-instruction with its operands. The first eleven are the shapes of the
-- instructions, each with the opcodes that the grammar gives it; a direct address is a label.
pub data Statement : Type 0 where
  three_registers : Opcode → (r0 r1 r2 : ℕ) → Statement
  two_and_literal : Opcode → (r0 r1 l : ℕ) → Statement
  two_and_label : Opcode → (r0 r1 : ℕ) → AddressData → Statement
  one_and_label : Opcode → (r0 : ℕ) → AddressData → Statement
  two_registers : Opcode → (r0 r1 : ℕ) → Statement
  one_and_literal : Opcode → (r0 l : ℕ) → Statement
  memory : Opcode → (r0 : ℕ) → AddressData → Statement
  one_register : Opcode → (r0 : ℕ) → Statement
  jump : Opcode → AddressData → Statement
  alone : Opcode → Statement
  copy : (r0 r1 : ℕ) → Statement
  clear : (r0 : ℕ) → Statement
  add_literal : (r0 r1 l : ℕ) → Statement
  jump_and_link : (r0 : ℕ) → Statement
  nop : Statement
  branch branch_and_link : AddressData → Statement
  bgt blt bge ble bgtu : (r0 r1 : ℕ) → AddressData → Statement
  beqz : (r0 : ℕ) → AddressData → Statement
  beq_literal bne_literal : (r0 l : ℕ) → AddressData → Statement
  multiply_into divide_into remainder_into : (r0 r1 r2 : ℕ) → Statement
  negation : (r0 r1 : ℕ) → Statement
  push_word pop_word push_byte pop_byte : (r0 : ℕ) → Statement
  enter ret : Statement
  call : AddressData → Statement
  load_literal : (r0 l : ℕ) → Statement
  load_place : (r0 : ℕ) → AddressData → Statement

-- `stackAddress`, 0($sp).
abbrev pub stack_address : AddressData
stack_address = record {
  type = AddressType.invalid;
  position = 0;
  instruction = 0;
  label = "";
  offset = 0;
  reg = sp;
}

module _ (g : ℕ → ℕ) where
  -- The macros, on the uninitialised word of a number.
  abbrev pub rrr : ℕ → Opcode → ℕ → ℕ → ℕ → Assembler → Assembler
  rrr k op r0 r1 r2 a = emit (word_rrr (g k) op r0 r1 r2) a

  abbrev pub rrl : ℕ → Opcode → ℕ → ℕ → ℕ → Assembler → Assembler
  rrl k op r0 r1 l a = emit (word_rrl (g k) op r0 r1 l) a

  abbrev pub rra : ℕ → Opcode → ℕ → ℕ → AddressData → Assembler → Assembler
  rra k op r0 r1 d a = emit_address (word_rr (g k) op r0 r1) AddressType.direct_address_offset d a

  abbrev pub label_after : ℕ → Opcode → ℕ → AddressData → Assembler → Assembler
  label_after k op r0 d a = emit_address (word_r (g k) op r0) AddressType.direct_address_offset d a

  abbrev pub at_address : ℕ → Opcode → ℕ → AddressData → Assembler → Assembler
  at_address k op r0 d a = emit_address (word_r (g k) op r0) AddressType.indirect_address_offset d a

  abbrev pub to_address : ℕ → Opcode → AddressData → Assembler → Assembler
  to_address k op d a = emit_address (word_o (g k) op) AddressType.direct_address_absolute d a

  abbrev pub rr : ℕ → Opcode → ℕ → ℕ → Assembler → Assembler
  rr k op r0 r1 a = emit (word_rr (g k) op r0 r1) a

  abbrev pub r : ℕ → Opcode → ℕ → Assembler → Assembler
  r k op r0 a = emit (word_r (g k) op r0) a

  -- `$sp` moved by a number of bytes.
  abbrev pub move_stack : ℕ → ℕ → Assembler → Assembler
  move_stack k n a = rrl k Opcode.addi sp sp n a

  -- One statement: the macros of its action, one after the other. `g` gives the words that they start
  -- from, which are not initialised.
  unfoldable pub assemble_statement : Statement → Assembler → Assembler
  assemble_statement (Statement.three_registers op r0 r1 r2) a = rrr 0 op r0 r1 r2 a
  assemble_statement (Statement.two_and_literal op r0 r1 l) a = rrl 0 op r0 r1 l a
  assemble_statement (Statement.two_and_label op r0 r1 d) a = rra 0 op r0 r1 d a
  assemble_statement (Statement.one_and_label op r0 d) a = label_after 0 op r0 d a
  assemble_statement (Statement.two_registers op r0 r1) a = rr 0 op r0 r1 a
  assemble_statement (Statement.one_and_literal op r0 l) a = emit (word_rl (g 0) op r0 l) a
  assemble_statement (Statement.memory op r0 d) a = at_address 0 op r0 d a
  assemble_statement (Statement.one_register op r0) a = r 0 op r0 a
  assemble_statement (Statement.jump op d) a = to_address 0 op d a
  assemble_statement (Statement.alone op) a = emit (word_o (g 0) op) a
  assemble_statement (Statement.copy r0 r1) a = rrl 0 Opcode.or r0 r1 r_zero a
  assemble_statement (Statement.clear r0) a = rrl 0 Opcode.or r0 r_zero r_zero a
  assemble_statement (Statement.add_literal r0 r1 l) a = rrl 0 Opcode.addi r0 r1 l a
  assemble_statement (Statement.jump_and_link r0) a = rr 0 Opcode.jalr r0 ra a
  assemble_statement Statement.nop a = rrl 0 Opcode.sll r_zero r_zero 0 a
  assemble_statement (Statement.branch d) a = rra 0 Opcode.beq r_zero r_zero d a
  assemble_statement (Statement.branch_and_link d) a = label_after 0 Opcode.bgezal r_zero d a
  assemble_statement (Statement.bgt r0 r1 d) a =
      rra 1 Opcode.bne r_at r_zero d (rrr 0 Opcode.slt r_at r1 r0 a)
  assemble_statement (Statement.blt r0 r1 d) a =
      rra 1 Opcode.bne r_at r_zero d (rrr 0 Opcode.slt r_at r0 r1 a)
  assemble_statement (Statement.bge r0 r1 d) a =
      rra 1 Opcode.beq r_at r_zero d (rrr 0 Opcode.slt r_at r0 r1 a)
  assemble_statement (Statement.ble r0 r1 d) a =
      rra 1 Opcode.beq r_at r_zero d (rrr 0 Opcode.slt r_at r1 r0 a)
  assemble_statement (Statement.bgtu r0 r1 d) a =
      rra 1 Opcode.beq r_at r_zero d (rrr 0 Opcode.sltu r_at r0 r1 a)
  assemble_statement (Statement.beqz r0 d) a = rra 0 Opcode.beq r0 r_zero d a
  assemble_statement (Statement.beq_literal r0 l d) a =
      rra 1 Opcode.beq r0 r_at d (rrl 0 Opcode.ori r_at r_zero l a)
  assemble_statement (Statement.bne_literal r0 l d) a =
      rra 1 Opcode.bne r0 r_at d (rrl 0 Opcode.ori r_at r_zero l a)
  assemble_statement (Statement.multiply_into r0 r1 r2) a =
      r 1 Opcode.mflo r0 (rr 0 Opcode.mult r1 r2 a)
  assemble_statement (Statement.divide_into r0 r1 r2) a =
      r 1 Opcode.mflo r0 (rr 0 Opcode.div r1 r2 a)
  assemble_statement (Statement.remainder_into r0 r1 r2) a =
      r 1 Opcode.mfhi r0 (rr 0 Opcode.div r1 r2 a)
  assemble_statement (Statement.negation r0 r1) a = rrr 0 Opcode.nor r0 r1 r_zero a
  assemble_statement (Statement.push_word r0) a =
      at_address 1 Opcode.sw r0 stack_address (move_stack 0 (sub32 0 instruction_size) a)
  assemble_statement (Statement.pop_word r0) a =
      move_stack 1 instruction_size (at_address 0 Opcode.lw r0 stack_address a)
  assemble_statement (Statement.push_byte r0) a =
      at_address 1 Opcode.sb r0 stack_address (move_stack 0 (sub32 0 1) a)
  assemble_statement (Statement.pop_byte r0) a =
      move_stack 1 1 (at_address 0 Opcode.lb r0 stack_address a)
  assemble_statement Statement.enter a =
      let a1 = move_stack 0 (sub32 0 instruction_size) a in
      let a2 = at_address 1 Opcode.sw ra stack_address a1 in
      let a3 = move_stack 2 (sub32 0 instruction_size) a2 in
      let a4 = at_address 3 Opcode.sw fp stack_address a3 in rrl 4 Opcode.or fp sp r_zero a4
  assemble_statement Statement.ret a =
      let a1 = rrl 0 Opcode.or sp fp r_zero a in
      let a2 = at_address 1 Opcode.lw fp stack_address a1 in
      let a3 = move_stack 2 instruction_size a2 in
      let a4 = at_address 3 Opcode.lw ra stack_address a3 in
      r 5 Opcode.jr ra (move_stack 4 instruction_size a4)
  assemble_statement (Statement.call d) a = to_address 0 Opcode.jal d a
  assemble_statement (Statement.load_literal r0 l) a = load_immediate (g 0) (g 1) r0 l a
  assemble_statement (Statement.load_place r0 d) a = load_address (g 2) (g 0) (g 1) r0 d a
