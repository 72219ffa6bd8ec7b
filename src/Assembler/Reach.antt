-- ===== src/Assembler/Reach.antt =====
-- src/assembler_util.cpp, `resolveAddress`, against src/virtualMachine.cpp, `resolveAddress`: where
-- the machine goes, or which address it takes, at an instruction whose label was resolved.
use kasm.Base.{
  ℕ, ◌+◌, ◌*◌, ◌/◌, ◌%◌, ◌^◌, ◌≤◌, ◌<◌, ◌≡◌, refl, ap, Bool, true, false, not, some, ◌==◌,
  if◌then◌else◌, arith, add32, sub32, sign_extend-sub32, IsWord,
}
use kasm.Common.{
  Opcode, AddressType, ra, encode, decode, decode-encode, opcode, register0, register1,
  direct_address_absolute, direct_address_offset, set_opcode, set_register0, set_register1,
  set_direct_address_absolute, set_direct_address_offset,
}
use kasm.Vm.State.{VirtualMachine, Outcome, advance_pc, set_register}
use kasm.Vm.Execute.{execute, execute_instruction, branch_if, jump_to, link}
use kasm.Vm.Execute as Execute
use kasm.Assembler.{
  AddressData, Assembler, lookup, resolved, resolved_by, resolve_address, emit, emit_address,
  word_rr, word_o,
}

-- A label that a 16-bit offset from the instruction can reach.
abbrev pub Reachable : ℕ → ℕ → Type 0
Reachable l p = IsWord l × IsWord p × (p ≤ l + 0x8000) × (l < p + 0x8000)

abbrev pub branch_word : ℕ → Opcode → ℕ → ℕ → ℕ → ℕ → ℕ
branch_word g op r0 r1 l p = set_direct_address_offset (word_rr g op r0 r1) (sub32 l p)

abbrev pub OnEquality : ℕ → ℕ → ℕ → ℕ → ℕ → VirtualMachine → Type 0
OnEquality g l r0 r1 p vm =
    (execute_instruction (branch_word g Opcode.beq r0 r1 l p) vm ≡ (
      if vm.registers r0 == vm.registers r1
      then Outcome.ok (record vm { pc = l })
      else Outcome.ok (advance_pc vm)))
    × (execute_instruction (branch_word g Opcode.bne r0 r1 l p) vm ≡ (
        if vm.registers r0 == vm.registers r1
        then Outcome.ok (advance_pc vm)
        else Outcome.ok (record vm { pc = l })))

-- What INSTRUCTION_RRA writes.
abbrev pub Writes : ℕ → Opcode → ℕ → ℕ → ℕ → AddressData → Assembler → Type 0
Writes g op r0 r1 l d a =
    emit_address (word_rr g op r0 r1) AddressType.direct_address_offset d a
    ≡ emit (branch_word g op r0 r1 l a.binary.cursor) a

abbrev pub jump_word : ℕ → Opcode → ℕ → ℕ
jump_word g op l = set_direct_address_absolute (word_o g op) l

abbrev pub Jumps :
    ℕ → Opcode → ℕ → AddressData → Assembler → VirtualMachine → VirtualMachine → Type 0
Jumps g op l d a vm vm' =
    (emit_address (word_o g op) AddressType.direct_address_absolute d a ≡ emit (jump_word g op l) a)
    × (execute_instruction (jump_word g op l) vm ≡ Outcome.ok (record vm' { pc = l }))

pub if-not {ℓ} : {A : Type ℓ} (b : Bool) (x y : A) → (if not b then x else y) ≡ (if b then y else x)
if-not true x y = refl
if-not false x y = refl

offset-target :
    (d l p : ℕ)
    → Reachable l p
    → add32 (direct_address_offset (set_direct_address_offset d (sub32 l p))) p ≡ l
unfolding direct_address_offset set_direct_address_offset
offset-target d l p (hl, hp, lo, hi) =
    let field : (d / 2 ^ 16 * 2 ^ 16 + sub32 l p % 2 ^ 16) % 2 ^ 16 ≡ sub32 l p % 2 ^ 16 =
      omega arith in
    rw field (sign_extend-sub32 l p hl hp lo hi)

encode-lt : (op : Opcode) → encode op < 2 ^ 6
unfolding encode
encode-lt Opcode.add = omega arith
encode-lt _ = omega arith

module _ (g l : ℕ) (op : Opcode) where
  jump_word-opcode : decode (opcode (jump_word g op l)) ≡ some op
  unfolding word_o opcode set_direct_address_absolute set_opcode
  jump_word-opcode =
      let back : opcode (jump_word g op l) ≡ encode op = omega (arith, encode-lt op) in
      rw back (decode-encode op)

  jump_word-target : l < 2 ^ 26 → direct_address_absolute (jump_word g op l) ≡ l
  unfolding word_o direct_address_absolute set_direct_address_absolute
  jump_word-target h = omega arith

module _ (g r0 r1 l p : ℕ) (hg : IsWord g) (h0 : r0 < 2 ^ 5) (h1 : r1 < 2 ^ 5) where
  pub branch_word-opcode : (op : Opcode) → decode (opcode (branch_word g op r0 r1 l p)) ≡ some op
  unfolding word_rr opcode set_direct_address_offset set_register0 set_register1 set_opcode
  branch_word-opcode op =
      let back : opcode (branch_word g op r0 r1 l p) ≡ encode op = omega (arith, encode-lt op) in
      rw back (decode-encode op)

  pub branch_word-register0 : (op : Opcode) → register0 (branch_word g op r0 r1 l p) ≡ r0
  unfolding word_rr register0 set_direct_address_offset set_register0 set_register1 set_opcode
  branch_word-register0 op = omega (arith, encode-lt op)

  branch_word-register1 : (op : Opcode) → register1 (branch_word g op r0 r1 l p) ≡ r1
  unfolding word_rr register1 set_direct_address_offset set_register0 set_register1 set_opcode
  branch_word-register1 op = omega (arith, encode-lt op)

  branch_word-target :
      (op : Opcode) (vm : VirtualMachine)
      → Reachable l p
      → vm.pc ≡ p
      → jump_to AddressType.direct_address_offset (branch_word g op r0 r1 l p) vm
        ≡ Outcome.ok (record vm { pc = l })
  unfolding jump_to Execute.resolve_address
  branch_word-target op vm reach here =
      let at = offset-target (word_rr g op r0 r1) l p reach in
      ap (λ a. Outcome.ok (record vm { pc = a })) (rw here at)

  execute_instruction-branch_word :
      (vm : VirtualMachine) → Reachable l p → vm.pc ≡ p → OnEquality g l r0 r1 p vm
  unfolding execute_instruction execute branch_if
  execute_instruction-branch_word vm reach here = (
    rw
        (
          branch_word-opcode Opcode.beq,
          branch_word-register0 Opcode.beq,
          branch_word-register1 Opcode.beq,
          branch_word-target Opcode.beq vm reach here,
        )
        refl,
    rw
        (
          branch_word-opcode Opcode.bne,
          branch_word-register0 Opcode.bne,
          branch_word-register1 Opcode.bne,
          branch_word-target Opcode.bne vm reach here,
        )
        (if-not (vm.registers r0 == vm.registers r1) _ _),
  )

-- The macro INSTRUCTION_RRA of BEQ or BNE, on two of the 32 registers and a label that is in the
-- table at a place less than 0x8000 bytes from the cursor, writes one word; a machine that meets
-- this word at the place of the cursor goes to the label if the two registers are equal (BEQ) or
-- differ (BNE), and to the next instruction if not.
pub emit_address-branch_word :
    (g r0 r1 l : ℕ) (d : AddressData) (a : Assembler) (vm : VirtualMachine)
    → IsWord g
    → r0 < 2 ^ 5
    → r1 < 2 ^ 5
    → lookup d.label a.label_locations ≡ some l
    → Reachable l a.binary.cursor
    → vm.pc ≡ a.binary.cursor
    → Writes g Opcode.beq r0 r1 l d a
      × Writes g Opcode.bne r0 r1 l d a
      × OnEquality g l r0 r1 a.binary.cursor vm
unfolding emit_address resolve_address resolved resolved_by
emit_address-branch_word g r0 r1 l d a vm hg h0 h1 found reach here = (
  rw found refl,
  rw found refl,
  execute_instruction-branch_word g r0 r1 l a.binary.cursor hg h0 h1 vm reach here,
)

-- What the macro INSTRUCTION_A of J and JAL writes for an operand whose label is in the table below
-- 2 ^ 26, at any cursor, takes the machine to the label from any place; JAL leaves the place of the
-- next instruction in $ra. The operand's offset and register play no part: `j label+4` goes to the
-- label.
pub emit_address-jump_word :
    (g l : ℕ) (d : AddressData) (a : Assembler) (vm : VirtualMachine)
    → lookup d.label a.label_locations ≡ some l
    → l < 2 ^ 26
    → Jumps g Opcode.j l d a vm vm
      × Jumps g Opcode.jal l d a vm (set_register ra (add32 vm.pc 4) vm)
unfolding emit_address resolve_address resolved resolved_by execute_instruction execute jump_to
    Execute.resolve_address link
emit_address-jump_word g l d a vm found h = (
  (rw found refl, rw (jump_word-opcode g l Opcode.j, jump_word-target g l Opcode.j h) refl),
  (rw found refl, rw (jump_word-opcode g l Opcode.jal, jump_word-target g l Opcode.jal h) refl),
)
