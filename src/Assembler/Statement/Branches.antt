-- ===== src/Assembler/Statement/Branches.antt =====
-- src/assembler.yy, BGT, BLT, BGE, BLE and BGTU: a comparison into $at, and a branch on it.
use mathlib.Core.Path.{ap₂, subst}
use kasm.Base.{
  ℕ, ◌^◌, ◌<◌, ◌≡◌, refl, sym, ap, ◌∙◌, Bool, true, false, not, some, ltb, leb, ◌==◌, if◌then◌else◌,
  arith, add32, IsWord,
}
use kasm.Common.{Opcode, AddressType, encode, decode-encode, r_zero, r_at}
use kasm.Common.Encoding.{set_register2-ThreeRegisters}
use kasm.Builder.{write_word}
use kasm.Vm.State.{VirtualMachine, Outcome, ◌>>=◌, advance_pc, set_register}
use kasm.Vm.Execute.{execute, execute_instruction, write_back, flag}
use kasm.Assembler.{AddressData, Assembler, lookup, word_rrr, word_rr, emit, emit_address}
use kasm.Assembler.Reach.{
  Reachable, branch_word, OnEquality, Writes, if-not, emit_address-branch_word,
}
use kasm.Assembler.Words.{put_self, put_ne, both}
use kasm.Assembler.Statement.{Statement, assemble_statement}

-- The machine with the result of a test in $at, at the next instruction.
abbrev pub after_test : Bool → VirtualMachine → VirtualMachine
after_test b vm = advance_pc (set_register r_at (flag b) vm)

-- SLT and SLTU compare the words as they stand, without a sign.
module _ (g r1 r2 : ℕ) (vm : VirtualMachine) (hg : IsWord g) (h1 : r1 < 2 ^ 5)
    (h2 : r2 < 2 ^ 5) where
  abbrev less : Bool
  less = ltb (vm.registers r1) (vm.registers r2)

  slt_word :
      execute_instruction (word_rrr g Opcode.slt r_at r1 r2) vm ≡ Outcome.ok (after_test less vm)
  unfolding execute_instruction execute write_back word_rrr encode
  slt_word =
      let f =
        set_register2-ThreeRegisters g (encode Opcode.slt) r_at r1 hg (omega arith) (omega arith) h1
          r2 h2 in
      rw (f.op_back, decode-encode Opcode.slt, f.r0_back, f.r1_back, f.r2_back) refl

  sltu_word :
      execute_instruction (word_rrr g Opcode.sltu r_at r1 r2) vm ≡ Outcome.ok (after_test less vm)
  unfolding execute_instruction execute write_back word_rrr encode
  sltu_word =
      let f =
        set_register2-ThreeRegisters g (encode Opcode.sltu) r_at r1 hg (omega arith) (omega arith)
          h1 r2 h2 in
      rw (f.op_back, decode-encode Opcode.sltu, f.r0_back, f.r1_back, f.r2_back) refl

pub write_word-cursor : (w : ℕ) (a : Assembler) → (emit w a).binary.cursor ≡ add32 a.binary.cursor 4
unfolding emit write_word
write_word-cursor w a = ground arith

flag-zero : (b : Bool) → (flag b == 0) ≡ not b
flag-zero true = refl
flag-zero false = refl

-- The machine after a test and a branch: at the label, or past both.
abbrev pub Lands : Bool → Bool → ℕ → VirtualMachine → Outcome → Type 0
Lands b c l vm o = o ≡ (
    if c
    then Outcome.ok (record (after_test b vm) { pc = l })
    else Outcome.ok (advance_pc (after_test b vm)))

module _ (g : ℕ → ℕ) (r0 r1 l : ℕ) (d : AddressData) (a : Assembler) (vm : VirtualMachine) where
  -- A statement writes two words, and the machine that meets them tests `b` and goes to the label if `c`.
  abbrev pub BranchesIf : Statement → Bool → Bool → Type 0
  BranchesIf st b c =
      (w : ℕ) × (w' : ℕ) × (assemble_statement g st a ≡ emit w' (emit w a))
      × Lands b c l vm (both w w' vm)

  module _ (hg : IsWord (g 1)) (zero_kept : vm.registers 0 ≡ 0)
      (found : lookup d.label a.label_locations ≡ some l)
      (reach : Reachable l (add32 a.binary.cursor 4)) (here : vm.pc ≡ a.binary.cursor) where
    abbrev place : ℕ
    place = add32 a.binary.cursor 4

    branch_after :
        (w : ℕ) (b : Bool)
        → Writes (g 1) Opcode.beq r_at r_zero l d (emit w a)
          × Writes (g 1) Opcode.bne r_at r_zero l d (emit w a)
          × OnEquality (g 1) l r_at r_zero (emit w a).binary.cursor (after_test b vm)
    unfolding advance_pc set_register emit
    branch_after w b =
        emit_address-branch_word (g 1) r_at r_zero l d (emit w a) (after_test b vm) hg (omega arith)
          (omega arith) found (subst (Reachable l) (sym (write_word-cursor w a)) reach)
          (ap (λ p. add32 p 4) here ∙ sym (write_word-cursor w a))

    tested :
        (b : Bool)
        → ((after_test b vm).registers r_at == (after_test b vm).registers r_zero) ≡ not b
    unfolding advance_pc set_register
    tested b =
        ap₂ (λ x y. x == y) (put_self vm.registers 1 (flag b))
          (put_ne vm.registers 1 (flag b) 0 (omega arith) ∙ zero_kept)
        ∙ flag-zero b

    -- A test that writes `b`, then BNE or BEQ with $zero.
    module _ (w : ℕ) (b : Bool)
        (tests : execute_instruction w vm ≡ Outcome.ok (after_test b vm)) where
      abbrev goes : Outcome
      goes = Outcome.ok (record (after_test b vm) { pc = l })

      abbrev stays : Outcome
      stays = Outcome.ok (advance_pc (after_test b vm))

      abbrev word_of : Opcode → ℕ
      word_of op = branch_word (g 1) op r_at r_zero l (emit w a).binary.cursor

      bne-Lands : Lands b b l vm (both w (word_of Opcode.bne) vm)
      bne-Lands =
          let (_, _, (_, e)) = branch_after w b in
          ap (λ o. o >>= λ vm'. execute_instruction (word_of Opcode.bne) vm') tests
          ∙ e
          ∙ ap (λ t. if t then stays else goes) (tested b)
          ∙ if-not b stays goes

      beq-Lands : Lands b (not b) l vm (both w (word_of Opcode.beq) vm)
      beq-Lands =
          let (_, _, (e, _)) = branch_after w b in
          ap (λ o. o >>= λ vm'. execute_instruction (word_of Opcode.beq) vm') tests
          ∙ e
          ∙ ap (λ t. if t then goes else stays) (tested b)

      abbrev written : Opcode → Assembler
      written op =
          emit_address (word_rr (g 1) op r_at r_zero) AddressType.direct_address_offset d (emit w a)

      bne-BranchesIf :
          (st : Statement) → assemble_statement g st a ≡ written Opcode.bne → BranchesIf st b b
      bne-BranchesIf st h =
          let (_, e, _) = branch_after w b in (w, word_of Opcode.bne, h ∙ e, bne-Lands)

      beq-BranchesIf :
          (st : Statement) (c : Bool)
          → assemble_statement g st a ≡ written Opcode.beq
          → not b ≡ c
          → BranchesIf st b c
      beq-BranchesIf st c h same =
          let (e, _, _) = branch_after w b in
          (
            w,
            word_of Opcode.beq,
            h ∙ e,
            subst (λ c. Lands b c l vm (both w (word_of Opcode.beq) vm)) same beq-Lands,
          )

-- All five, with the test that each writes to $at and the condition on which it goes to the label.
pub record ComparesAndBranches (g : ℕ → ℕ) (r0 r1 l : ℕ) (d : AddressData) (a : Assembler)
    (vm : VirtualMachine) : Type 0 where
  pub on_greater :
      BranchesIf g r0 r1 l d a vm
        (Statement.bgt r0 r1 d)
        (ltb (vm.registers r1) (vm.registers r0))
        (ltb (vm.registers r1) (vm.registers r0))
  pub on_less :
      BranchesIf g r0 r1 l d a vm
        (Statement.blt r0 r1 d)
        (ltb (vm.registers r0) (vm.registers r1))
        (ltb (vm.registers r0) (vm.registers r1))
  pub on_greater_or_equal :
      BranchesIf g r0 r1 l d a vm
        (Statement.bge r0 r1 d)
        (ltb (vm.registers r0) (vm.registers r1))
        (leb (vm.registers r1) (vm.registers r0))
  pub on_less_or_equal :
      BranchesIf g r0 r1 l d a vm
        (Statement.ble r0 r1 d)
        (ltb (vm.registers r1) (vm.registers r0))
        (leb (vm.registers r0) (vm.registers r1))
  pub unsigned_greater :
      BranchesIf g r0 r1 l d a vm
        (Statement.bgtu r0 r1 d)
        (ltb (vm.registers r0) (vm.registers r1))
        (leb (vm.registers r1) (vm.registers r0))

not-ltb : (a b : ℕ) → not (ltb a b) ≡ leb b a
not-ltb a b = ground arith

-- BGT, BLT, BGE, BLE and BGTU on two of the 32 registers and a label that the second of their two words
-- reaches: on a machine whose register 0 holds 0, the two words put the test into $at and go to the
-- label if the first register is greater, less, not less, not greater, each as unsigned words;
-- BGTU goes to the label if the first register is not less, so also if the two are equal.
pub assemble_statement-ComparesAndBranches :
    (g : ℕ → ℕ) (r0 r1 l : ℕ) (d : AddressData) (a : Assembler) (vm : VirtualMachine)
    → IsWord (g 0)
    → IsWord (g 1)
    → r0 < 2 ^ 5
    → r1 < 2 ^ 5
    → vm.registers 0 ≡ 0
    → lookup d.label a.label_locations ≡ some l
    → Reachable l (add32 a.binary.cursor 4)
    → vm.pc ≡ a.binary.cursor
    → ComparesAndBranches g r0 r1 l d a vm
unfolding assemble_statement
assemble_statement-ComparesAndBranches g r0 r1 l d a vm hg hg' h0 h1 zero_kept found reach here =
    let bne = bne-BranchesIf g r0 r1 l d a vm hg' zero_kept found reach here in
    let beq = beq-BranchesIf g r0 r1 l d a vm hg' zero_kept found reach here in
    let below = slt_word (g 0) r0 r1 vm hg h0 h1 in
    let above = slt_word (g 0) r1 r0 vm hg h1 h0 in
    record {
      on_greater = bne _ _ above (Statement.bgt r0 r1 d) refl;
      on_less = bne _ _ below (Statement.blt r0 r1 d) refl;
      on_greater_or_equal = beq _ _ below (Statement.bge r0 r1 d) _ refl (not-ltb _ _);
      on_less_or_equal = beq _ _ above (Statement.ble r0 r1 d) _ refl (not-ltb _ _);
      unsigned_greater =
          beq _ _ (sltu_word (g 0) r0 r1 vm hg h0 h1) (Statement.bgtu r0 r1 d) _ refl (not-ltb _ _);
    }
