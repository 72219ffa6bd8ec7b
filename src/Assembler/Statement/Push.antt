-- ===== src/Assembler/Statement/Push.antt =====
-- src/assembler.yy, PUSHW and then POPW.
use kasm.Base.{ℕ, ◌+◌, ◌^◌, ◌≤◌, ◌<◌, ◌≡◌, ◌≢◌, ap, ◌∙◌, arith, add32, sub32, IsWord}
use kasm.Common.{AddressType, Opcode, sp, stack_offset, stack_size}
use kasm.Vm.State.{VirtualMachine, Outcome}
use kasm.Assembler.{
  resolve_address, resolved, resolved_by, emit_address, Assembler, word_rrl, word_r, word_rr, emit,
}
use kasm.Assembler.Statement.{Statement, assemble_statement, stack_address}
use kasm.Assembler.Statement.Branches.{write_word-cursor}
use kasm.Assembler.Statement.Stack.{stack_word, run_four, Moved, vm4, all_run, vm4-Moved}

-- What INSTRUCTION_RA writes for 0($sp) at a place.
at_address-stack_word :
    (g r : ℕ) (op : Opcode) (a : Assembler) (p : ℕ)
    → a.binary.cursor ≡ p
    → emit_address (word_r g op r) AddressType.indirect_address_offset stack_address a
      ≡ emit (stack_word g r p op) a
unfolding emit_address resolve_address resolved resolved_by word_rr word_r
at_address-stack_word g r op a p h = ap (λ c. emit (stack_word g r c op) a) h

emit-cursor :
    (w : ℕ) (a : Assembler)
    → a.binary.cursor + 4 < 2 ^ 32
    → (emit w a).binary.cursor ≡ a.binary.cursor + 4
unfolding add32
emit-cursor w a h = write_word-cursor w a ∙ omega (arith, h)

-- The words of PUSHW and POPW, one after the other, in the order in which they are written.
abbrev pub WritesAndMoves : (ℕ → ℕ) → ℕ → ℕ → Assembler → VirtualMachine → Type 0
WritesAndMoves g r t a vm =
    (w1 : ℕ) × (w2 : ℕ) × (w3 : ℕ) × (w4 : ℕ) × (vm' : VirtualMachine) × (assemble_statement
        (λ k. g (k + 2)) (Statement.pop_word t) (assemble_statement g (Statement.push_word r) a)
      ≡ emit w4 (emit w3 (emit w2 (emit w1 a))))
    × (run_four w1 w2 w3 w4 vm ≡ Outcome.ok vm')
    × Moved r t vm vm'

-- PUSHW of a register and then POPW into a register, neither of them $sp, assembled in the first
-- 0x8000 bytes of the text: the four words, run on a machine at the place of the first with room on the
-- stack, leave the value of the first register in the second, $sp and every other register as they were, and
-- of memory they write the word below $sp only.
pub push_word-pop_word :
    (g : ℕ → ℕ) (r t : ℕ) (a : Assembler) (vm : VirtualMachine)
    → ((k : ℕ) → IsWord (g k))
    → r < 2 ^ 5
    → t < 2 ^ 5
    → r ≢ sp
    → t ≢ sp
    → a.binary.cursor + 12 < 0x8000
    → vm.pc ≡ a.binary.cursor
    → stack_offset + 4 ≤ vm.registers sp
    → vm.registers sp ≤ stack_offset + stack_size
    → IsWord (vm.registers r)
    → WritesAndMoves g r t a vm
unfolding assemble_statement
push_word-pop_word g r t a vm hg hr ht r_other t_other near here low high hv =
    let p = a.binary.cursor in
    let w1 = word_rrl (g 0) Opcode.addi sp sp (sub32 0 4) in
    let w2 = stack_word (g 1) r (p + 4) Opcode.sw in
    let w3 = stack_word (g 2) t (p + 8) Opcode.lw in
    let w4 = word_rrl (g 3) Opcode.addi sp sp 4 in
    let at1 = emit-cursor w1 a (omega (arith, near)) in
    let at2 : (emit w2 (emit w1 a)).binary.cursor ≡ p + 8 =
      emit-cursor w2 (emit w1 a) (omega (arith, near, at1)) ∙ omega (arith, at1) in
    (
      w1,
      w2,
      w3,
      w4,
      vm4 (g 0) (g 1) (g 2) (g 3) r t p vm (hg 0) (hg 1) (hg 2) (hg 3) hr ht r_other t_other near
          here low high hv,
      ap
            (λ b. emit w4 (
              emit_address (word_r (g 2) Opcode.lw t) AddressType.indirect_address_offset
                stack_address b))
            (at_address-stack_word (g 1) r Opcode.sw (emit w1 a) (p + 4) at1)
          ∙ ap (emit w4)
              (at_address-stack_word (g 2) t Opcode.lw (emit w2 (emit w1 a)) (p + 8) at2),
      all_run (g 0) (g 1) (g 2) (g 3) r t p vm (hg 0) (hg 1) (hg 2) (hg 3) hr ht r_other t_other
          near here low high hv,
      vm4-Moved (g 0) (g 1) (g 2) (g 3) r t p vm (hg 0) (hg 1) (hg 2) (hg 3) hr ht r_other t_other
          near here low high hv,
    )
