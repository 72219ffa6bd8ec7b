-- ===== src/Assembler/Statement/Stack.antt =====
-- src/assembler.yy, PUSHW and POPW: the words that they write, run by the machine.
use mathlib.Core.Path.{ap₂, subst}
use kasm.Base.{
  ℕ, ◌+◌, ◌-◌, ◌%◌, ◌^◌, ◌≤◌, ◌<◌, ◌≡◌, ◌≢◌, refl, sym, ap, ◌∙◌, false, some, arith, add32, sub32,
  sign_extend, sign_extend-sub32, add_overflows, IsWord, le→ltb, lt→ltb,
}
use kasm.Common.{
  Opcode, encode, decode-encode, sp, stack_offset, stack_size, global_offset, data_segment_offset,
}
use kasm.Common.Encoding.{set_immediate-TwoRegisters}
use kasm.Vm.Memory.{Program, get_word, set_word, locate, bound, Area, place}
use kasm.Vm.Memory.Laws.{set_word-fits, get_word-set_word_self}
use kasm.Vm.State.{VirtualMachine, Outcome, ◌>>=◌, advance_pc, set_register}
use kasm.Vm.Execute.{execute, execute_instruction, write_back, add_immediate}
use kasm.Assembler.{word_rrl, word_r, word_rr}
use kasm.Assembler.Reach.{branch_word, branch_word-opcode, branch_word-register0}
use kasm.Assembler.Words.{put_self, put_ne}
use kasm.Assembler.Indirect.{effective, effective-operand_word}

add32_none : (a : ℕ) → IsWord a → add32 a 0 ≡ a
unfolding add32
add32_none a h = omega arith

-- ADDI of $sp, by a number in 16 bits with its sign.
module _ (g n : ℕ) (vm : VirtualMachine) (hg : IsWord g) where
  abbrev moved_by : ℕ
  moved_by = sign_extend (n % 2 ^ 16)

  addi_word :
      add_overflows (vm.registers sp) moved_by ≡ false
      → execute_instruction (word_rrl g Opcode.addi sp sp n) vm
        ≡ Outcome.ok (advance_pc (set_register sp (add32 (vm.registers sp) moved_by) vm))
  unfolding execute_instruction execute add_immediate write_back word_rrl encode
  addi_word fits =
      let f =
        set_immediate-TwoRegisters g (encode Opcode.addi) sp sp hg (omega arith) (omega arith)
          (omega arith) n in
      rw (f.op_back, decode-encode Opcode.addi, f.r0_back, f.r1_back, f.low_back, fits) refl

-- The word of a load or a store at 0($sp), at a place.
abbrev pub stack_word : ℕ → ℕ → ℕ → Opcode → ℕ
stack_word g r p op = branch_word g op r sp 0 p

-- SW and LW of a register at 0($sp), at a place below 0x8000.
module _ (g r p : ℕ) (vm : VirtualMachine) (hg : IsWord g) (hr : r < 2 ^ 5) (near : p < 0x8000)
    (here : vm.pc ≡ p) (hsp : IsWord (vm.registers sp)) where
  stack_word-effective : (op : Opcode) → effective (stack_word g r p op) vm ≡ some (vm.registers sp)
  unfolding word_rr word_r
  stack_word-effective op =
      effective-operand_word (word_r g op r) sp 0 p vm (omega arith) here
      ∙ ap some (
          ap (add32 (vm.registers sp))
            (sign_extend-sub32 0 p (omega arith) (omega arith) (omega arith) (omega arith))
          ∙ add32_none (vm.registers sp) hsp)

  sw_word :
      (q : Program)
      → set_word vm.program (vm.registers sp) (vm.registers r) ≡ some q
      → execute_instruction (stack_word g r p Opcode.sw) vm
        ≡ Outcome.ok (advance_pc (record vm { program = q }))
  unfolding execute_instruction execute
  sw_word q stored =
      rw
        (
          branch_word-opcode g r sp 0 p hg hr (omega arith) Opcode.sw,
          branch_word-register0 g r sp 0 p hg hr (omega arith) Opcode.sw,
          stack_word-effective Opcode.sw,
          stored,
        )
        refl

  lw_word :
      (w : ℕ)
      → get_word vm.program (vm.registers sp) ≡ some w
      → execute_instruction (stack_word g r p Opcode.lw) vm
        ≡ Outcome.ok (advance_pc (set_register r w vm))
  unfolding execute_instruction execute write_back
  lw_word w loaded =
      rw
        (
          branch_word-opcode g r sp 0 p hg hr (omega arith) Opcode.lw,
          branch_word-register0 g r sp 0 p hg hr (omega arith) Opcode.lw,
          stack_word-effective Opcode.lw,
          loaded,
        )
        refl

locate_stack :
    (q : Program) (x : ℕ)
    → stack_offset ≤ x
    → x < global_offset
    → locate q x ≡ place Area.in_stack (x - stack_offset)
unfolding locate
locate_stack q x lo hi =
    rw
      (
        le→ltb x data_segment_offset (omega (arith, lo)),
        le→ltb x stack_offset lo,
        lt→ltb x global_offset hi,
      )
      refl

-- Four words, one after the other.
abbrev pub run_four : (w1 w2 w3 w4 : ℕ) → VirtualMachine → Outcome
run_four w1 w2 w3 w4 vm = execute_instruction w1 vm >>= λ vm1. execute_instruction w2 vm1 >>= λ vm2.
    execute_instruction w3 vm2 >>= λ vm3. execute_instruction w4 vm3

-- A register holds the value, $sp and the other registers are as before, and so is every word of
-- memory but the one below $sp.
pub record Moved (r t : ℕ) (vm vm' : VirtualMachine) : Type 0 where
  pub value : vm'.registers t ≡ vm.registers r
  pub stack_pointer : vm'.registers sp ≡ vm.registers sp
  pub others : (j : ℕ) → j ≢ t → j ≢ sp → vm'.registers j ≡ vm.registers j
  pub stored : set_word vm.program (vm.registers sp - 4) (vm.registers r) ≡ some vm'.program
  pub further : vm'.pc ≡ vm.pc + 16

module _ (g g' h h' r t p : ℕ) (vm : VirtualMachine) (hg : IsWord g) (hg' : IsWord g')
    (hh : IsWord h) (hh' : IsWord h') (hr : r < 2 ^ 5) (ht : t < 2 ^ 5) (r_other : r ≢ sp)
    (t_other : t ≢ sp) (near : p + 12 < 0x8000) (here : vm.pc ≡ p)
    (low : stack_offset + 4 ≤ vm.registers sp) (high : vm.registers sp ≤ stack_offset + stack_size)
    (hv : IsWord (vm.registers r)) where
  abbrev pub below : ℕ
  below = vm.registers sp - 4

  pub room : (q : Program) × (set_word vm.program below (vm.registers r) ≡ some q)
  unfolding bound
  room = set_word-fits vm.program below (vm.registers r) (
      subst (λ l. l.index + 4 ≤ bound vm.program l.area)
        (sym (locate_stack vm.program below (omega (arith, low)) (omega (arith, high))))
        (omega (arith, low, high)))

  minus : sign_extend (sub32 0 4 % 2 ^ 16) ≡ 0xFFFFFFFC
  unfolding sign_extend sub32
  minus = refl

  plus : sign_extend (4 % 2 ^ 16) ≡ 4
  unfolding sign_extend
  plus = refl

  down : add32 (vm.registers sp) (sign_extend (sub32 0 4 % 2 ^ 16)) ≡ below
  unfolding add32
  down = ap (add32 (vm.registers sp)) minus ∙ omega (arith, low, high)

  down_fits : add_overflows (vm.registers sp) (sign_extend (sub32 0 4 % 2 ^ 16)) ≡ false
  unfolding add_overflows add32
  down_fits = ap (add_overflows (vm.registers sp)) minus ∙ ground (arith, low, high)

  up : add32 below (sign_extend (4 % 2 ^ 16)) ≡ vm.registers sp
  unfolding add32
  up = ap (add32 below) plus ∙ omega (arith, low, high)

  up_fits : add_overflows below (sign_extend (4 % 2 ^ 16)) ≡ false
  unfolding add_overflows add32
  up_fits = ap (add_overflows below) plus ∙ ground (arith, low, high)

  abbrev pub vm1 : VirtualMachine
  vm1 = advance_pc (set_register sp below vm)

  abbrev pub vm2 : VirtualMachine
  vm2 = advance_pc (record vm1 { program = room.0 })

  abbrev pub vm3 : VirtualMachine
  vm3 = advance_pc (set_register t (vm.registers r) vm2)

  abbrev pub vm4 : VirtualMachine
  vm4 = advance_pc (set_register sp (vm.registers sp) vm3)

  vm1-sp : vm1.registers sp ≡ below
  unfolding advance_pc set_register
  vm1-sp = put_self vm.registers sp below

  vm2-sp : vm2.registers sp ≡ below
  unfolding advance_pc
  vm2-sp = vm1-sp

  vm3-sp : vm3.registers sp ≡ below
  unfolding advance_pc set_register
  vm3-sp = put_ne vm2.registers t (vm.registers r) sp (λ e. t_other (sym e)) ∙ vm2-sp

  vm1-r : vm1.registers r ≡ vm.registers r
  unfolding advance_pc set_register
  vm1-r = put_ne vm.registers sp below r r_other

  vm1-stores : set_word vm1.program (vm1.registers sp) (vm1.registers r) ≡ some room.0
  unfolding advance_pc set_register
  vm1-stores = ap₂ (set_word vm.program) vm1-sp vm1-r ∙ room.1

  vm2-loads : get_word vm2.program (vm2.registers sp) ≡ some (vm.registers r)
  unfolding advance_pc
  vm2-loads =
      ap (get_word room.0) vm2-sp
      ∙ get_word-set_word_self vm.program room.0 below (vm.registers r) hv room.1

  first : execute_instruction (word_rrl g Opcode.addi sp sp (sub32 0 4)) vm ≡ Outcome.ok vm1
  first =
      addi_word g (sub32 0 4) vm hg down_fits
      ∙ ap (λ x. Outcome.ok (advance_pc (set_register sp x vm))) down

  second : execute_instruction (stack_word g' r (p + 4) Opcode.sw) vm1 ≡ Outcome.ok vm2
  unfolding advance_pc set_register add32
  second =
      sw_word g' r (p + 4) vm1 hg' hr (omega (arith, near)) (omega (arith, near, here))
        (subst IsWord (sym vm1-sp) (omega (arith, high))) room.0 vm1-stores

  third : execute_instruction (stack_word h t (p + 8) Opcode.lw) vm2 ≡ Outcome.ok vm3
  unfolding advance_pc set_register add32
  third =
      lw_word h t (p + 8) vm2 hh ht (omega (arith, near)) (omega (arith, near, here))
        (subst IsWord (sym vm2-sp) (omega (arith, high))) (vm.registers r) vm2-loads

  fourth : execute_instruction (word_rrl h' Opcode.addi sp sp 4) vm3 ≡ Outcome.ok vm4
  fourth =
      addi_word h' 4 vm3 hh' (ap (λ x. add_overflows x (sign_extend (4 % 2 ^ 16))) vm3-sp ∙ up_fits)
      ∙ ap (λ x. Outcome.ok (advance_pc (set_register sp x vm3)))
          (ap (λ x. add32 x (sign_extend (4 % 2 ^ 16))) vm3-sp ∙ up)

  pub all_run :
      run_four
        (word_rrl g Opcode.addi sp sp (sub32 0 4))
        (stack_word g' r (p + 4) Opcode.sw)
        (stack_word h t (p + 8) Opcode.lw)
        (word_rrl h' Opcode.addi sp sp 4)
        vm
      ≡ Outcome.ok vm4
  all_run = rw (first, second, third) fourth

  pub vm4-Moved : Moved r t vm vm4
  unfolding advance_pc set_register add32
  vm4-Moved = record {
    value =
        put_ne vm3.registers sp (vm.registers sp) t t_other
        ∙ put_self vm2.registers t (vm.registers r);
    stack_pointer = put_self vm3.registers sp (vm.registers sp);
    others = λ j not_t not_sp.
        put_ne vm3.registers sp (vm.registers sp) j not_sp
        ∙ put_ne vm2.registers t (vm.registers r) j not_t
        ∙ put_ne vm.registers sp below j not_sp;
    stored = room.1;
    further = omega (arith, near, here);
  }
