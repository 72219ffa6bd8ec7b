-- ===== src/Assembler/Words.antt =====
-- src/assembler.yy, the pseudo-instructions `LI` and `LA`: two halves that make up a word again.
use kasm.Base.{
  ℕ, ◌*◌, ◌/◌, ◌%◌, ◌^◌, ◌<◌, ◌≤◌, ◌≡◌, ◌≢◌, refl, ◌∙◌, ◌==◌, arith, add32, IsWord, bit_or,
  ==_of_ne, ==_self, ◌⊎◌, inl, inr, Bool-cases, eq_of_==, ne_of_==,
}
use kasm.Common.{
  Opcode, encode, decode-encode, opcode, register0, immediate, set_opcode, set_register0,
  set_immediate,
}
use kasm.Base.Bits.{bit_or-add, zero-bit_or}
use kasm.Common.Encoding.{set_immediate-TwoRegisters}
use kasm.Vm.State.{VirtualMachine, Outcome, ◌>>=◌, advance_pc, set_register, put}
use kasm.Vm.Execute.{execute, execute_instruction, write_back}
use kasm.Assembler.{Assembler, word_rrl, word_rl, emit, load_immediate}

-- A register holds a value, the others and the memory are as before, and the machine is `n` further.
pub record Loaded (r v n : ℕ) (vm vm' : VirtualMachine) : Type 0 where
  pub value : vm'.registers r ≡ v
  pub others : (j : ℕ) → j ≢ r → vm'.registers j ≡ vm.registers j
  pub memory : vm'.program ≡ vm.program
  pub further : vm'.pc ≡ add32 vm.pc n

lui_word :
    (g r v : ℕ) (vm : VirtualMachine)
    → IsWord g
    → r < 2 ^ 5
    → execute_instruction (word_rl g Opcode.lui r v) vm
      ≡ Outcome.ok (advance_pc (set_register r (v % 2 ^ 16 * 2 ^ 16) vm))
unfolding execute_instruction execute write_back word_rl opcode register0 immediate set_opcode
    set_register0 set_immediate encode
lui_word g r v vm hg hr =
    let w = word_rl g Opcode.lui r v in
    let op : opcode w ≡ encode Opcode.lui = omega arith in
    let f : register0 w ≡ r = omega arith in
    let i : immediate w ≡ v % 2 ^ 16 = omega arith in rw (op, decode-encode Opcode.lui, f, i) refl

ori_word :
    (g r s v : ℕ) (vm : VirtualMachine)
    → IsWord g
    → r < 2 ^ 5
    → s < 2 ^ 5
    → execute_instruction (word_rrl g Opcode.ori r s v) vm
      ≡ Outcome.ok (advance_pc (set_register r (bit_or (vm.registers s) (v % 2 ^ 16)) vm))
unfolding execute_instruction execute write_back word_rrl encode
ori_word g r s v vm hg hr hs =
    let w = word_rrl g Opcode.ori r s v in
    let f = set_immediate-TwoRegisters g (encode Opcode.ori) r s hg (omega arith) hr hs v in
    rw (f.op_back, decode-encode Opcode.ori, f.r0_back, f.r1_back, f.low_back) refl

pub put_self : (f : ℕ → ℕ) (r v : ℕ) → put f r v r ≡ v
unfolding put
put_self f r v = rw (==_self r) refl

pub put_ne : (f : ℕ → ℕ) (r v j : ℕ) → j ≢ r → put f r v j ≡ f j
unfolding put
put_ne f r v j h = rw (==_of_ne j r h) refl

-- The machine at two words, one after the other.
abbrev pub both : ℕ → ℕ → VirtualMachine → Outcome
both w w' vm = execute_instruction w vm >>= λ vm'. execute_instruction w' vm'

abbrev pub EndsLoaded : ℕ → ℕ → ℕ → VirtualMachine → Outcome → Type 0
EndsLoaded r v n vm o = (vm' : VirtualMachine) × (o ≡ Outcome.ok vm') × Loaded r v n vm vm'

-- The words that were written load the value: one word where the upper half is zero, and two where
-- it is not.
abbrev pub Loads : ℕ → ℕ → VirtualMachine → Assembler → Assembler → Type 0
Loads r v vm a a' =
    (v < 2 ^ 16 × ((w : ℕ) × (a' ≡ emit w a) × EndsLoaded r v 4 vm (execute_instruction w vm)))
    ⊎ (2 ^ 16 ≤ v
        × ((w : ℕ) × (w' : ℕ) × (a' ≡ emit w' (emit w a)) × EndsLoaded r v 8 vm (both w w' vm)))

module _ (g g' r v : ℕ) (vm : VirtualMachine) (hg : IsWord g) (hg' : IsWord g') (hr : r < 2 ^ 5)
    (hv : IsWord v) where
  halves : bit_or (v / 2 ^ 16 % 2 ^ 16 * 2 ^ 16) (v % 2 ^ 16 % 2 ^ 16) ≡ v
  halves = omega (arith, bit_or-add 16 (v / 2 ^ 16 % 2 ^ 16) (v % 2 ^ 16 % 2 ^ 16) (omega arith))

  halves_of : {x : ℕ} → x ≡ v / 2 ^ 16 % 2 ^ 16 * 2 ^ 16 → bit_or x (v % 2 ^ 16 % 2 ^ 16) ≡ v
  halves_of e = rw e halves

  both-Loaded :
      EndsLoaded r v 8 vm
        (both (word_rl g Opcode.lui r (v / 2 ^ 16)) (word_rrl g' Opcode.ori r r (v % 2 ^ 16)) vm)
  unfolding set_register advance_pc put add32
  both-Loaded =
      let vm1 = advance_pc (set_register r (v / 2 ^ 16 % 2 ^ 16 * 2 ^ 16) vm) in
      let vm2 = advance_pc (set_register r (bit_or (vm1.registers r) (v % 2 ^ 16 % 2 ^ 16)) vm1) in
      (
        vm2,
        rw (lui_word g r (v / 2 ^ 16) vm hg hr) (ori_word g' r r (v % 2 ^ 16) vm1 hg' hr hr),
        record {
          value = put_self (put vm.registers r _) r _ ∙ halves_of (put_self vm.registers r _);
          others = λ j h. put_ne (put vm.registers r _) r _ j h ∙ put_ne vm.registers r _ j h;
          memory = refl;
          further = omega arith;
        },
      )

  one-Loaded :
      v < 2 ^ 16
      → vm.registers 0 ≡ 0
      → EndsLoaded r v 4 vm (execute_instruction (word_rrl g Opcode.ori r 0 (v % 2 ^ 16)) vm)
  unfolding set_register advance_pc
  one-Loaded small h0 =
      let x = bit_or (vm.registers 0) (v % 2 ^ 16 % 2 ^ 16) in
      let same : x ≡ v = rw (h0, zero-bit_or (v % 2 ^ 16 % 2 ^ 16)) (omega arith) in
      (
        advance_pc (set_register r x vm),
        ori_word g r 0 (v % 2 ^ 16) vm hg hr (omega arith),
        record {
          value = put_self vm.registers r x ∙ same;
          others = λ j h. put_ne vm.registers r x j h;
          memory = refl;
          further = refl;
        },
      )

  -- `LI` of a word: what it writes, one instruction if the word is below 2 ^ 16 and two if not, leaves
  -- the word in the register on a machine whose register 0 holds 0, past these instructions, with
  -- the other registers and the memory as before.
  pub load_immediate-Loaded :
      (a : Assembler) → vm.registers 0 ≡ 0 → Loads r v vm a (load_immediate g g' r v a)
  unfolding load_immediate
  load_immediate-Loaded a h0 = elim (Bool-cases (v / 2 ^ 16 == 0)) [
    | inl e ↦ inl (
      omega (arith, eq_of_== (v / 2 ^ 16) 0 e),
      (
        word_rrl g Opcode.ori r 0 (v % 2 ^ 16),
        rw e refl,
        one-Loaded (omega (arith, eq_of_== (v / 2 ^ 16) 0 e)) h0,
      ),
    )
    | inr e ↦ inr (
      omega (arith, ne_of_== (v / 2 ^ 16) 0 e),
      (
        word_rl g Opcode.lui r (v / 2 ^ 16),
        word_rrl g' Opcode.ori r r (v % 2 ^ 16),
        rw e refl,
        both-Loaded,
      ),
    )
  ]
