-- ===== src/Assembler/Indirect.antt =====
-- src/assembler_util.cpp, `resolveAddress`, case `IndirectAddressOffset`: which address the machine
-- takes for the operand of a load or a store. The 16-bit field holds the offset less the place of the
-- instruction, and the machine adds that place again.
use kasm.Base.{
  ℕ, ◌+◌, ◌-◌, ◌*◌, ◌/◌, ◌%◌, ◌^◌, ◌≤◌, ◌<◌, ◌≡◌, ◌≢◌, refl, ap, ◌∙◌, true, false, Option, none,
  some, some_inj, none-ne-some, Bool, List, String, str_eq, if◌then◌else◌, maybe, arith, add32,
  sub32, sign_extend, sign_extend-sub32, IsWord,
}
use kasm.Common.{
  AddressType, register1, direct_address_offset, set_register1, set_direct_address_offset,
  data_segment_offset,
}
use kasm.Vm.State.{VirtualMachine}
use kasm.Vm.Execute as Execute
use kasm.Assembler.{AddressData, lookup, resolved_by}

-- The word of an operand whose offset, with the label's place in it, is `o`.
abbrev pub operand_word : ℕ → ℕ → ℕ → ℕ → ℕ
operand_word d reg o p = set_direct_address_offset (set_register1 d reg) (sub32 o p)

operand_word-register1 : (d reg o p : ℕ) → reg < 2 ^ 5 → register1 (operand_word d reg o p) ≡ reg
unfolding register1 set_direct_address_offset set_register1
operand_word-register1 d reg o p h = omega arith

operand_word-offset :
    (d reg o p : ℕ)
    → direct_address_offset (operand_word d reg o p) ≡ sign_extend (sub32 o p % 2 ^ 16)
unfolding direct_address_offset set_direct_address_offset
operand_word-offset d reg o p =
    let e = set_register1 d reg in
    let field : (e / 2 ^ 16 * 2 ^ 16 + sub32 o p % 2 ^ 16) % 2 ^ 16 ≡ sub32 o p % 2 ^ 16 =
      omega arith in
    rw field refl

add32_assoc : (a b c : ℕ) → add32 (add32 a b) c ≡ add32 a (add32 b c)
unfolding add32
add32_assoc a b c = omega arith

-- What the assembler leaves in the word of an address `offset($reg)` or `label + offset($reg)`.
abbrev pub offset_of : List (String × ℕ) → AddressData → Option ℕ
offset_of t d =
    if str_eq d.label ""
    then some d.offset
    else maybe (lookup d.label t) none (λ l. some (add32 l d.offset))

-- Where the machine finds the operand.
abbrev pub effective : ℕ → VirtualMachine → Option ℕ
effective d vm = Execute.resolve_address AddressType.indirect_address_offset d vm

pub effective-operand_word :
    (d reg o p : ℕ) (vm : VirtualMachine)
    → reg < 2 ^ 5
    → vm.pc ≡ p
    → effective (operand_word d reg o p) vm
      ≡ some (add32 (vm.registers reg) (add32 (sign_extend (sub32 o p % 2 ^ 16)) p))
unfolding Execute.resolve_address
effective-operand_word d reg o p vm h here =
    rw (operand_word-register1 d reg o p h, operand_word-offset d reg o p, here)
      (ap some (add32_assoc (vm.registers reg) (sign_extend (sub32 o p % 2 ^ 16)) p))

far :
    (o p : ℕ)
    → o ≡ 0
    → 0x8000 < p
    → p < 0x10000
    → add32 (sign_extend (sub32 o p % 2 ^ 16)) p ≡ 0x10000
unfolding add32 sub32 sign_extend
far o p h lo hi = ground arith

misses :
    (o p : ℕ)
    → data_segment_offset ≤ o
    → o < 2 ^ 32 - 0x8000
    → p < 0x10000
    → add32 0 (add32 (sign_extend (sub32 o p % 2 ^ 16)) p) ≢ o
unfolding add32 sub32 sign_extend
misses o p lo hi hp = ground arith

-- The address is resolved, and the machine that meets the word finds the operand at `x`.
abbrev pub Takes : List (String × ℕ) → AddressData → VirtualMachine → ℕ → Type 0
Takes t d vm x =
    (d' : AddressData) × (resolved_by AddressType.indirect_address_offset t d ≡ some d')
    × (effective d'.instruction vm ≡ some x)

module _ (t : List (String × ℕ)) (d : AddressData) (o : ℕ) (vm : VirtualMachine)
    (reg_small : d.reg < 2 ^ 5) (known : offset_of t d ≡ some o) (here : vm.pc ≡ d.position) where
  abbrev word_for : ℕ → AddressData
  word_for k = record d { instruction = operand_word d.instruction d.reg k d.position }

  abbrev with_word : AddressData
  with_word = word_for o

  resolves_if :
      (b : Bool) (l : Option ℕ)
      → (if b then some d.offset else maybe l none (λ k. some (add32 k d.offset))) ≡ some o
      → (if b
          then some (word_for d.offset)
          else maybe l none (λ k. some (word_for (add32 k d.offset))))
        ≡ some with_word
  resolves_if true l e = ap (λ k. some (word_for k)) (some_inj e)
  resolves_if false (some k) e = ap (λ k. some (word_for k)) (some_inj e)
  resolves_if false none e = absurd (none-ne-some e)

  resolves : resolved_by AddressType.indirect_address_offset t d ≡ some with_word
  unfolding resolved_by
  resolves = resolves_if (str_eq d.label "") (lookup d.label t) known

  takes :
      (x : ℕ)
      → add32 (sign_extend (sub32 o d.position % 2 ^ 16)) d.position ≡ x
      → Takes t d vm (add32 (vm.registers d.reg) x)
  takes x e = (
    with_word,
    resolves,
    effective-operand_word d.instruction d.reg o d.position vm reg_small here
        ∙ ap (λ y. some (add32 (vm.registers d.reg) y)) e,
  )

  -- An operand whose offset lies less than 0x8000 from the place of the instruction is found at the
  -- register plus the offset.
  pub resolved_by-Takes_near :
      IsWord o
      → IsWord d.position
      → d.position ≤ o + 0x8000
      → o < d.position + 0x8000
      → Takes t d vm (add32 (vm.registers d.reg) o)
  resolved_by-Takes_near ho hp lo hi = takes o (sign_extend-sub32 o d.position ho hp lo hi)

  -- An instruction between 0x8000 and 0x10000 whose offset is 0 finds its operand 0x10000 bytes after
  -- the register.
  pub resolved_by-Takes_beyond :
      o ≡ 0
      → 0x8000 < d.position
      → d.position < 0x10000
      → Takes t d vm (add32 (vm.registers d.reg) 0x10000)
  resolved_by-Takes_beyond zero_offset lo hi = takes 0x10000 (far o d.position zero_offset lo hi)

  -- A place in the data segment is never reached through a register that holds 0 by an instruction
  -- in the first 0x10000 bytes: the machine finds the operand at another place.
  pub resolved_by-Takes_data :
      data_segment_offset ≤ o
      → o < 2 ^ 32 - 0x8000
      → d.position < 0x10000
      → vm.registers d.reg ≡ 0
      → (x : ℕ) × Takes t d vm x × (x ≢ o)
  resolved_by-Takes_data lo hi hp h0 =
      let f = add32 (sign_extend (sub32 o d.position % 2 ^ 16)) d.position in
      (add32 (vm.registers d.reg) f, takes f refl, rw h0 (misses o d.position lo hi hp))
