-- ===== src/Common/Encoding.antt =====
-- src/common.hpp, `union InstructionData`: what a written field is when it is read back, and
-- which writes leave it alone.
use kasm.Base.{ℕ, ◌%◌, ◌^◌, ◌<◌, ◌≡◌, arith, IsWord}
use kasm.Common.Instruction.{
  opcode, register0, register1, register2, immediate, set_opcode, set_register0, set_register1,
  set_register2, set_immediate,
}

-- The fields that the encoding of three registers writes, as the machine reads them back.
pub record ThreeRegisters (d op r0 r1 r2 : ℕ) : Type 0 where
  pub is_word : IsWord d
  pub op_back : opcode d ≡ op
  pub r0_back : register0 d ≡ r0
  pub r1_back : register1 d ≡ r1
  pub r2_back : register2 d ≡ r2

pub record TwoRegisters (d op r0 r1 low : ℕ) : Type 0 where
  pub is_word : IsWord d
  pub op_back : opcode d ≡ op
  pub r0_back : register0 d ≡ r0
  pub r1_back : register1 d ≡ r1
  pub low_back : immediate d ≡ low

module _ (g op r0 r1 : ℕ) (hg : IsWord g) (ho : op < 2 ^ 6) (h0 : r0 < 2 ^ 5)
    (h1 : r1 < 2 ^ 5) where
  -- A word whose opcode and three registers were written, on top of any bits, is a 32-bit word from
  -- which each of the four is read back.
  pub set_register2-ThreeRegisters :
      (r2 : ℕ)
      → r2 < 2 ^ 5
      → ThreeRegisters
          (set_register2 (set_register1 (set_register0 (set_opcode g op) r0) r1) r2)
          op
          r0
          r1
          r2
  unfolding opcode register0 register1 register2 set_opcode set_register0 set_register1
      set_register2
  set_register2-ThreeRegisters r2 h2 = record {
    is_word = omega arith;
    op_back = omega arith;
    r0_back = omega arith;
    r1_back = omega arith;
    r2_back = omega arith;
  }

  -- A word whose opcode, two registers and immediate were written, on top of any bits, is a 32-bit
  -- word from which the first three are read back, and the low 16 bits of the immediate.
  pub set_immediate-TwoRegisters :
      (l : ℕ)
      → TwoRegisters
          (set_immediate (set_register1 (set_register0 (set_opcode g op) r0) r1) l)
          op
          r0
          r1
          (l % 2 ^ 16)
  unfolding opcode register0 register1 immediate set_opcode set_register0 set_register1
      set_immediate
  set_immediate-TwoRegisters l = record {
    is_word = omega arith;
    op_back = omega arith;
    r0_back = omega arith;
    r1_back = omega arith;
    low_back = omega arith;
  }
