-- ===== src/Disassembler/Tables.antt =====
-- src/disassembler.cpp, the tables of `disassemble`: names and formats.
use Prim.Native.Char.{code}
use kasm.Base.{ℕ, ◌/◌, ◌%◌, Bool, String, List, [], ◌∷◌, ◌==◌, get_or}
use kasm.Common.{Opcode}

-- The bytes of a literal.
abbrev pub text : String → List ℕ
text String.[] = []
text (String.◌∷◌ c s) = code c ∷ text s

-- `enum InstrucionElement`.
abbrev pub in_r0 : ℕ
in_r0 = 1

abbrev pub in_r1 : ℕ
in_r1 = 2

abbrev pub in_r2 : ℕ
in_r2 = 4

abbrev pub in_absolute : ℕ
in_absolute = 8

abbrev pub in_offset : ℕ
in_offset = 16

abbrev pub in_immediate : ℕ
in_immediate = 32

abbrev pub in_indirect : ℕ
in_indirect = 64

-- `format & element`, for an element of one bit.
unfoldable pub has : ℕ → ℕ → Bool
has element f = f / element % 2 == 1

-- `instructionFormats`: RRR 7, RRI 35, RRDAO 19, RR 3, RI 33, RIDA 65, DAA 8, R0 1, NONE 0.
unfoldable pub format : Opcode → ℕ
format Opcode.add = 7
format Opcode.addi = 35
format Opcode.addiu = 35
format Opcode.addu = 7
format Opcode.and = 7
format Opcode.andi = 35
format Opcode.beq = 19
format Opcode.bgez = 19
format Opcode.bgezal = 19
format Opcode.bgtz = 19
format Opcode.blez = 19
format Opcode.bltz = 19
format Opcode.bltzal = 19
format Opcode.bne = 19
format Opcode.div = 3
format Opcode.divu = 3
format Opcode.j = 8
format Opcode.jal = 8
format Opcode.jr = 1
format Opcode.lb = 65
format Opcode.lui = 33
format Opcode.lw = 65
format Opcode.mfhi = 1
format Opcode.mflo = 1
format Opcode.mult = 3
format Opcode.multu = 3
format Opcode.or = 7
format Opcode.ori = 35
format Opcode.sb = 65
format Opcode.sll = 35
format Opcode.sllv = 7
format Opcode.slt = 35
format Opcode.slti = 35
format Opcode.sltiu = 35
format Opcode.sltu = 35
format Opcode.sne = 35
format Opcode.seq = 35
format Opcode.sra = 35
format Opcode.srl = 35
format Opcode.srlv = 7
format Opcode.sub = 7
format Opcode.subu = 7
format Opcode.sw = 65
format Opcode.sys = 0
format Opcode.xor = 7
format Opcode.xori = 35
format Opcode.jalr = 3
format Opcode.nor = 7

-- `instructionNames`.
unfoldable pub instruction_name : Opcode → List ℕ
instruction_name Opcode.add = text "add"
instruction_name Opcode.addi = text "addi"
instruction_name Opcode.addiu = text "addiu"
instruction_name Opcode.addu = text "addu"
instruction_name Opcode.and = text "and"
instruction_name Opcode.andi = text "andi"
instruction_name Opcode.beq = text "beq"
instruction_name Opcode.bgez = text "bgez"
instruction_name Opcode.bgezal = text "bgezal"
instruction_name Opcode.bgtz = text "bgtz"
instruction_name Opcode.blez = text "blez"
instruction_name Opcode.bltz = text "bltz"
instruction_name Opcode.bltzal = text "bltzal"
instruction_name Opcode.bne = text "bne"
instruction_name Opcode.div = text "div"
instruction_name Opcode.divu = text "divu"
instruction_name Opcode.j = text "j"
instruction_name Opcode.jal = text "jal"
instruction_name Opcode.jr = text "jr"
instruction_name Opcode.lb = text "lb"
instruction_name Opcode.lui = text "lui"
instruction_name Opcode.lw = text "lw"
instruction_name Opcode.mfhi = text "mfhi"
instruction_name Opcode.mflo = text "mflo"
instruction_name Opcode.mult = text "mult"
instruction_name Opcode.multu = text "multu"
instruction_name Opcode.or = text "or"
instruction_name Opcode.ori = text "ori"
instruction_name Opcode.sb = text "sb"
instruction_name Opcode.sll = text "sll"
instruction_name Opcode.sllv = text "sllv"
instruction_name Opcode.slt = text "slt"
instruction_name Opcode.slti = text "slti"
instruction_name Opcode.sltiu = text "sltiu"
instruction_name Opcode.sltu = text "sltu"
instruction_name Opcode.sne = text "sne"
instruction_name Opcode.seq = text "seq"
instruction_name Opcode.sra = text "sra"
instruction_name Opcode.srl = text "srl"
instruction_name Opcode.srlv = text "srlv"
instruction_name Opcode.sub = text "sub"
instruction_name Opcode.subu = text "subu"
instruction_name Opcode.sw = text "sw"
instruction_name Opcode.sys = text "sys"
instruction_name Opcode.xor = text "xor"
instruction_name Opcode.xori = text "xori"
instruction_name Opcode.jalr = text "jalr"
instruction_name Opcode.nor = text "nor"

-- `registerNames`.
abbrev register_names : List (List ℕ)
register_names =
    text "$zero"
    ∷ text "$at"
    ∷ text "$v0"
    ∷ text "v1"
    ∷ text "$a0"
    ∷ text "$a1"
    ∷ text "$a2"
    ∷ text "$a3"
    ∷ text "$t0"
    ∷ text "$t1"
    ∷ text "$t2"
    ∷ text "$t3"
    ∷ text "$t4"
    ∷ text "$t5"
    ∷ text "$t6"
    ∷ text "$t7"
    ∷ text "$s0"
    ∷ text "$s1"
    ∷ text "$s2"
    ∷ text "$s3"
    ∷ text "$s4"
    ∷ text "$s5"
    ∷ text "$s6"
    ∷ text "$s7"
    ∷ text "$t8"
    ∷ text "$t9"
    ∷ text "$k0"
    ∷ text "$k1"
    ∷ text "$gp"
    ∷ text "$sp"
    ∷ text "$fp"
    ∷ text "$ra"
    ∷ []

unfoldable pub register_name : ℕ → List ℕ
register_name r = get_or register_names r []
