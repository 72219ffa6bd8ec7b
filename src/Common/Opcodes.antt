-- ===== src/Common/Opcodes.antt =====
-- src/common.hpp, `Opcode` and `Register`, and the constants of the address space.
use kasm.Base.{ℕ, ◌≡◌, refl, Option, some, List, [], ◌∷◌, get_elem?}

-- The opcodes, in the order of their numbers.
pub data Opcode : Type 0 where
  add addi addiu addu and andi beq bgez bgezal bgtz blez bltz : Opcode
  bltzal bne div divu j jal jr lb lui lw mfhi mflo : Opcode
  mult multu or ori sb sll sllv slt slti sltiu sltu sne : Opcode
  seq sra srl srlv sub subu sw sys xor xori jalr nor : Opcode

-- The number of an opcode: its place in the `enum`.
unfoldable pub encode : Opcode → ℕ
encode add = 0
encode addi = 1
encode addiu = 2
encode addu = 3
encode and = 4
encode andi = 5
encode beq = 6
encode bgez = 7
encode bgezal = 8
encode bgtz = 9
encode blez = 10
encode bltz = 11
encode bltzal = 12
encode bne = 13
encode div = 14
encode divu = 15
encode j = 16
encode jal = 17
encode jr = 18
encode lb = 19
encode lui = 20
encode lw = 21
encode mfhi = 22
encode mflo = 23
encode mult = 24
encode multu = 25
encode or = 26
encode ori = 27
encode sb = 28
encode sll = 29
encode sllv = 30
encode slt = 31
encode slti = 32
encode sltiu = 33
encode sltu = 34
encode sne = 35
encode seq = 36
encode sra = 37
encode srl = 38
encode srlv = 39
encode sub = 40
encode subu = 41
encode sw = 42
encode sys = 43
encode xor = 44
encode xori = 45
encode jalr = 46
encode nor = 47

abbrev pub opcodes : List Opcode
opcodes =
    add ∷ addi ∷ addiu ∷ addu ∷ and ∷ andi ∷ beq ∷ bgez ∷ bgezal ∷ bgtz ∷ blez ∷ bltz ∷ bltzal ∷ bne
    ∷ div ∷ divu ∷ j ∷ jal ∷ jr ∷ lb ∷ lui ∷ lw ∷ mfhi ∷ mflo ∷ mult ∷ multu ∷ or ∷ ori ∷ sb ∷ sll
    ∷ sllv ∷ slt ∷ slti ∷ sltiu ∷ sltu ∷ sne ∷ seq ∷ sra ∷ srl ∷ srlv ∷ sub ∷ subu ∷ sw ∷ sys ∷ xor
    ∷ xori ∷ jalr ∷ nor ∷ []

-- The opcode that a `switch` on a 6-bit number selects; `none` is the `default` case.
unfoldable pub decode : ℕ → Option Opcode
decode n = get_elem? opcodes n

-- The `switch` finds each opcode by its number.
pub decode-encode : (op : Opcode) → decode (encode op) ≡ some op
unfolding decode encode
decode-encode add = refl
decode-encode _ = refl

-- The registers that the programs use by name.
abbrev pub r_zero : ℕ
r_zero = 0

abbrev pub r_at : ℕ
r_at = 1

abbrev pub v0 : ℕ
v0 = 2

abbrev pub v1 : ℕ
v1 = 3

abbrev pub a0 : ℕ
a0 = 4

abbrev pub a1 : ℕ
a1 = 5

abbrev pub a2 : ℕ
a2 = 6

abbrev pub a3 : ℕ
a3 = 7

abbrev pub t0 : ℕ
t0 = 8

abbrev pub t1 : ℕ
t1 = 9

abbrev pub t2 : ℕ
t2 = 10

abbrev pub gp : ℕ
gp = 28

abbrev pub sp : ℕ
sp = 29

abbrev pub fp : ℕ
fp = 30

abbrev pub ra : ℕ
ra = 31

abbrev pub instruction_size : ℕ
instruction_size = 4

abbrev pub global_size : ℕ
global_size = 256

abbrev pub stack_size : ℕ
stack_size = 256

abbrev pub global_offset : ℕ
global_offset = 0xFFFF0000

abbrev pub stack_offset : ℕ
stack_offset = 0x80000000

abbrev pub data_segment_offset : ℕ
data_segment_offset = 0x10010000

-- The header at the front of an executable.
pub record ProgramHeader : Type 0 where
  pub text_segment_begin : ℕ
  pub text_segment_length : ℕ
  pub data_segment_begin : ℕ
  pub data_segment_length : ℕ

pub data AddressType : Type 0 where
  invalid direct_address_absolute direct_address_offset indirect_address_offset : AddressType
  direct_address_absolute_word direct_address_absolute_byte : AddressType
  direct_address_absolute_load : AddressType
