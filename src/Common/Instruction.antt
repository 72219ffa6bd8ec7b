-- ===== src/Common/Instruction.antt =====
-- src/common.hpp, `union InstructionData`: one 32-bit word and its bit-fields, in the layout of the
-- little-endian branch of the `#if`. From the lowest bit: 11 unnamed bits, `register2`,
-- `register1`, `register0` (5 bits each), `opcode` (6); `immediate` and the signed
-- `directAddressOffset` are bits 0 to 15, `directAddressAbsolute` bits 0 to 25.
use kasm.Base.{ℕ, ◌+◌, ◌*◌, ◌/◌, ◌%◌, ◌^◌, sign_extend}

-- Reading a field.
unfoldable pub opcode : ℕ → ℕ
opcode d = d / 2 ^ 26 % 2 ^ 6

unfoldable pub register0 : ℕ → ℕ
register0 d = d / 2 ^ 21 % 2 ^ 5

unfoldable pub register1 : ℕ → ℕ
register1 d = d / 2 ^ 16 % 2 ^ 5

unfoldable pub register2 : ℕ → ℕ
register2 d = d / 2 ^ 11 % 2 ^ 5

unfoldable pub immediate : ℕ → ℕ
immediate d = d % 2 ^ 16

unfoldable pub direct_address_absolute : ℕ → ℕ
direct_address_absolute d = d % 2 ^ 26

-- The field is signed; every use adds it to a `std::uint32_t`, which converts it to 32 bits.
unfoldable pub direct_address_offset : ℕ → ℕ
unfolding sign_extend
direct_address_offset d = sign_extend (d % 2 ^ 16)

-- Writing a field keeps the other bits; the value is cut to the field's width.
unfoldable pub set_opcode : ℕ → ℕ → ℕ
set_opcode d v = v % 2 ^ 6 * 2 ^ 26 + d % 2 ^ 26

unfoldable pub set_register0 : ℕ → ℕ → ℕ
set_register0 d v = d / 2 ^ 26 * 2 ^ 26 + v % 2 ^ 5 * 2 ^ 21 + d % 2 ^ 21

unfoldable pub set_register1 : ℕ → ℕ → ℕ
set_register1 d v = d / 2 ^ 21 * 2 ^ 21 + v % 2 ^ 5 * 2 ^ 16 + d % 2 ^ 16

unfoldable pub set_register2 : ℕ → ℕ → ℕ
set_register2 d v = d / 2 ^ 16 * 2 ^ 16 + v % 2 ^ 5 * 2 ^ 11 + d % 2 ^ 11

unfoldable pub set_immediate : ℕ → ℕ → ℕ
set_immediate d v = d / 2 ^ 16 * 2 ^ 16 + v % 2 ^ 16

unfoldable pub set_direct_address_absolute : ℕ → ℕ → ℕ
set_direct_address_absolute d v = d / 2 ^ 26 * 2 ^ 26 + v % 2 ^ 26

unfoldable pub set_direct_address_offset : ℕ → ℕ → ℕ
set_direct_address_offset d v = d / 2 ^ 16 * 2 ^ 16 + v % 2 ^ 16
