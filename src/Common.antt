-- ===== src/Common.antt =====
-- src/common.hpp: the instruction word, the opcodes and registers, the segments of the address
-- space, and the header of an executable.
mod Opcodes
mod Instruction
pub mod Encoding
pub use Opcodes.{Opcode, AddressType, ProgramHeader, decode-encode}
unfoldable pub use Opcodes.{encode, decode}
pub use Opcodes.{
  opcodes, r_zero, r_at, v0, v1, a0, a1, a2, a3, t0, t1, t2, gp, sp, fp, ra, instruction_size,
  global_size, stack_size, global_offset, stack_offset, data_segment_offset,
}
unfoldable pub use Instruction.*
