-- ===== src/Tests.antt =====
-- Concrete machines, builders, assemblers and debuggers: every theorem of the results at one of them,
-- and runs of the definitions.
pub mod Machine
pub mod Vm
pub mod Builder
pub mod Assembler
pub mod Debugger
pub mod Disassembler
pub mod Compiler
pub mod CompoundInput
pub mod Tools
pub mod Statement
pub mod Directive
pub mod Macros
