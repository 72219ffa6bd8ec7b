-- ===== src/Vm.antt =====
-- src/virtualMachine.hpp, src/virtualMachine.cpp: the machine.
pub mod Memory
pub mod Console
pub mod State
pub mod Syscall
pub mod Execute
pub mod Run
pub mod Signs
pub mod Frame
pub mod Strings
