-- ===== src/Lib.antt =====
-- kasm: a MIPS-like assembler, the virtual machine that runs its programs, a debugger, a disassembler,
-- and a compiler to the assembly language.
--
-- The assembler (src/assembler.yy, src/assembler_util.cpp) parses a source file and writes words
-- and bytes through the binary builder (src/binaryBuilder.cpp), which keeps the text and the data
-- segment and writes them to a file. The virtual machine (src/virtualMachine.hpp,
-- src/virtualMachine.cpp) loads such a file and runs it; the debugger (src/debugger.cpp) is a
-- machine that overwrites instructions to stop at them. The disassembler (src/disassembler.cpp)
-- lists a file. The compiler (src/ast.cpp, src/compiler_util.cpp) turns a syntax tree into assembly
-- code. All parts share the instruction format of src/common.hpp.
--
-- The files:
--   * Base: names of the libraries passed on, Boolean tests, lists over native numbers, 32-bit words
--     with their wrap-around, bit operations at variables.
--   * Common: `Opcode`, `Register`, the layout of the address space (Common/Opcodes) and
--     `InstructionData` (Common/Instruction) with its round trips (Common/Encoding).
--   * Vm: the class `VirtualMachine`. Vm/Memory is its `Program`, Vm/Console the two standard streams,
--     Vm/State the state and the ways a call ends, Vm/Syscall `systemCall`, Vm/Execute
--     `executeInstruction` and `resolveAddress`, Vm/Run `step`, `run` and `execute`.
--     Vm/Run/Reach the loop as a relation, Vm/Frame and Vm/Signs single instructions,
--     Vm/Strings the service that reads a string.
--   * Builder: the class `BinaryBuilder`; Builder/Buffer is the `std::ostringstream` of a segment.
--   * Assembler: `Assembler` and the actions of the grammar; the children treat the symbol tables,
--     the addresses of branches and jumps (Reach), of loads and stores (Indirect), `LI` (Words),
--     the loop over late addresses (FixUp), every instruction and pseudo-instruction (Statement),
--     the directives TEXT, DATA, WORD, BYTE, ASCII, ASCIIZ, ALIGN and SPACE (Directive), and the
--     stack of macro calls with the input stream (Macros).
--   * Debugger: breakpoints, and a turn of `cli` (Debugger/Session).
--   * Disassembler: the listing of a file, with its tables and its hexadecimal numbers; Returns is
--     about its loops on files that the builder wrote.
--   * Ast, Compiler: the syntax tree (src/ast.hpp), and the passes of src/compiler_util.cpp over
--     it: `negate` and `semanticAnalysis` in Compiler, `codeGeneration` in Compiler/Code, its lines
--     in Compiler/Line (Line/Reads: which lines of the file read as a label). Code/Count,
--     Code/Labels, Code/Loops and Code/Distinct count the labels, Code/Returns and Code/Total say
--     when the code is produced. Compiler/Pretty is `prettyPrint`, Compiler/Compile is `compile`
--     from the tree on.
--   * CompoundInput: the class `CompoundInputFileStream` (src/compoundInputFileStream.cpp), from
--     which the assembler reads. Its list of entries is split at the iterator; reading is in
--     CompoundInput, what adds entries in CompoundInput/Push, and the children are about the text
--     that is left.
--   * SymbolFile: the loop in src/debugger.cpp and src/disassembler.cpp that reads a symbol table file.
--   * CommandLine: `main` of src/kasm.cpp.
--   * Tests: every theorem of the results at a concrete state, and runs.
--
-- A C++ state is a record, a member function a function from state to state. What ends otherwise than
-- by returning is a value: `Outcome` of the machine has a constructor for a signal, for each exception
-- and for undefined behaviour, `Result` of the assembler has its errors, and `none` of a memory access
-- stands for an index outside the array. Words are native numbers below 2 ^ 32 with `% 2 ^ 32`
-- written out. An `unordered_map` is an association list.
--
-- The loop of `run` need not end and takes fuel; a run that ends after n rounds needs n + 1.
-- Filling in `setLocation` counts the bytes that are missing, so it needs no fuel. The
-- disassembler's loop over the text takes one unit for each word. Reading a symbol table takes a
-- number of rounds, one more than there are entries.
--
-- Parameters: where the heap of the host puts the n-th block, or that it has no memory for it, is a
-- function in the state, and the bytes of a name in `saveSymbolTable` are an argument. The
-- uninitialised words that the assembler's macros start from are arguments, as are the variables
-- that the reader of a symbol table does not initialise. What the input stream reads are the bytes
-- of files, a function of the name. In `main` the assembler and the disassembler are parameters,
-- and so is the text of an exception of the standard library. Which files can be opened is an
-- argument too.
--
-- Not modelled: the generated parsers (src/assembler.cpp, src/compiler.cpp,
-- src/compiler.tab.hpp), the lexers, the grammar of the compiler, whose actions call the
-- functions of src/ast.cpp, labels in macros, the substitution of their arguments, the remaining
-- directives, the reading of commands in the debugger, and the destructors. The code of `assert`
-- is modelled where an action of the assembler has one.
pub mod Base
pub mod Common
pub mod Vm
pub mod Debugger
pub mod Builder
pub mod Assembler
pub mod Disassembler
pub mod Ast
pub mod Compiler
pub mod CompoundInput
pub mod SymbolFile
pub mod CommandLine
pub mod Tests
