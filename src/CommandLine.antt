-- ===== src/CommandLine.antt =====
-- src/kasm.cpp, `main`: the choice of the part to run, and the exit status.
pub mod Status
use kasm.Base.{ℕ, ◌-◌, ◌^◌, Option, none, some, List, [], ◌∷◌, String, str_eq, if◌then◌else◌, maybe}
use kasm.Vm.Memory.{load}
use kasm.Vm.State.{VirtualMachine, Signal, Outcome}
use kasm.Vm.Run.{execute_program}

-- How a call ends: it returns, with the value that `exitCode` takes; it throws a `std::exception`, with
-- its `what()`; it throws a `Signal`, which is no `std::exception`; C++ does not define it; or the
-- fuel of the machine's loop ran out.
pub data Ending : Type 0 where
  returns : ℕ → Ending
  throws : String → Ending
  raises : Signal → Ending
  undefined out_of_fuel : Ending

-- `Assembler::assemble` and `Disassembler::disassemble` of two paths, `VirtualMachine::loadProgram`
-- and `execute` of one.
pub record Tools : Type 0 where
  pub assemble : String → String → Ending
  pub disassemble : String → String → Ending
  pub execute : String → Ending

-- How the program ends: with a status, as the bits of an `int`, and the lines on `std::cerr`; by
-- `std::terminate`, for an exception that nothing catches; or as the call.
pub data Exit : Type 0 where
  exits : ℕ → List String → Exit
  terminates : Signal → Exit
  undefined out_of_fuel : Exit

pub data Choice : Type 0 where
  misuse : String → Choice
  call : Ending → Choice

-- A call that returns no value leaves `exitCode` as it is.
abbrev pub without_status : Ending → Ending
without_status (Ending.returns _) = Ending.returns 0
without_status e = e

abbrev pub one_path : String → (String → Ending) → List String → Choice
one_path message f [] = Choice.misuse message
one_path message f (a ∷ _) = Choice.call (f a)

abbrev pub two_paths : String → (String → String → Ending) → List String → Choice
two_paths message f [] = Choice.misuse message
two_paths message f (_ ∷ []) = Choice.misuse message
two_paths message f (a ∷ b ∷ _) = Choice.call (without_status (f a b))

unfoldable pub choose : Tools → String → List String → Choice
choose t subcommand rest =
    if str_eq subcommand "asm"
    then two_paths "Subcommand asm requires source and output paths" t.assemble rest
    else if str_eq subcommand "dsm"
    then two_paths "Subcommand dsm requires executable and output paths" t.disassemble rest
    else if str_eq subcommand "vm"
    then one_path "Subcommand vm requires executable path" t.execute rest
    else Choice.misuse "Invalid subcommand [asm|dsm|vm]"

-- The `try` block, its handler and the returns. `exitCode` is 0 until the machine returns.
unfoldable pub leave : Choice → Exit
leave (Choice.misuse m) = Exit.exits (2 ^ 32 - 1) (m ∷ [])
leave (Choice.call (Ending.returns code)) = Exit.exits code []
leave (Choice.call (Ending.throws what)) = Exit.exits 0 (what ∷ [])
leave (Choice.call (Ending.raises s)) = Exit.terminates s
leave (Choice.call Ending.undefined) = Exit.undefined
leave (Choice.call Ending.out_of_fuel) = Exit.out_of_fuel

-- `main`, on `argv`.
unfoldable pub main : Tools → List String → Exit
unfolding choose leave
main t [] = leave (Choice.misuse "Subcommand required [asm|dsm|vm]")
main t (_ ∷ []) = leave (Choice.misuse "Subcommand required [asm|dsm|vm]")
main t (_ ∷ subcommand ∷ rest) = leave (choose t subcommand rest)

-- Exceptions of the standard library, whose `what()` is the library's.
pub data LibraryException : Type 0 where
  out_of_range bad_alloc : LibraryException

unfoldable pub ending_of : (LibraryException → String) → Outcome → Ending
ending_of what (Outcome.ok vm) = Ending.returns vm.exit_code
ending_of what (Outcome.signal s vm) = Ending.raises s
ending_of what (Outcome.error m vm) = Ending.throws m
ending_of what (Outcome.out_of_range vm) = Ending.throws (what LibraryException.out_of_range)
ending_of what (Outcome.bad_alloc vm) = Ending.throws (what LibraryException.bad_alloc)
ending_of what Outcome.undefined = Ending.undefined

-- `loadProgram` and `execute` on the bytes of a file, if it can be opened.
unfoldable pub execute_file :
    ℕ → (LibraryException → String) → (String → Option (List ℕ)) → VirtualMachine → String → Ending
unfolding ending_of
execute_file fuel what disk vm path =
    maybe (disk path) (Ending.throws "Failed to open executable") (λ bytes.
      maybe (execute_program fuel (record vm { program = load vm.program bytes }))
        Ending.out_of_fuel (ending_of what))
