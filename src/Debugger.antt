-- ===== src/Debugger.antt =====
-- src/debugger.hpp, src/debugger.cpp: breakpoints over the machine.
pub mod Breakpoints
pub mod Session
use kasm.Base.{
  ℕ, ◌+◌, ◌^◌, Bool, true, false, Option, none, some, List, [], ◌∷◌, String, str_eq, ◌==◌,
  if◌then◌else◌, bind, maybe,
}
use kasm.Vm.Memory.{Program, get_word, set_word, get_byte}
use kasm.Vm.State.{VirtualMachine, Signal, Outcome, reset}
use kasm.Vm.Run.{run, step, and_then}

-- `unordered_map<std::uint32_t, std::uint32_t> breakpoints`: the words that breakpoints replaced.
abbrev pub Breakpoints : Type 0
Breakpoints = List (ℕ × ℕ)

pub record Debugger : Type 0 where
  pub vm : VirtualMachine
  pub symbol_table : List (String × ℕ)
  pub breakpoints : Breakpoints
  pub until : List ℕ

unfoldable pub find : ℕ → Breakpoints → Option ℕ
find a [] = none
find a ((b, w) ∷ bs) = if b == a then some w else find a bs

unfoldable pub erase : ℕ → Breakpoints → Breakpoints
erase a [] = []
erase a ((b, w) ∷ bs) = let rest = erase a bs in if b == a then rest else (b, w) ∷ rest

unfoldable pub find_symbol : String → List (String × ℕ) → Option ℕ
find_symbol l [] = none
find_symbol l ((m, a) ∷ t) = if str_eq m l then some a else find_symbol l t

abbrev pub with_program : Debugger → Program → Debugger
with_program d p = record d { vm = record d.vm { program = p } }

-- The word that a breakpoint writes: its opcode, 63, has no case in the machine.
abbrev pub breakpoint_word : ℕ
breakpoint_word = 0xFFFFFFFF

-- `setBreakpoint(address)`; `none` where `getWord` leaves its array.
unfoldable pub set_breakpoint : ℕ → Debugger → Option Debugger
set_breakpoint a d =
    maybe (find a d.breakpoints)
      (bind (get_word d.vm.program a) (λ w.
        bind (set_word d.vm.program a breakpoint_word)
          (λ p. some (record (with_program d p) { breakpoints = (a, w) ∷ d.breakpoints }))))
      (λ _. some d)

-- `removeBreakpoint(address)`.
unfoldable pub remove_breakpoint : ℕ → Debugger → Option Debugger
remove_breakpoint a d = maybe (find a d.breakpoints) (some d) (λ w.
    bind (set_word d.vm.program a w)
      (λ p. some (record (with_program d p) { breakpoints = erase a d.breakpoints })))

-- The overloads on a label do nothing where the symbol table lacks it.
unfoldable pub set_breakpoint_at : String → Debugger → Option Debugger
set_breakpoint_at l d = maybe (find_symbol l d.symbol_table) (some d) (λ a. set_breakpoint a d)

unfoldable pub remove_breakpoint_at : String → Debugger → Option Debugger
remove_breakpoint_at l d =
    maybe (find_symbol l d.symbol_table) (some d) (λ a. remove_breakpoint a d)

-- `peakRegister` and `peakMemory`.
unfoldable pub peak_register : ℕ → Debugger → ℕ
peak_register r d = d.vm.registers r

unfoldable pub peak_memory : ℕ → Debugger → Option ℕ
peak_memory a d = get_byte d.vm.program a
