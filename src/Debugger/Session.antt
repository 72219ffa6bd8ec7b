-- ===== src/Debugger/Session.antt =====
-- src/debugger.cpp, `cli`: one turn of its loop, from the command of a line. Reading the line and
-- `std::stoi` on its tail are not modelled: a command carries its number. The machine runs on fuel,
-- and `none` also stands for a read or write that leaves its array.
use kasm.Base.{ℕ, ◌≡◌, refl, true, Option, none, some, List, [], ◌∷◌, if◌then◌else◌, bind, IsWord}
use kasm.Vm.Memory.{get_word}
use kasm.Vm.State.{VirtualMachine, Signal, Outcome, signal_eq}
use kasm.Vm.Syscall.{contains, without}
use kasm.Vm.Run.{run, step, execute_program}
use kasm.Debugger.{Debugger, set_breakpoint, remove_breakpoint, peak_register, peak_memory, find}
use kasm.Debugger.Breakpoints.{remove_breakpoint_lem, InArray}

pub data Command : Type 0 where
  register memory breakpoint go_until : ℕ → Command
  execute continue instruction display quit other : Command

pub data Report : Type 0 where
  value : ℕ → Report
  pc_is : ℕ → Report
  breakpoint_hit : ℕ → Report
  exited : ℕ → Report

-- A turn ends in the next state and what was printed, in `return`, or in an exception that `cli` does
-- not catch.
pub data Turn : Type 0 where
  next : Debugger → List Report → Turn
  returned : Debugger → Turn
  escaped : Outcome → Turn

-- The line that closes a turn.
unfoldable pub close_turn : Debugger → List Report → Turn
close_turn d rs = next d (if d.vm.should_exit then exited d.vm.exit_code ∷ rs else rs)

abbrev pub with_vm : Debugger → VirtualMachine → Debugger
with_vm d vm = record d { vm = vm }

-- The `catch`: a temporary breakpoint of `u` is taken away, another is reported; signals of other
-- kinds are dropped.
unfoldable pub catch_signal : Signal → Debugger → Option Turn
catch_signal s d =
    if signal_eq s Signal.illegal_opcode
    then if contains d.vm.pc d.until
      then bind (remove_breakpoint d.vm.pc (record d { until = without d.vm.pc d.until }))
          (λ d'. some (close_turn d' []))
      else some (close_turn d (breakpoint_hit d.vm.pc ∷ []))
    else some (close_turn d [])

unfoldable pub finish : Debugger → Outcome → Option Turn
finish d (Outcome.ok vm) = some (close_turn (with_vm d vm) [])
finish d (Outcome.signal s vm) = catch_signal s (with_vm d vm)
finish d o = some (escaped o)

unfoldable pub turn : ℕ → Command → Debugger → Option Turn
turn fuel (register r) d = some (close_turn d (value (peak_register r d) ∷ []))
turn fuel (memory a) d = bind (peak_memory a d) (λ b. some (close_turn d (value b ∷ [])))
turn fuel (breakpoint a) d = bind (set_breakpoint a d) (λ d'. some (close_turn d' []))
turn fuel (go_until a) d =
    bind (set_breakpoint a (record d { until = a ∷ d.until }))
      (λ d'. bind (run fuel d'.vm) (λ o. finish d' o))
turn fuel execute d = bind (execute_program fuel d.vm) (λ o. finish d o)
turn fuel continue d = bind (run fuel d.vm) (λ o. finish d o)
turn fuel instruction d = finish d (step d.vm)
turn fuel display d = some (close_turn d (pc_is d.vm.pc ∷ []))
turn fuel quit d = some (returned d)
turn fuel other d = some (close_turn d [])

-- An empty line repeats the last one, which is `execute` at first; every turn sets it anew.
unfoldable pub command_of : Option Command → Command → Command
command_of none last = last
command_of (some c) last = c

-- When the machine stops at a breakpoint that `u` waits for, the turn ends with the program's own word
-- back in its place, and no breakpoint there.
pub catch_signal-until :
    (w : ℕ) (d : Debugger)
    → IsWord w
    → InArray d.vm.program d.vm.pc
    → contains d.vm.pc d.until ≡ true
    → find d.vm.pc d.breakpoints ≡ some w
    → (d' : Debugger) × (catch_signal Signal.illegal_opcode d ≡ some (close_turn d' []))
      × (get_word d'.vm.program d.vm.pc ≡ some w)
      × (find d.vm.pc d'.breakpoints ≡ none)
unfolding catch_signal signal_eq
catch_signal-until w d hw fits waits found =
    let cleared = record d { until = without d.vm.pc d.until } in
    let (r, removed, word_back, gone) = remove_breakpoint_lem d.vm.pc w cleared hw fits found in
    (r, rw (waits, removed) refl, word_back, gone)
