-- ===== src/Tests/Debugger.antt =====
-- The debugger's theorems at the program that exits with 7.
use kasm.Base.{◌+◌, ◌≤◌, ◌≡◌, refl, none, some, [], ◌∷◌, arith}
use kasm.Vm.Memory.{
  Area, locate, bound, bytes_of, put_word, get_word, set_word, word_at, with_bytes,
}
use kasm.Vm.State.{Outcome, Signal}
use kasm.Vm.Syscall.{contains}
use kasm.Vm.Run.{run, running}
use kasm.Debugger.{Debugger, find, set_breakpoint, remove_breakpoint, with_program, breakpoint_word}
use kasm.Debugger.Breakpoints.{remove_breakpoint-set_breakpoint, run-at_breakpoint}
use kasm.Debugger.Session.{catch_signal, catch_signal-until, close_turn}
use kasm.Tests.Machine.{machine, exit_program, exit_program-HasBytes}

abbrev debugger : Debugger
debugger = record { vm = machine; symbol_table = []; breakpoints = []; until = [] }

abbrev stopped : Debugger
stopped =
    record (with_program debugger
      (with_bytes exit_program Area.in_image (put_word exit_program.image 0 breakpoint_word))) {
        breakpoints = (0, 0x6C400000) ∷ [];
      }

abbrev waiting : Debugger
waiting = record stopped { until = 0 ∷ [] }

first_breakpoint : set_breakpoint 0 debugger ≡ some stopped
unfolding set_breakpoint find get_word set_word locate bound bytes_of word_at
first_breakpoint = refl

remove_breakpoint-set_breakpoint_example : remove_breakpoint 0 stopped ≡ some debugger
unfolding find
remove_breakpoint-set_breakpoint_example =
    remove_breakpoint-set_breakpoint 0 debugger stopped exit_program-HasBytes refl first_breakpoint

run-at_breakpoint_example :
    run 3 stopped.vm ≡ some (Outcome.signal Signal.illegal_opcode stopped.vm)
unfolding find running
run-at_breakpoint_example = run-at_breakpoint 2 debugger stopped refl refl first_breakpoint refl

word_inside : 0 + 4 ≤ 16
word_inside = omega arith

catch_signal-until_example :
    (d' : Debugger) × (catch_signal Signal.illegal_opcode waiting ≡ some (close_turn d' []))
    × (get_word d'.vm.program 0 ≡ some 0x6C400000)
    × (find 0 d'.breakpoints ≡ none)
unfolding find locate bound with_bytes contains
catch_signal-until_example =
    catch_signal-until 0x6C400000 waiting (omega arith) word_inside refl refl
