-- ===== src/Debugger/Breakpoints.antt =====
-- src/debugger.cpp, `setBreakpoint` and `removeBreakpoint`.
use kasm.Base.{
  ℕ, ◌+◌, ◌≤◌, ◌≡◌, refl, suc, true, none, some, [], ◌∷◌, arith, IsWord, some_inj, bind-eq-some,
  sym, ◌∙◌, ==_self,
}
use kasm.Common.{opcode}
use kasm.Vm.State.{Signal, Outcome}
use kasm.Vm.Frame.{execute_instruction-illegal}
use kasm.Vm.Run.{run, running}
use kasm.Vm.Run.Reach.{run-failure, step-fetched}
use kasm.Vm.Memory.{Program, locate, bound, get_word, set_word}
use kasm.Vm.Memory.Laws.{set_word-header, set_word-restore, set_word-fits, get_word-set_word_self}
use kasm.Vm.Memory.HasBytes.{HasBytes}
use kasm.Debugger.{
  with_program, Breakpoints, Debugger, find, erase, set_breakpoint, remove_breakpoint,
  breakpoint_word,
}

erase-absent : (a : ℕ) (bs : Breakpoints) → find a bs ≡ none → erase a bs ≡ bs
unfolding find erase
erase-absent a [] h = refl
erase-absent a ((b, w) ∷ bs) h = ground (arith, erase-absent a bs)

-- What a breakpoint that was set has done.
set_breakpoint-parts :
    (a : ℕ) (d d' : Debugger)
    → find a d.breakpoints ≡ none
    → set_breakpoint a d ≡ some d'
    → (w : ℕ) × (p : Program) × (get_word d.vm.program a ≡ some w)
      × (set_word d.vm.program a breakpoint_word ≡ some p)
      × (d' ≡ record (with_program d p) { breakpoints = (a, w) ∷ d.breakpoints })
unfolding set_breakpoint
set_breakpoint-parts a d d' absent e =
    let (w, g, e') = bind-eq-some (get_word d.vm.program a) _ (rw absent at e) in
    let (p, s, e'') = bind-eq-some (set_word d.vm.program a breakpoint_word) _ e' in
    (w, p, g, s, sym (some_inj e''))

-- On arrays of bytes, removing a breakpoint that was just set where there was none gives the debugger
-- as it was, memory and table included.
pub remove_breakpoint-set_breakpoint :
    (a : ℕ) (d d' : Debugger)
    → HasBytes d.vm.program
    → find a d.breakpoints ≡ none
    → set_breakpoint a d ≡ some d'
    → remove_breakpoint a d' ≡ some d
unfolding remove_breakpoint find erase
remove_breakpoint-set_breakpoint a d d' h absent e =
    let (w, p, g, s, d_eq) = set_breakpoint-parts a d d' absent e in
    rw (
      d_eq,
      ==_self a,
      set_word-restore d.vm.program p a breakpoint_word w h g s,
      erase-absent a d.breakpoints absent,
    )

find-erase : (a : ℕ) (bs : Breakpoints) → find a (erase a bs) ≡ none
unfolding find erase
find-erase a [] = refl
find-erase a ((b, w) ∷ bs) = ground (arith, find-erase a bs)

-- A place whose word lies within its array.
abbrev pub InArray : Program → ℕ → Type 0
InArray p a = (locate p a).index + 4 ≤ bound p (locate p a).area

-- Removing a breakpoint within its array puts the recorded word back, whatever the program did to that
-- place since, and takes the entry out of the table.
pub remove_breakpoint_lem :
    (a w : ℕ) (d : Debugger)
    → IsWord w
    → InArray d.vm.program a
    → find a d.breakpoints ≡ some w
    → (d' : Debugger) × (remove_breakpoint a d ≡ some d')
      × (get_word d'.vm.program a ≡ some w)
      × (find a d'.breakpoints ≡ none)
unfolding remove_breakpoint
remove_breakpoint_lem a w d hw fits found =
    let (p, s) = set_word-fits d.vm.program a w fits in
    (
      record (with_program d p) { breakpoints = erase a d.breakpoints },
      rw (found, s) refl,
      get_word-set_word_self d.vm.program p a w hw s,
      find-erase a d.breakpoints,
    )

-- Setting a breakpoint a second time changes nothing: the recorded word stays the program's.
pub set_breakpoint_twice :
    (a : ℕ) (d d' : Debugger)
    → find a d.breakpoints ≡ none
    → set_breakpoint a d ≡ some d'
    → set_breakpoint a d' ≡ some d'
unfolding set_breakpoint find
set_breakpoint_twice a d d' absent e =
    let (w, p, g, s, d_eq) = set_breakpoint-parts a d d' absent e in rw (d_eq, ==_self a)

opcode-breakpoint_word : 48 ≤ opcode breakpoint_word
unfolding opcode
opcode-breakpoint_word = omega arith

running-with_program :
    (d : Debugger) (p : Program)
    → p.header ≡ d.vm.program.header
    → running d.vm ≡ true
    → running (with_program d p).vm ≡ true
unfolding running
running-with_program d p e r = rw e r

-- With a breakpoint that was set at `pc`, no handler and the loop's condition true, the loop raises the
-- signal at once and leaves the state as it was: `run` cannot go on past a breakpoint that stays set.
pub run-at_breakpoint :
    (fuel : ℕ) (d d' : Debugger)
    → d.vm.signal_handlers Signal.illegal_opcode ≡ none
    → find d.vm.pc d.breakpoints ≡ none
    → set_breakpoint d.vm.pc d ≡ some d'
    → running d.vm ≡ true
    → run (suc fuel) d'.vm ≡ some (Outcome.signal Signal.illegal_opcode d'.vm)
run-at_breakpoint fuel d d' free absent e r =
    let (w, p, g, s, d_eq) = set_breakpoint-parts d.vm.pc d d' absent e in
    rw d_eq (
      run-failure fuel (with_program d p).vm _
        (running-with_program d p (set_word-header _ p _ _ s) r)
        (step-fetched (with_program d p).vm breakpoint_word
            (get_word-set_word_self d.vm.program p d.vm.pc breakpoint_word (omega arith) s)
          ∙ execute_instruction-illegal breakpoint_word (with_program d p).vm opcode-breakpoint_word
              free)
        tt)
