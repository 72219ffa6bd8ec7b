-- ===== src/Vm/Run/Reach.antt =====
-- src/virtualMachine.cpp, `run`: the loop against a relation of single rounds.
use kasm.Base.{
  ℕ, zero, suc, ◌≤◌, ◌<◌, ◌≡◌, ap, Bool, ◌⊎◌, inl, inr, refl, lt→ltb, le→ltb, ltb→lt, ltb→le, ltb,
  not, ◌&&◌, Option-cases, true, false, Option, none, some, arith, Bool-cases, some_inj,
  none-ne-some, sym, ◌∙◌,
}
use mathlib.Core.Path.{subst}
use kasm.Vm.Memory.{get_word}
use kasm.Vm.Execute.{execute_instruction}
use kasm.Vm.State.{VirtualMachine, Outcome}
use kasm.Vm.Run.{step, running, run, and_then}

-- `pc < textSegmentLength && !shouldExit`, and what it is not.
pub record Continues (vm : VirtualMachine) : Type 0 where
  pub in_text : vm.pc < vm.program.header.text_segment_length
  pub no_exit : vm.should_exit ≡ false

abbrev pub Leaves : VirtualMachine → Type 0
Leaves vm = (vm.program.header.text_segment_length ≤ vm.pc) ⊎ (vm.should_exit ≡ true)

-- The instruction at `pc`, executed; where its word is not in memory, undefined.
pub data Executes (vm : VirtualMachine) (o : Outcome) : Type 0 where
  fetched :
      (d : ℕ) → get_word vm.program vm.pc ≡ some d → execute_instruction d vm ≡ o → Executes vm o
  no_word : get_word vm.program vm.pc ≡ none → o ≡ Outcome.undefined → Executes vm o

-- Rounds of the loop that complete.
pub data Rounds : VirtualMachine → VirtualMachine → Type 0 where
  here : {vm : VirtualMachine} → Rounds vm vm
  next :
      {vm vm' last : VirtualMachine}
      → Continues vm
      → Executes vm (Outcome.ok vm')
      → Rounds vm' last
      → Rounds vm last

-- An outcome that is no return.
abbrev pub IsFailure : Outcome → Type 0
IsFailure (Outcome.ok _) = ⊥
IsFailure _ = Unit

-- The loop ends at `vm` with the outcome: outside the text or after an exit, or by a round that fails.
pub data Stops : VirtualMachine → Outcome → Type 0 where
  by_test : {vm : VirtualMachine} → Leaves vm → Stops vm (Outcome.ok vm)
  by_failure :
      {vm : VirtualMachine} {o : Outcome} → Continues vm → Executes vm o → IsFailure o → Stops vm o

-- The condition of the loop, and the two ways in which it is false.
Continues-running : {vm : VirtualMachine} → Continues vm → running vm ≡ true
unfolding running
Continues-running {vm} c =
    rw (lt→ltb vm.pc vm.program.header.text_segment_length c.in_text, c.no_exit) refl

and-false : (b : Bool) → (b && false) ≡ false
and-false true = refl
and-false false = refl

Leaves-running : (vm : VirtualMachine) → Leaves vm → running vm ≡ false
unfolding running
Leaves-running vm (inl h) = rw (le→ltb vm.pc vm.program.header.text_segment_length h) refl
Leaves-running vm (inr h) =
    ap (λ b. ltb vm.pc vm.program.header.text_segment_length && not b) h
    ∙ and-false (ltb vm.pc vm.program.header.text_segment_length)

running-cases : (vm : VirtualMachine) → Continues vm ⊎ Leaves vm
running-cases vm = elim (Bool-cases (ltb vm.pc vm.program.header.text_segment_length)) [
  | inl lt ↦ elim (Bool-cases vm.should_exit) [
    | inl e ↦ inr (inr e)
    | inr e ↦ inl (record { in_text = ltb→lt _ _ lt; no_exit = e })
  ]
  | inr ge ↦ inr (inl (ltb→le _ _ ge))
]

step-Executes : (vm : VirtualMachine) → Executes vm (step vm)
unfolding step
step-Executes vm = elim (Option-cases (get_word vm.program vm.pc)) [
  | inl e ↦ no_word e (rw e refl)
  | inr (d, e) ↦ fetched d e (rw e refl)
]

Executes-step : {vm : VirtualMachine} {o : Outcome} → Executes vm o → step vm ≡ o
unfolding step
Executes-step (fetched d e h) = rw e h
Executes-step (no_word e h) = rw e (sym h)

-- The loop ends from `vm` with the outcome, after some number of rounds.
abbrev pub Ends : VirtualMachine → Outcome → Type 0
Ends vm o = (last : VirtualMachine) × Rounds vm last × Stops last o

Ends-step :
    (fuel : ℕ) (vm : VirtualMachine) (r o : Outcome)
    → Continues vm
    → Executes vm r
    → ((vm' : VirtualMachine) → run fuel vm' ≡ some o → Ends vm' o)
    → and_then r (λ vm'. run fuel vm') ≡ some o
    → Ends vm o
Ends-step fuel vm (Outcome.ok vm') o t e ih h =
    let (last, rounds, stops) = ih vm' h in (last, next t e rounds, stops)
Ends-step fuel vm (Outcome.signal s w) o t e ih h =
    subst (λ x. Ends vm x) (some_inj h) (vm, here, by_failure t e tt)
Ends-step fuel vm (Outcome.error m w) o t e ih h =
    subst (λ x. Ends vm x) (some_inj h) (vm, here, by_failure t e tt)
Ends-step fuel vm (Outcome.out_of_range w) o t e ih h =
    subst (λ x. Ends vm x) (some_inj h) (vm, here, by_failure t e tt)
Ends-step fuel vm (Outcome.bad_alloc w) o t e ih h =
    subst (λ x. Ends vm x) (some_inj h) (vm, here, by_failure t e tt)
Ends-step fuel vm Outcome.undefined o t e ih h =
    subst (λ x. Ends vm x) (some_inj h) (vm, here, by_failure t e tt)

-- The loop without a round.
run-stopped :
    (fuel : ℕ) (vm : VirtualMachine) → running vm ≡ false → run fuel vm ≡ some (Outcome.ok vm)
unfolding run
run-stopped zero vm e = rw (e, run)
run-stopped (suc fuel) vm e = rw (e, run)

pub step-fetched :
    (vm : VirtualMachine) (d : ℕ)
    → get_word vm.program vm.pc ≡ some d
    → step vm ≡ execute_instruction d vm
unfolding step
step-fetched vm d e = rw e

run-round :
    (fuel : ℕ) (vm : VirtualMachine)
    → running vm ≡ true
    → run (suc fuel) vm ≡ and_then (step vm) (λ vm'. run fuel vm')
unfolding run
run-round fuel vm e = rw (e, run)

and_then-failure :
    (o : Outcome) (f : VirtualMachine → Option Outcome) → IsFailure o → and_then o f ≡ some o
and_then-failure (Outcome.ok vm) f h = absurd h
and_then-failure _ f h = refl

-- A round that fails ends the loop.
pub run-failure :
    (fuel : ℕ) (vm : VirtualMachine) (o : Outcome)
    → running vm ≡ true
    → step vm ≡ o
    → IsFailure o
    → run (suc fuel) vm ≡ some o
run-failure fuel vm o t e b =
    run-round fuel vm t ∙ rw e (and_then-failure o (λ vm'. run fuel vm') b)

run-no_fuel : (vm : VirtualMachine) → running vm ≡ true → run 0 vm ≡ none
unfolding run
run-no_fuel vm e = rw (e, run)

-- Whatever the fuel, an outcome that the loop gives is where the rounds end. A round starts where `pc`
-- is below the length of the text segment and no exit was asked for, and executes the word at `pc`;
-- the rounds end where `pc` is not below the length or an exit was asked for, with this state, or with
-- a round that fails.
pub run-Ends : (fuel : ℕ) (vm : VirtualMachine) (o : Outcome) → run fuel vm ≡ some o → Ends vm o
run-Ends zero vm o h = elim (running-cases vm) [
  | inl c ↦ absurd (none-ne-some (sym (run-no_fuel vm (Continues-running c)) ∙ h))
  | inr f ↦
      subst (λ x. Ends vm x) (some_inj (sym (run-stopped 0 vm (Leaves-running vm f)) ∙ h))
        (vm, here, by_test f)
]
run-Ends (suc fuel) vm o h = elim (running-cases vm) [
  | inl c ↦
      Ends-step fuel vm (step vm) o c (step-Executes vm) (λ vm' h'. run-Ends fuel vm' o h')
        (sym (run-round fuel vm (Continues-running c)) ∙ h)
  | inr f ↦
      subst (λ x. Ends vm x) (some_inj (sym (run-stopped (suc fuel) vm (Leaves-running vm f)) ∙ h))
        (vm, here, by_test f)
]

unfoldable pub rounds_of : {vm last : VirtualMachine} → Rounds vm last → ℕ
rounds_of here = 0
rounds_of (next t e r) = suc (rounds_of r)

Stops-run :
    {vm : VirtualMachine} {o : Outcome} (fuel : ℕ) → Stops vm o → 1 ≤ fuel → run fuel vm ≡ some o
Stops-run {vm} fuel (by_test f) h = run-stopped fuel vm (Leaves-running vm f)
Stops-run zero (by_failure t e b) h = absurd (omega arith)
Stops-run {vm} {o} (suc fuel) (by_failure t e b) h =
    run-failure fuel vm o (Continues-running t) (Executes-step e) b

-- Where rounds from a state end with an outcome, one more unit of fuel than there are rounds is
-- enough for the loop to give it, and so is any more. A round starts where `pc` is below the length of
-- the text segment and no exit was asked for, and executes the word at `pc`; the rounds end where `pc`
-- is not below the length or an exit was asked for, or with a round that fails.
pub Ends-run :
    {vm last : VirtualMachine} {o : Outcome} (fuel : ℕ) (rounds : Rounds vm last)
    → Stops last o
    → rounds_of rounds < fuel
    → run fuel vm ≡ some o
unfolding rounds_of
Ends-run fuel here stops h = Stops-run fuel stops (omega arith)
Ends-run zero (next t e r) stops h = absurd (omega arith)
Ends-run {vm} (suc fuel) (next t e r) stops h =
    run-round fuel vm (Continues-running t)
    ∙ rw (Executes-step e) (Ends-run fuel r stops (omega arith))
