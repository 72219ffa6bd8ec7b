-- ===== src/CommandLine/Status.antt =====
-- src/kasm.cpp, `main`: which exit status means what.
use mathlib.Core.Path.{subst}
use kasm.Base.{
  ℕ, ◌-◌, ◌^◌, ◌<◌, ◌≡◌, ◌≢◌, refl, ap, Option, some, ◌⊎◌, inl, inr, List, [], ◌∷◌, String, str_eq,
  str_eq_iff, true, false, length, arith, ◌∙◌, Bool-cases, maybe,
}
use kasm.Vm.Memory.{load}
use kasm.Vm.State.{VirtualMachine, Outcome, reset}
use kasm.Vm.Run.{run, execute_program}
use kasm.Vm.Run.Reach.{Rounds, Stops, Ends-run, rounds_of}
use kasm.CommandLine.{
  LibraryException, Ending, Tools, Exit, Choice, choose, leave, main, ending_of, execute_file,
  one_path, two_paths, without_status,
}

-- Arguments that ask for nothing: no subcommand, an unknown one, or too few paths after it.
pub data Misused : List String → Type 0 where
  no_program : Misused []
  no_subcommand : (p : String) → Misused (p ∷ [])
  unknown :
      {p s : String} {rest : List String}
      → s ≢ "asm"
      → s ≢ "dsm"
      → s ≢ "vm"
      → Misused (p ∷ s ∷ rest)
  no_two_paths :
      {p s : String} {rest : List String}
      → (s ≡ "asm") ⊎ (s ≡ "dsm")
      → length rest < 2
      → Misused (p ∷ s ∷ rest)
  no_path : {p s : String} → s ≡ "vm" → Misused (p ∷ s ∷ [])

-- The part that the arguments ask for, and how its call ends; the assembler and the disassembler give
-- no value.
pub data Calls (t : Tools) : List String → Ending → Type 0 where
  assembles :
      {p s a b : String} {more : List String}
      → s ≡ "asm"
      → Calls t (p ∷ s ∷ a ∷ b ∷ more) (without_status (t.assemble a b))
  disassembles :
      {p s a b : String} {more : List String}
      → s ≡ "dsm"
      → Calls t (p ∷ s ∷ a ∷ b ∷ more) (without_status (t.disassemble a b))
  executes :
      {p s a : String} {more : List String} → s ≡ "vm" → Calls t (p ∷ s ∷ a ∷ more) (t.execute a)

-- The call returned the status and nothing was printed, or it threw, the status is 0, and the text of
-- the exception was printed.
abbrev pub Reported : Ending → ℕ → List String → Type 0
Reported (Ending.returns c) code messages = (code ≡ c) × (messages ≡ [])
Reported (Ending.throws what) code messages = (code ≡ 0) × (messages ≡ what ∷ [])
Reported _ code messages = ⊥

-- -1 and one message for misuse, or what the call reported.
abbrev pub Explained : Tools → List String → ℕ → List String → Type 0
Explained t args code messages =
    (Misused args × (code ≡ 2 ^ 32 - 1) × ((m : String) × (messages ≡ m ∷ [])))
    ⊎ ((e : Ending) × Calls t args e × Reported e code messages)

abbrev Explains : Tools → List String → Exit → Type 0
Explains t args (Exit.exits code messages) = Explained t args code messages
Explains t args _ = Unit

leave-misuse :
    (t : Tools) (args : List String) (m : String)
    → Misused args
    → Explains t args (leave (Choice.misuse m))
unfolding leave
leave-misuse t args m h = inl (h, refl, (m, refl))

leave-call :
    (t : Tools) (args : List String) (e : Ending)
    → Calls t args e
    → Explains t args (leave (Choice.call e))
unfolding leave
leave-call t args (Ending.returns c) h = inr (Ending.returns c, h, (refl, refl))
leave-call t args (Ending.throws m) h = inr (Ending.throws m, h, (refl, refl))
leave-call t args (Ending.raises s) h = tt
leave-call t args Ending.undefined h = tt
leave-call t args Ending.out_of_fuel h = tt

leave-two_paths :
    (t : Tools) (p s m : String) (f : String → String → Ending) (rest : List String)
    → (s ≡ "asm") ⊎ (s ≡ "dsm")
    → ((a b : String) (more : List String)
        → Calls t (p ∷ s ∷ a ∷ b ∷ more) (without_status (f a b)))
    → Explains t (p ∷ s ∷ rest) (leave (two_paths m f rest))
leave-two_paths t p s m f [] which calls = leave-misuse t _ m (no_two_paths which (omega arith))
leave-two_paths t p s m f (a ∷ []) which calls =
    leave-misuse t _ m (no_two_paths which (omega arith))
leave-two_paths t p s m f (a ∷ b ∷ more) which calls = leave-call t _ _ (calls a b more)

leave-one_path :
    (t : Tools) (p s m : String) (rest : List String)
    → s ≡ "vm"
    → Explains t (p ∷ s ∷ rest) (leave (one_path m t.execute rest))
leave-one_path t p s m [] h = leave-misuse t _ m (no_path h)
leave-one_path t p s m (path ∷ more) h = leave-call t _ _ (executes h)

str_eq-yes : (a b : String) → str_eq a b ≡ true → a ≡ b
str_eq-yes a b h = (str_eq_iff a b).0 h

str_eq-no : (a b : String) → str_eq a b ≡ false → a ≢ b
str_eq-no a b h e = let same = (str_eq_iff a b).1 e in cc

leave-choose :
    (t : Tools) (p s : String) (rest : List String)
    → Explains t (p ∷ s ∷ rest) (leave (choose t s rest))
unfolding choose
leave-choose t p s rest = elim (Bool-cases (str_eq s "asm")) [
  | inl x ↦ rw x (
      leave-two_paths t p s _ t.assemble rest (inl (str_eq-yes s "asm" x))
        (λ a b more. assembles (str_eq-yes s "asm" x)))
  | inr x ↦ elim (Bool-cases (str_eq s "dsm")) [
    | inl y ↦
        rw (x, y)
          (leave-two_paths t p s _ t.disassemble rest (inr (str_eq-yes s "dsm" y))
            (λ a b more. disassembles (str_eq-yes s "dsm" y)))
    | inr y ↦ elim (Bool-cases (str_eq s "vm")) [
      | inl z ↦ rw (x, y, z) (leave-one_path t p s _ rest (str_eq-yes s "vm" z))
      | inr z ↦
          rw (x, y, z)
            (leave-misuse t _ _
              (unknown (str_eq-no s "asm" x) (str_eq-no s "dsm" y) (str_eq-no s "vm" z)))
    ]
  ]
]

main-Explains : (t : Tools) (args : List String) → Explains t args (main t args)
unfolding main
main-Explains t [] = leave-misuse t _ _ no_program
main-Explains t (p ∷ []) = leave-misuse t _ _ (no_subcommand p)
main-Explains t (p ∷ s ∷ rest) = leave-choose t p s rest

-- Where `main` exits with a status, whatever the arguments and however the parts end: the arguments are
-- misused, the status is -1, and one message was printed; or the part that they ask for was called, and it
-- returned, nothing was printed and the status is its value, 0 for the assembler and the disassembler;
-- or it threw an exception, whose text was printed, and the status is 0.
pub main-Explained :
    (t : Tools) (args : List String) (code : ℕ) (messages : List String)
    → main t args ≡ Exit.exits code messages
    → Explained t args code messages
main-Explained t args code messages h = subst (Explains t args) h (main-Explains t args)

-- The machine part, composed: where the path is that of a file that can be opened, rounds of the loop
-- from the reset machine with the file loaded end in a state, and the fuel is more than their number,
-- `main` with the subcommand vm and the path ends with the exit code of this state and prints nothing
-- on the error stream.
pub main-vm :
    (t : Tools) (fuel : ℕ) (what : LibraryException → String) (program path : String)
    (more : List String) (disk : String → Option (List ℕ)) (bytes : List ℕ)
    (vm last : VirtualMachine)
    (rounds : Rounds (reset (record vm { program = load vm.program bytes })) last)
    → disk path ≡ some bytes
    → Stops last (Outcome.ok last)
    → rounds_of rounds < fuel
    → main (record t { execute = execute_file fuel what disk vm }) (program ∷ "vm" ∷ path ∷ more)
      ≡ Exit.exits last.exit_code []
unfolding main choose leave execute_file execute_program ending_of
main-vm t fuel what program path more disk bytes vm last rounds found stops enough =
    let ends : Option Outcome → Ending = λ o. maybe o Ending.out_of_fuel (ending_of what) in
    ap
      (λ (f : Option (List ℕ)). leave (
        Choice.call (
          maybe f (Ending.throws "Failed to open executable")
            (λ b. ends (run fuel (reset (record vm { program = load vm.program b })))))))
      found
    ∙ ap (λ o. leave (Choice.call (ends o))) (Ends-run fuel rounds stops enough)
