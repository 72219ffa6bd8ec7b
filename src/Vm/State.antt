-- ===== src/Vm/State.antt =====
-- src/virtualMachine.hpp, class `VirtualMachine`: its state, and what a step can end in.
use kasm.Base.{
  ℕ, ◌+◌, Bool, true, false, Option, none, some, List, ◌∷◌, String, ◌==◌, if◌then◌else◌, maybe,
  add32,
}
use kasm.Common.{instruction_size, sp, gp, stack_offset, stack_size, global_offset}
use kasm.Vm.Memory.{Program}
use kasm.Vm.Console.{Console}

pub data Signal : Type 0 where
  segmentation_fault illegal_opcode watched_register_changed watched_memory_changed : Signal

unfoldable pub signal_eq : Signal → Signal → Bool
signal_eq Signal.segmentation_fault Signal.segmentation_fault = true
signal_eq Signal.illegal_opcode Signal.illegal_opcode = true
signal_eq Signal.watched_register_changed Signal.watched_register_changed = true
signal_eq Signal.watched_memory_changed Signal.watched_memory_changed = true
signal_eq _ _ = false

-- `std::ios_base::openmode` and `seekdir`, as the calls choose them.
pub data OpenMode : Type 0 where
  input output both : OpenMode

pub data SeekDir : Type 0 where
  from_begin from_end from_current : SeekDir

-- An open `std::fstream`: its name, its mode, and the calls of `seekg` and `seekp` on it.
pub record File : Type 0 where
  pub name : List ℕ
  pub mode : OpenMode
  pub seeks : List (ℕ × SeekDir)

abbrev pub Registers : Type 0
Registers = ℕ → ℕ

-- `new` and `delete[]` of the host: the address of the n-th block (of 64 bits), or that there is no
-- memory for it, how many were asked for, and the ones that are live.
pub record HostHeap : Type 0 where
  pub address : ℕ → Option ℕ
  pub taken : ℕ
  pub live : List ℕ

pub record VirtualMachine : Type 0 where
  pub pc : ℕ
  pub hi : ℕ
  pub lo : ℕ
  pub should_exit : Bool
  -- the bits of `int exitCode`
  pub exit_code : ℕ
  pub program : Program
  pub registers : Registers
  -- the handler that is set for a signal, by a number, and the handlers that were called
  pub signal_handlers : Signal → Option ℕ
  pub handler_calls : List ℕ
  pub files : List (ℕ × File)
  pub file_id : ℕ
  pub console : Console
  pub heap : HostHeap

-- How a member function ends: it returns, it throws a `Signal`, `std::runtime_error` or
-- `std::out_of_range` or `std::bad_alloc`, or C++ does not define what it does.
pub data Outcome : Type 0 where
  ok : VirtualMachine → Outcome
  signal : Signal → VirtualMachine → Outcome
  error : String → VirtualMachine → Outcome
  out_of_range : VirtualMachine → Outcome
  bad_alloc : VirtualMachine → Outcome
  undefined : Outcome

infixl 5 ◌>>=◌
abbrev pub ◌>>=◌ : Outcome → (VirtualMachine → Outcome) → Outcome
Outcome.ok vm >>= f = f vm
Outcome.signal s vm >>= f = Outcome.signal s vm
Outcome.error m vm >>= f = Outcome.error m vm
Outcome.out_of_range vm >>= f = Outcome.out_of_range vm
Outcome.bad_alloc vm >>= f = Outcome.bad_alloc vm
Outcome.undefined >>= f = Outcome.undefined

-- A value that C++ may leave undefined.
abbrev pub given {ℓ} : {A : Type ℓ} → Option A → (A → Outcome) → Outcome
given none f = Outcome.undefined
given (some a) f = f a

-- `registers[i] = v` by the `operator []` that is not `const`, the one that every call in the class
-- selects: register 0 is a register like the others.
unfoldable pub put : Registers → ℕ → ℕ → Registers
put r i v j = if j == i then v else r j

unfoldable pub set_register : ℕ → ℕ → VirtualMachine → VirtualMachine
unfolding put
set_register i v vm = record vm { registers = put vm.registers i v }

unfoldable pub advance_pc : VirtualMachine → VirtualMachine
unfolding add32
advance_pc vm = record vm { pc = add32 vm.pc instruction_size }

-- `reset`: memory, `hi`, `lo`, files and handlers stay.
unfoldable pub reset : VirtualMachine → VirtualMachine
unfolding put
reset vm = record vm {
  pc = 0;
  should_exit = false;
  exit_code = 0;
  registers = put (put (λ _. 0) sp (stack_offset + stack_size)) gp global_offset;
}

unfoldable pub set_signal_handler : Signal → ℕ → VirtualMachine → VirtualMachine
unfolding signal_eq
set_signal_handler s h vm = record vm {
  signal_handlers = λ t. if signal_eq t s then some h else vm.signal_handlers t;
}

-- `executeSignal`: a handler is called and returns, or the signal is thrown.
unfoldable pub execute_signal : Signal → VirtualMachine → Outcome
execute_signal s vm =
    maybe (vm.signal_handlers s) (Outcome.signal s vm)
      λ h. Outcome.ok (record vm { handler_calls = h ∷ vm.handler_calls })
