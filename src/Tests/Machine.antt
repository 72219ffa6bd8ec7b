-- ===== src/Tests/Machine.antt =====
-- A small machine: a program of three instructions that exits with 7.
use kasm.Base.{
  ℕ, zero, suc, ◌+◌, ◌*◌, ◌^◌, ◌<◌, ◌≡◌, refl, true, false, none, some, List, [], ◌∷◌, arith,
  get_or, ltb, if◌then◌else◌,
}
use kasm.Vm.Memory.{Program, load, header_over, read_word}
use kasm.Vm.Console.{Console}
use kasm.Vm.State.{VirtualMachine, HostHeap}
use kasm.Vm.Memory.HasBytes.{HasBytes}

-- `ori $v0, $zero, 0`, `ori $a0, $zero, 7`, `sys`, then a word of data.
abbrev pub exit_file : List ℕ
exit_file =
    16 ∷ 0 ∷ 0 ∷ 0 ∷ 12 ∷ 0 ∷ 0 ∷ 0 ∷ 28 ∷ 0 ∷ 0 ∷ 0 ∷ 4 ∷ 0 ∷ 0 ∷ 0 ∷ 0 ∷ 0 ∷ 64 ∷ 108 ∷ 7 ∷ 0
    ∷ 128 ∷ 108 ∷ 0 ∷ 0 ∷ 0 ∷ 172 ∷ 5 ∷ 6 ∷ 7 ∷ 8 ∷ []

abbrev pub blank : Program
blank = record {
  header = record {
    text_segment_begin = 0;
    text_segment_length = 0;
    data_segment_begin = 0;
    data_segment_length = 0;
  };
  size = 0;
  image = λ _. 0;
  stack = λ _. 0;
  global = λ _. 0;
}

abbrev pub image_list : List ℕ
image_list = 0 ∷ 0 ∷ 64 ∷ 108 ∷ 7 ∷ 0 ∷ 128 ∷ 108 ∷ 0 ∷ 0 ∷ 0 ∷ 172 ∷ 5 ∷ 6 ∷ 7 ∷ 8 ∷ []

abbrev pub exit_program : Program
exit_program = record {
  header = record {
    text_segment_begin = 16;
    text_segment_length = 12;
    data_segment_begin = 28;
    data_segment_length = 4;
  };
  size = 16;
  image = λ i. get_or image_list i (if ltb i 0 then 0 else 0);
  stack = λ _. 0;
  global = λ _. 0;
}

load_exit : (load blank exit_file).header ≡ exit_program.header
unfolding load header_over read_word
load_exit = refl

abbrev pub heap0 : HostHeap
heap0 = record { address = λ n. some (4096 + n * 16); taken = 0; live = [] }

abbrev pub console0 : Console
console0 = record { input = []; good = true; output = [] }

abbrev pub machine : VirtualMachine
machine = record {
  pc = 0;
  hi = 0;
  lo = 0;
  should_exit = false;
  exit_code = 0;
  program = exit_program;
  registers = λ _. 0;
  signal_handlers = λ _. none;
  handler_calls = [];
  files = [];
  file_id = 1;
  console = console0;
  heap = heap0;
}

abbrev ByteList : List ℕ → Type 0
ByteList [] = Unit
ByteList (b ∷ bs) = b < 2 ^ 8 × ByteList bs

get_or-bytes : (bs : List ℕ) (d : ℕ) → ByteList bs → d < 2 ^ 8 → (i : ℕ) → get_or bs i d < 2 ^ 8
get_or-bytes [] d h hd i = hd
get_or-bytes (b ∷ bs) d h hd zero = h.0
get_or-bytes (b ∷ bs) d h hd (suc i) = get_or-bytes bs d h.1 hd i

pub exit_program-HasBytes : HasBytes exit_program
exit_program-HasBytes = record {
  image_bytes =
      λ i. get_or-bytes image_list (if ltb i 0 then 0 else 0) (ground arith) (ground arith) i;
  stack_bytes = λ i. omega arith;
  global_bytes = λ i. omega arith;
}
