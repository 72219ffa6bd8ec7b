-- ===== src/Vm/Syscall.antt =====
-- src/virtualMachine.cpp, `systemCall`.
use kasm.Base.{
  ℕ, zero, suc, ◌+◌, ◌-◌, ◌%◌, ◌^◌, Bool, true, false, Option, none, some, List, [], ◌∷◌, String,
  ltb, leb, ◌==◌, if◌then◌else◌, maybe, bind, get_elem?, add32,
}
use kasm.Common.{v0, a0, a1, a2}
use kasm.Vm.Memory.{Program, set_char, get_c_string}
use kasm.Vm.Console
use kasm.Vm.Console.{Console, Output}
use kasm.Vm.State.{VirtualMachine, Outcome, given, set_register, OpenMode, SeekDir, File}

pub data Syscall : Type 0 where
  exit read_int write_int read_char write_char read_string write_string : Syscall
  allocate deallocate open_file close_file seek : Syscall

abbrev pub syscalls : List Syscall
syscalls =
    exit ∷ read_int ∷ write_int ∷ read_char ∷ write_char ∷ read_string ∷ write_string ∷ allocate
    ∷ deallocate ∷ open_file ∷ close_file ∷ seek ∷ []

unfoldable pub decode_syscall : ℕ → Option Syscall
decode_syscall n = get_elem? syscalls n

unfoldable pub with_console : VirtualMachine → Console → VirtualMachine
with_console vm c = record vm { console = c }

-- `char` is signed: a byte from 0x80 on becomes a word with the upper bits set.
unfoldable pub word_of_char : ℕ → ℕ
word_of_char c = if ltb c 0x80 then c else c + 0xFFFFFF00

-- READ_CHAR with no byte to read copies an uninitialised `char`.
abbrev pub got_char : List ℕ × Console → VirtualMachine → Outcome
got_char ([], c) vm = Outcome.undefined
got_char (b ∷ _, c) vm =
    Outcome.ok (with_console (set_register a0 (word_of_char b) vm) (Console.ignore_line c))

-- The loop of READ_STRING, with `left` for `registers[A1] - 1 - i` and `address` for
-- `registers[A0] + i`. A byte is taken from the input before the count is tested.
unfoldable pub read_string_loop : ℕ → ℕ → Program → Console → Option (Program × Console)
read_string_loop zero address p c =
    let (_, c') = Console.get c in bind (set_char p address 0) λ q. some (q, c')
read_string_loop (suc left) address p c =
    let (b, c') = Console.get c in
    let rest = λ (q : Program). read_string_loop left (add32 address 1) q c' in
    if b == 10
    then bind (set_char p address 0) (λ q. some (q, c'))
    else bind (set_char p address b) rest

unfoldable pub read_string_call : VirtualMachine → Outcome
read_string_call vm =
    if ltb (vm.registers a1) 1
    then Outcome.ok vm
    else given (read_string_loop (vm.registers a1 - 1) (vm.registers a0) vm.program vm.console)
        λ (q, c). Outcome.ok (record vm { program = q; console = c })

unfoldable pub new_block : VirtualMachine → Outcome
new_block vm =
    let h = vm.heap in
    let asked = record h { taken = h.taken + 1 } in
    maybe (h.address h.taken) (Outcome.bad_alloc (record vm { heap = asked })) (λ p.
      Outcome.ok
        (record (set_register v0 (p % 2 ^ 32) vm) { heap = record asked { live = p ∷ h.live } }))

unfoldable pub contains : ℕ → List ℕ → Bool
contains a [] = false
contains a (b ∷ bs) = if b == a then true else contains a bs

unfoldable pub without : ℕ → List ℕ → List ℕ
without a [] = []
without a (b ∷ bs) = let rest = without a bs in if b == a then rest else b ∷ rest

-- `delete[]` of the 32 bits of a register: nothing at null, and undefined where no live block
-- stands at exactly that address.
unfoldable pub delete_block : VirtualMachine → Outcome
delete_block vm =
    let p = vm.registers a0 in
    let h = vm.heap in
    if p == 0
    then Outcome.ok vm
    else if contains p h.live
    then Outcome.ok (record vm { heap = record h { live = without p h.live } })
    else Outcome.undefined

unfoldable pub open_mode : ℕ → Option OpenMode
open_mode n =
    if n == 1
    then some OpenMode.input
    else if n == 2
    then some OpenMode.output
    else if n == 3
    then some OpenMode.both
    else none

unfoldable pub seek_dir : ℕ → Option SeekDir
seek_dir n =
    if n == 0
    then some SeekDir.from_begin
    else if n == 1
    then some SeekDir.from_end
    else if n == 2
    then some SeekDir.from_current
    else none

unfoldable pub find_file : ℕ → List (ℕ × File) → Option File
find_file i [] = none
find_file i ((j, f) ∷ fs) = if j == i then some f else find_file i fs

unfoldable pub erase_file : ℕ → List (ℕ × File) → List (ℕ × File)
erase_file i [] = []
erase_file i ((j, f) ∷ fs) = let rest = erase_file i fs in if j == i then rest else (j, f) ∷ rest

-- `files.insert` keeps an entry that is there.
abbrev pub insert_file : ℕ → File → List (ℕ × File) → List (ℕ × File)
insert_file i f fs = elim (find_file i fs) [ none ↦ (i, f) ∷ fs | some _ ↦ fs ]

unfoldable pub open_as : VirtualMachine → OpenMode → Outcome
open_as vm m = given (get_c_string vm.program (vm.registers a0)) λ name.
    let f : File = record { name = name; mode = m; seeks = [] } in
    Outcome.ok (record (set_register v0 vm.file_id vm) {
      files = insert_file vm.file_id f vm.files;
      file_id = add32 vm.file_id 1;
    })

unfoldable pub open_call : VirtualMachine → Outcome
open_call vm =
    maybe (open_mode (vm.registers a2)) (Outcome.error "Invalid open mode" vm) (open_as vm)

unfoldable pub close_call : VirtualMachine → Outcome
close_call vm =
    maybe (find_file (vm.registers a0) vm.files) (Outcome.out_of_range vm)
      λ _. Outcome.ok (record vm { files = erase_file (vm.registers a0) vm.files })

abbrev pub note_seek : ℕ → ℕ × SeekDir → List (ℕ × File) → List (ℕ × File)
note_seek i s [] = []
note_seek i s ((j, f) ∷ fs) =
    (j, if j == i then record f { seeks = s ∷ f.seeks } else f) ∷ note_seek i s fs

unfoldable pub seek_from : VirtualMachine → SeekDir → Outcome
seek_from vm d =
    Outcome.ok (record vm { files = note_seek (vm.registers a0) (vm.registers a1, d) vm.files })

unfoldable pub seek_call : VirtualMachine → Outcome
seek_call vm =
    maybe (find_file (vm.registers a0) vm.files) (Outcome.out_of_range vm)
      λ _. maybe (seek_dir (vm.registers a2)) (Outcome.error "Invalid seek mode" vm) (seek_from vm)

-- The `default` case adds the number to a pointer to a literal of 21 characters, and so throws a
-- tail of it, or reads past its end.
abbrev pub text_from : ℕ → String → String
text_from zero s = s
text_from (suc n) String.[] = String.[]
text_from (suc n) (String.◌∷◌ c s) = text_from n s

unfoldable pub illegal_call : ℕ → VirtualMachine → Outcome
illegal_call n vm =
    if leb n 21 then Outcome.error (text_from n "Illegal system call: ") vm else Outcome.undefined

-- One service.
unfoldable pub serve : Syscall → VirtualMachine → Outcome
serve exit vm = Outcome.ok (record vm { should_exit = true; exit_code = vm.registers a0 })
serve read_int vm =
    let (x, c) = Console.read_int (vm.registers a0) vm.console in
    Outcome.ok (with_console (set_register a0 x vm) c)
serve write_int vm =
    Outcome.ok (with_console vm (Console.print (Output.number (vm.registers a0)) vm.console))
serve read_char vm = got_char (Console.read_char vm.console) vm
serve write_char vm =
    Outcome.ok (with_console vm (Console.print (Output.char (vm.registers a0 % 2 ^ 8)) vm.console))
serve read_string vm = read_string_call vm
serve write_string vm =
    given (get_c_string vm.program (vm.registers a0))
      λ s. Outcome.ok (with_console vm (Console.print (Output.text s) vm.console))
serve allocate vm = new_block vm
serve deallocate vm = delete_block vm
serve open_file vm = open_call vm
serve close_file vm = close_call vm
serve seek vm = seek_call vm

-- `systemCall`: the number of the service stands in `$v0`.
unfoldable pub system_call : VirtualMachine → Outcome
system_call vm =
    maybe (decode_syscall (vm.registers v0)) (illegal_call (vm.registers v0) vm) (λ s. serve s vm)
