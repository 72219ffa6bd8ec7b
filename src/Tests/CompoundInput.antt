-- ===== src/Tests/CompoundInput.antt =====
-- The input stream's theorems on a short file, and runs of it.
use kasm.Assembler.{lookup, insert}
use kasm.Base.{
  add32, sym, ◌∙◌, ℕ, ◌≡◌, ◌≢◌, refl, true, false, Option, none, some, List, [], ◌∷◌, String,
  str_eq, if◌then◌else◌, arith,
}
use kasm.CompoundInput.{
  CompoundInputFileStream, Result, ok, err, undefined, ◌>>=◌, get, tellg, seekg, eof, enter, stand,
  skip_ended, at_entry, ended, tell_in, call_back, seek_in, find_entry,
}
use kasm.CompoundInput.Push.{
  open_file, push_entry, new_entry, include, reset, push_by, with_file, push_first, push_on,
  push_inside, push_before,
}
use kasm.CompoundInput.Remaining.{remaining, On}
use kasm.CompoundInput.Reading.{Settled, on_entry, Taken, get-Taken}
use kasm.CompoundInput.Entry.{Ready, push_entry-past_end}
use kasm.CompoundInput.Strings.{Unclaimed, PushesString, push_string-PushesString}
use kasm.CompoundInput.Callbacks.{all_calls, eof-all_calls}
use kasm.CompoundInput.Seeking.{Restores, seekg-tellg}

abbrev pub codes : String → List ℕ
codes k = if str_eq k "xy" then 120 ∷ 121 ∷ [] else []

abbrev disk : String → Option (List ℕ)
disk k = if str_eq k "main" then some (97 ∷ 98 ∷ 99 ∷ []) else none

abbrev empty : CompoundInputFileStream
empty = record {
  files = [];
  before = [];
  after = [];
  in_stream = none;
  position = 0;
  identifier = "";
  uid = 0;
  eof_callback = true;
  calls = [];
}

-- "main" with its first byte read.
abbrev pub at_b : CompoundInputFileStream
at_b = record {
  files = ("main", 97 ∷ 98 ∷ 99 ∷ []) ∷ [];
  before = [];
  after = new_entry (97 ∷ 98 ∷ 99 ∷ []) 0 0 ∷ [];
  in_stream = some (97 ∷ 98 ∷ 99 ∷ []);
  position = 1;
  identifier = "main";
  uid = 0;
  eof_callback = true;
  calls = [];
}

abbrev both_steps : Result (ℕ × CompoundInputFileStream) → Result CompoundInputFileStream
both_steps (ok (_, s)) = ok ((get s).1)
both_steps (err e) = err e

opened_and_read : both_steps (open_file disk "main" false empty) ≡ ok at_b
unfolding open_file include reset push_by get lookup with_file push_first enter stand skip_ended
    at_entry ended tell_in insert push_entry push_on push_inside push_before call_back eof add32
opened_and_read = refl

at_b-left : remaining at_b ≡ 98 ∷ 99 ∷ []
unfolding remaining
at_b-left = refl

cons-ne-nil : {x : ℕ} {xs : List ℕ} → (x ∷ xs) ≡ [] → ⊥
cons-ne-nil h = cc

at_b-some : remaining at_b ≢ []
at_b-some h = absurd (cons-ne-nil (sym at_b-left ∙ h))

at_b-On : On (new_entry (97 ∷ 98 ∷ 99 ∷ []) 0 0) at_b
at_b-On = record { text = 97 ∷ 98 ∷ 99 ∷ []; has_text = refl; in_text = refl; placed = omega arith }

pub at_b-Settled : Settled at_b
at_b-Settled = on_entry refl at_b-On

at_b-Ready : Ready at_b
at_b-Ready = record { settled = at_b-Settled; whole = (omega arith, tt) }

at_b-Unclaimed : Unclaimed codes "xy" at_b
unfolding lookup
at_b-Unclaimed t h = cc

push_string-PushesString_example : PushesString codes "xy" true at_b
push_string-PushesString_example =
    push_string-PushesString codes "xy" true at_b at_b-Ready at_b-some at_b-Unclaimed

get-Taken_example : Taken (remaining at_b) (get at_b)
get-Taken_example = get-Taken at_b at_b-Settled

eof-all_calls_example : all_calls (eof false at_b).1 ≡ all_calls at_b
eof-all_calls_example = eof-all_calls false at_b refl

-- "z" pushed at "b", numbered.
abbrev with_z : CompoundInputFileStream
with_z = record at_b {
  before = record (new_entry (97 ∷ 98 ∷ 99 ∷ []) 0 0) { end = 1 } ∷ [];
  after =
      new_entry (122 ∷ []) 1 1
      ∷ record { file = some (97 ∷ 98 ∷ 99 ∷ []); start = 2; end = 4; offset = 1; uid = 0 }
      ∷ [];
  in_stream = some (122 ∷ []);
  position = 0;
  uid = 1;
}

pushed_z : push_entry (122 ∷ []) true at_b ≡ ok (1, with_z)
unfolding push_by get lookup with_file push_first enter stand skip_ended at_entry ended tell_in
    insert push_entry push_on push_inside push_before call_back eof add32
pushed_z = refl

seekg-tellg_example : Restores 2 at_b
seekg-tellg_example = seekg-tellg 2 at_b at_b-Settled at_b-some (omega arith, omega arith, tt)

-- Everything read, and `eof` has said so.
abbrev at_end : CompoundInputFileStream
at_end = record at_b {
  before = new_entry (97 ∷ 98 ∷ 99 ∷ []) 0 0 ∷ [];
  after = [];
  in_stream = none;
  position = 3;
}

push_entry-past_end_example : push_entry (122 ∷ []) true at_end ≡ err undefined
push_entry-past_end_example = push_entry-past_end (122 ∷ []) true at_end refl refl refl

-- A numbered text is pushed where the one before it has ended: its entry starts at place 0 again, and
-- `seekg` to where `tellg` says it is goes to the file, to "a".
abbrev after_z : CompoundInputFileStream
after_z = (get with_z).1

abbrev twice : Result (Option ℕ)
twice = push_entry (119 ∷ []) true after_z >>= λ x.
    let (p, s) = tellg x.1 in seekg p s >>= λ s'. ok ((get s').0)

seekg_after_stub : twice ≡ ok (some 97)
unfolding push_by seekg seek_in find_entry tellg get lookup with_file push_first enter stand
    skip_ended at_entry ended tell_in insert push_entry push_on push_inside push_before call_back
    eof add32
seekg_after_stub = refl
