-- ===== src/Tests/Macros.antt =====
-- A macro call while the input stands at the second byte of a file.
use kasm.Base.{◌≡◌, refl, false, some, [], ◌∷◌, arith, add32}
use kasm.Assembler.{Assembler, lookup, insert}
use kasm.Assembler.Macros.{Reader, call_macro}
use kasm.Assembler.Macros.Popping.{InStep, Passes}
use kasm.Assembler.Macros.Calls.{stop, then_move, then_call, moved, reader_eof-after_Reads}
use kasm.CompoundInput.{ok, eof, enter, stand, skip_ended, at_entry, ended, tell_in, call_back}
use kasm.CompoundInput.Push.{
  new_entry, push_string, push_entry, push_by, with_file, push_first, push_on, push_inside,
  push_before,
}
use kasm.CompoundInput.Callbacks.{pending}
use kasm.Tests.CompoundInput.{codes, at_b, at_b-Settled}

-- `.macro letters() xy .end` is defined.
abbrev defined : Assembler
defined = record {
  macros = [];
  macro_functions = ("letters", record { paramaters = []; body = "xy" }) ∷ [];
  binary = record {
    cursor = 0;
    text_segment = record { chars = []; put = 0 };
    data_segment = record { chars = []; put = 0 };
  };
  label_locations = [];
  unresolved_address_locations = [];
}

abbrev before_call : Reader
before_call = record { stream = at_b; macro_call_stack = [] }

abbrev in_macro : Reader
in_macro = record {
  stream = record at_b {
    files = ("main", 97 ∷ 98 ∷ 99 ∷ []) ∷ ("xy", 120 ∷ 121 ∷ []) ∷ [];
    before = record (new_entry (97 ∷ 98 ∷ 99 ∷ []) 0 0) { end = 1 } ∷ [];
    after =
        new_entry (120 ∷ 121 ∷ []) 1 1
        ∷ record { file = some (97 ∷ 98 ∷ 99 ∷ []); start = 3; end = 5; offset = 1; uid = 0 }
        ∷ [];
    in_stream = some (120 ∷ 121 ∷ []);
    position = 0;
    uid = 1;
  };
  macro_call_stack = record { uid = 1; paramaters = []; arguments = [] } ∷ [];
}

letters_called : call_macro codes "letters" [] defined before_call ≡ ok (in_macro, defined)
unfolding call_macro push_string push_by lookup with_file push_first enter stand skip_ended at_entry
    ended tell_in insert push_entry push_on push_inside push_before call_back eof add32
letters_called = refl

before_call-InStep : InStep before_call
unfolding pending
before_call-InStep = record { listens = refl; same_numbers = refl }

-- With the two bytes of the macro read, `eof` calls back.
reader_eof-after_Reads_example : Passes false (moved 2 in_macro)
reader_eof-after_Reads_example =
    reader_eof-after_Reads codes before_call (moved 2 in_macro) false before_call-InStep (
      then_move 2
        (then_call "letters" [] defined defined stop at_b-Settled (omega arith) letters_called))
