-- ===== src/Tests/Builder.antt =====
-- The builder's theorems at two small segments.
use kasm.Base.{◌+◌, ◌-◌, ◌≡◌, refl, some, [], ◌∷◌, ◌++◌, arith, length, replicate}
use kasm.Common.{data_segment_offset}
use kasm.Vm.Memory.{load, get_char}
use kasm.Builder.{BinaryBuilder, set_location, close}
use kasm.Builder.Location.{AtData, set_location-AtData, at_end, set_location-text_beyond}
use kasm.Builder.Image.{Fits, get_char-load_text, get_char-load_data}
use kasm.Tests.Machine.{exit_program}

-- Two words of text and three bytes of data, the cursor behind the data.
abbrev builder : BinaryBuilder
builder = record {
  cursor = data_segment_offset + 3;
  text_segment = record { chars = 1 ∷ 2 ∷ 3 ∷ 4 ∷ 5 ∷ 6 ∷ 7 ∷ 8 ∷ []; put = 8 };
  data_segment = record { chars = 9 ∷ 8 ∷ 7 ∷ []; put = 3 };
}

builder-Fits : Fits builder
builder-Fits = record { text_fits = omega arith; data_fits = omega arith }

get_char-load_text_example : get_char (load exit_program (close builder)) 5 ≡ some 6
get_char-load_text_example = get_char-load_text exit_program builder 5 builder-Fits (omega arith)

get_char-load_data_example :
    get_char (load exit_program (close builder)) (data_segment_offset + 1) ≡ some 8
get_char-load_data_example = get_char-load_data exit_program builder 1 builder-Fits (omega arith)

set_location-AtData_example :
    AtData (data_segment_offset + 6) builder (set_location (data_segment_offset + 6) builder)
set_location-AtData_example =
    set_location-AtData (data_segment_offset + 6) builder (omega arith) (omega arith)

set_location-text_beyond_example :
    ((set_location 12 builder).cursor ≡ 12)
    × ((set_location 12 builder).text_segment ≡ at_end (1 ∷ 2 ∷ 3 ∷ 4 ∷ 5 ∷ 6 ∷ 7 ∷ 8 ∷ []))
    × ((set_location 12 builder).data_segment.chars
        ≡ (9 ∷ 8 ∷ 7 ∷ []) ++ replicate (12 - length builder.text_segment.chars) 0)
set_location-text_beyond_example =
    set_location-text_beyond 12 builder (omega arith) (omega arith) refl
