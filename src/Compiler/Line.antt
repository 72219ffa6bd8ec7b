-- ===== src/Compiler/Line.antt =====
-- src/compiler_util.cpp, `writeLine`: the lines of the assembly file, as what they say of the numbered
-- labels, and their text.
pub mod Reads
use Prim.Native.String.{◌++◌ as str_append}
use kasm.Base.{ℕ, zero, suc, ◌/◌, ◌%◌, List, [], ◌∷◌, ltb, if◌then◌else◌, get_or, String}

abbrev digits : List String
digits = "0" ∷ "1" ∷ "2" ∷ "3" ∷ "4" ∷ "5" ∷ "6" ∷ "7" ∷ "8" ∷ "9" ∷ []

unfoldable pub decimal : ℕ → ℕ → String
decimal zero n = ""
decimal (suc k) n =
    let front = decimal k (n / 10) in
    if ltb n 10 then get_or digits n "" else str_append front (get_or digits (n % 10) "")

-- `std::to_string` of a `std::uint32_t`, which has at most ten digits.
unfoldable pub to_string : ℕ → String
to_string n = decimal 10 n

-- `label n` is "_n:", `to_label s n` an instruction that ends in the name of the label, `text s` any
-- other line.
pub data Line : Type 0 where
  label : ℕ → Line
  to_label : String → ℕ → Line
  text : String → Line

unfoldable pub print_line : Line → String
print_line (Line.label n) = str_append "_" (str_append (to_string n) ":")
print_line (Line.to_label s n) = str_append s (str_append "_" (to_string n))
print_line (Line.text s) = s
