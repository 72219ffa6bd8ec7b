-- ===== src/Vm/Console.antt =====
-- The streams `std::cin` and `std::cout` as src/virtualMachine.cpp uses them. Input is the list of
-- bytes that are still to be read and `good`, which is false once `eofbit` or `failbit` is set (the
-- code never clears them); output is the list of what was printed, the last first.
use kasm.Base.{
  ℕ, ◌+◌, ◌-◌, ◌*◌, ◌%◌, ◌^◌, Bool, true, false, ◌&&◌, ◌||◌, List, [], ◌∷◌, ltb, leb, ◌==◌,
  if◌then◌else◌,
}

pub data Output : Type 0 where
  number : ℕ → Output
  char : ℕ → Output
  text : List ℕ → Output

pub record Console : Type 0 where
  pub input : List ℕ
  pub good : Bool
  pub output : List Output

unfoldable pub print : Output → Console → Console
print o c = record c { output = o ∷ c.output }

unfoldable pub is_space : ℕ → Bool
is_space b = (leb 9 b && leb b 13) || b == 32

unfoldable pub is_digit : ℕ → Bool
is_digit b = leb b'0' b && leb b b'9'

unfoldable pub skip_space : List ℕ → List ℕ
unfolding is_space
skip_space [] = []
skip_space (b ∷ bs) = if is_space b then skip_space bs else b ∷ bs

-- The value of the digits in front, whether there is one, and what follows them.
unfoldable pub take_digits : ℕ → Bool → List ℕ → ℕ × Bool × List ℕ
unfolding is_digit
take_digits v any [] = (v, any, [])
take_digits v any (b ∷ bs) =
    let rest = take_digits (v * 10 + (b - b'0')) true bs in
    if is_digit b then rest else (v, any, b ∷ bs)

abbrev ends : List ℕ → Bool
ends [] = true
ends (_ ∷ _) = false

-- `std::cin >> x` at `std::uint32_t x`, once white space is skipped and a byte is there: too large
-- a number gives the largest one and fails, no digit gives 0 and fails.
unfoldable pub extract_number : Bool → List ℕ → Console → ℕ × Console
unfolding take_digits
extract_number negative bs c =
    let (v, any, rest) = take_digits 0 false bs in
    if any
    then if ltb v (2 ^ 32)
      then (
        if negative then (2 ^ 32 - v) % 2 ^ 32 else v,
        record c { input = rest; good = if ends rest then false else true },
      )
      else (2 ^ 32 - 1, record c { input = rest; good = false })
    else (0, record c { input = rest; good = false })

unfoldable pub extract_signed : ℕ → List ℕ → Console → ℕ × Console
unfolding extract_number
extract_signed x [] c = (x, record c { input = []; good = false })
extract_signed x (b ∷ bs) c =
    if b == b'-'
    then extract_number true bs c
    else if b == b'+'
    then extract_number false bs c
    else extract_number false (b ∷ bs) c

-- `std::cin >> x`: the new value of `x`, which is the old one where nothing could be read.
unfoldable pub read_int : ℕ → Console → ℕ × Console
unfolding extract_signed skip_space
read_int x c = if c.good then extract_signed x (skip_space c.input) c else (x, c)

-- `std::cin >> c` at `char c`: the byte, if there was one.
abbrev pub extract_char : List ℕ → Console → List ℕ × Console
extract_char [] c = ([], record c { input = []; good = false })
extract_char (b ∷ bs) c = (b ∷ [], record c { input = bs })

unfoldable pub read_char : Console → List ℕ × Console
unfolding skip_space
read_char c = if c.good then extract_char (skip_space c.input) c else ([], c)

-- `std::cin.ignore(max, '\n')`: up to and with the next newline.
unfoldable pub after_line : List ℕ → List ℕ
after_line [] = []
after_line (b ∷ bs) = if b == 10 then bs else after_line bs

unfoldable pub has_newline : List ℕ → Bool
has_newline [] = false
has_newline (b ∷ bs) = b == 10 || has_newline bs

unfoldable pub ignore_line : Console → Console
unfolding after_line has_newline
ignore_line c =
    if c.good then record c { input = after_line c.input; good = has_newline c.input } else c

-- `std::cin.get()` converted to `char`: the end of the input reads as the byte 0xFF.
abbrev pub get_from : List ℕ → Console → ℕ × Console
get_from [] c = (0xFF, record c { good = false })
get_from (b ∷ bs) c = (b, record c { input = bs })

unfoldable pub get : Console → ℕ × Console
get c = if c.good then get_from c.input c else (0xFF, c)
