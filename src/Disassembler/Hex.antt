-- ===== src/Disassembler/Hex.antt =====
-- `std::hex`, `std::setw` and `std::setfill('0')`: numbers as hexadecimal digits.
use native.Mathlib.Nat.{pow-suc}
use kasm.Base.{
  ℕ, zero, suc, ◌+◌, ◌-◌, ◌*◌, ◌/◌, ◌%◌, ◌^◌, ◌<◌, ◌≡◌, refl, ◌∙◌, List, [], ◌∷◌, ◌++◌, arith, ltb,
  ◌==◌, if◌then◌else◌,
}

unfoldable pub digit : ℕ → ℕ
digit n = if ltb n 10 then b'0' + n else 87 + n

-- The last `k` digits of a number, the first one highest.
unfoldable pub padded_hex : ℕ → ℕ → List ℕ
padded_hex zero n = []
padded_hex (suc k) n = padded_hex k (n / 16) ++ digit (n % 16) ∷ []

unfoldable pub strip : List ℕ → List ℕ
strip [] = []
strip (c ∷ []) = c ∷ []
strip (c ∷ d ∷ s) = let rest = strip (d ∷ s) in if c == b'0' then rest else c ∷ d ∷ s

-- A 32-bit number without leading zeros.
unfoldable pub hex : ℕ → List ℕ
hex n = strip (padded_hex 8 n)

-- Reading digits back.
abbrev pub digit_value : ℕ → ℕ
digit_value c = if ltb c 58 then c - b'0' else c - 87

abbrev pub value_from : ℕ → List ℕ → ℕ
value_from v [] = v
value_from v (c ∷ s) = value_from (v * 16 + digit_value c) s

digit_value-digit : (n : ℕ) → n < 16 → digit_value (digit n) ≡ n
unfolding digit
digit_value-digit n h = ground arith

value_from-append :
    (v : ℕ) (s : List ℕ) (c : ℕ) → value_from v (s ++ c ∷ []) ≡ value_from v s * 16 + digit_value c
value_from-append v [] c = refl
value_from-append v (d ∷ s) c = value_from-append (v * 16 + digit_value d) s c

-- The digits of a number below 16 ^ k, read back, are the number.
pub value_from-padded_hex : (k n : ℕ) → n < 16 ^ k → value_from 0 (padded_hex k n) ≡ n
unfolding padded_hex
value_from-padded_hex zero n h = omega arith
value_from-padded_hex (suc k) n h =
    let rest = value_from-padded_hex k (n / 16) (omega (arith, pow-suc 16 k)) in
    value_from-append 0 (padded_hex k (n / 16)) (digit (n % 16))
    ∙ omega (arith, rest, digit_value-digit (n % 16) (omega arith))
