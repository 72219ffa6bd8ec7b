-- ===== src/Base/Words.antt =====
-- `std::uint32_t` and the 16-bit fields as native numbers: wrap-around is written out.
use Prim.Native.Nat.{ℕ, ◌+◌, ◌-◌, ◌%◌, ◌^◌, ◌≤◌, ◌<◌}
use mathlib.Core.Path.{◌≡◌}
use mathlib.Core.Bool.{Bool, ◌&&◌, ◌||◌}
use native.Mathlib.Omega.{arith}
use kasm.Base.Tests.{ltb, leb, if◌then◌else◌}

abbrev pub word_mod : ℕ
word_mod = 2 ^ 32

-- A value of `std::uint32_t`.
abbrev pub IsWord : ℕ → Type 0
IsWord w = w < 2 ^ 32

unfoldable pub add32 : ℕ → ℕ → ℕ
add32 a b = (a + b) % 2 ^ 32

-- `-` on ℕ stops at 0, so the modulus is added first; `b` is a word.
unfoldable pub sub32 : ℕ → ℕ → ℕ
sub32 a b = (a + 2 ^ 32 - b) % 2 ^ 32

unfoldable pub not32 : ℕ → ℕ
not32 a = 2 ^ 32 - 1 - a

-- A 16-bit pattern read as a signed number and converted to 32 bits.
unfoldable pub sign_extend : ℕ → ℕ
sign_extend v = if ltb v 0x8000 then v else v + 0xFFFF0000

-- Whether the sum of two words, read as `std::int32_t`, is out of range.
unfoldable pub add_overflows : ℕ → ℕ → Bool
unfolding add32
add_overflows a b =
    (ltb a (2 ^ 31) && ltb b (2 ^ 31) && leb (2 ^ 31) (add32 a b))
    || (leb (2 ^ 31) a && leb (2 ^ 31) b && ltb (add32 a b) (2 ^ 31))

pub add32-lt : (a b : ℕ) → add32 a b < 2 ^ 32
unfolding add32
add32-lt a b = omega arith

pub sub32-lt : (a b : ℕ) → sub32 a b < 2 ^ 32
unfolding sub32
sub32-lt a b = omega arith

-- A 16-bit offset that reaches from `p` to `t` leads back to `t` when it is added to `p`.
pub sign_extend-sub32 :
    (t p : ℕ)
    → t < 2 ^ 32
    → p < 2 ^ 32
    → p ≤ t + 0x8000
    → t < p + 0x8000
    → add32 (sign_extend (sub32 t p % 2 ^ 16)) p ≡ t
unfolding add32 sign_extend sub32
sign_extend-sub32 t p ht hp lo hi = ground arith
