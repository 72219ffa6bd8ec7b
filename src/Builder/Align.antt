-- ===== src/Builder/Align.antt =====
-- src/binaryBuilder.cpp, `align` and `pad`.
use kasm.Base.{
  ℕ, ◌+◌, ◌-◌, ◌%◌, ◌^◌, ◌≤◌, ◌<◌, ◌≡◌, ◌⊎◌, inl, inr, refl, ap, ◌∙◌, sym, some, arith, ◌==◌,
  Bool-cases, ==_of_ne, eq_of_==, ne_of_==, ◌≢◌, add32,
}
use mathlib.Core.Path.{subst}
use native.Mathlib.Nat.{div-add-mod, mod-lt}
use kasm.Common.{data_segment_offset}
use kasm.Builder.{BinaryBuilder, align, pad, set_location, end}
use kasm.Builder.Location.{AtData, set_location-AtData}

-- The next multiple of `a` from `c` on.
round_up : (c a : ℕ) → 0 < a → (c + (a - c % a)) % a ≡ 0
round_up c a h = grind (arith, div-add-mod c a)

-- What `align` promises of a builder that it gives.
pub record Aligned (a : ℕ) (b r : BinaryBuilder) : Type 0 where
  pub multiple : r.cursor % a ≡ 0
  pub not_before : b.cursor ≤ r.cursor
  pub nearest : r.cursor < b.cursor + a
  pub moved : (r ≡ b) ⊎ AtData r.cursor b r

pad-Aligned :
    (a : ℕ) (b : BinaryBuilder)
    → 0 < a
    → data_segment_offset ≤ b.cursor
    → b.cursor + a < end
    → b.cursor % a ≢ 0
    → Aligned a b (pad (a - b.cursor % a) b)
unfolding pad add32
pad-Aligned a b pos above below rest =
    let c = b.cursor in
    let remainder = mod-lt c pos in
    let next : (c + (a - c % a)) % 2 ^ 32 ≡ c + (a - c % a) = omega (arith, remainder) in
    let at = set_location-AtData (c + (a - c % a)) b (omega arith) (omega (arith, remainder)) in
    rw next (record {
      multiple = ap (λ k. k % a) at.cursor_at ∙ round_up c a pos;
      not_before = omega (arith, at.cursor_at);
      nearest = omega (arith, at.cursor_at, remainder);
      moved =
          inr (subst (λ l. AtData l b (set_location (c + (a - c % a)) b)) (sym at.cursor_at) at);
    })

-- With the cursor in the data segment and below 0xFFFFFFFF less the alignment, `align` by a positive
-- number returns, with the cursor at the nearest multiple that is not behind it, and zeros where the
-- segment was shorter.
pub align-Aligned :
    (a : ℕ) (b : BinaryBuilder)
    → 0 < a
    → data_segment_offset ≤ b.cursor
    → b.cursor + a < end
    → (r : BinaryBuilder) × (align a b ≡ some r) × Aligned a b r
unfolding align
align-Aligned a b pos above below = elim (Bool-cases (b.cursor % a == 0)) [
  | inl e ↦ (
    b,
    rw (==_of_ne a 0 (omega arith), e),
    record {
      multiple = eq_of_== _ 0 e;
      not_before = omega arith;
      nearest = omega arith;
      moved = inl refl;
    },
  )
  | inr e ↦ (
    pad (a - b.cursor % a) b,
    rw (==_of_ne a 0 (omega arith), e),
    pad-Aligned a b pos above below (ne_of_== _ 0 e),
  )
]
