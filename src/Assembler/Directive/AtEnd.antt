-- ===== src/Assembler/Directive/AtEnd.antt =====
-- src/assembler.yy, the builder at the end of the data segment.
use mathlib.Core.List.{append-nil}
use kasm.Base.{
  ℕ, ◌+◌, ◌-◌, ◌%◌, ◌^◌, ◌<◌, ◌≡◌, refl, ap, ◌∙◌, some, List, [], ◌∷◌, ◌++◌, arith, length,
  length-append, length-replicate, replicate, if◌then◌else◌, ◌==◌, add32, le→ltb, Bool-cases,
  ==_of_ne, inl, inr,
}
use native.Mathlib.Nat.{mod-lt}
use kasm.Common.{data_segment_offset}
use kasm.Builder
use kasm.Builder.{BinaryBuilder, SegmentType, word_bytes, set_location, end}
use kasm.Builder.Buffer.{Stream, write}
use kasm.Builder.Location.{at_end, write-append, set_location-AtData}

-- A builder in the data segment, at its end.
abbrev pub data_at : Stream → List ℕ → BinaryBuilder
data_at t cs = record {
  cursor = data_segment_offset + length cs;
  text_segment = t;
  data_segment = at_end cs;
}

data_ext :
    (r : BinaryBuilder) (t : Stream) (cs : List ℕ)
    → r.cursor ≡ data_segment_offset + length cs
    → r.text_segment ≡ t
    → r.data_segment.chars ≡ cs
    → r.data_segment.put ≡ length cs
    → r ≡ data_at t cs
data_ext r t cs c s d p =
    ap (λ x. record r { cursor = x }) c
    ∙ ap (λ x. record r { cursor = data_segment_offset + length cs; text_segment = x }) s
    ∙ ap
        (λ x. record (data_at t cs) {
          data_segment = record { chars = x; put = r.data_segment.put };
        })
        d
    ∙ ap (λ x. record (data_at t cs) { data_segment = record { chars = cs; put = x } }) p

-- How far it is to the next multiple.
abbrev pub short : ℕ → ℕ → ℕ
short p a = let r = p % a in if r == 0 then 0 else a - r

pub short-below : (p a : ℕ) → 0 < a → short p a < a
short-below p a pos = ground (arith, mod-lt p pos)

module _ (t : Stream) (cs : List ℕ) where
  wrote :
      (bs : List ℕ)
      → data_segment_offset + length cs + length bs < 2 ^ 32
      → record {
        cursor = add32 (data_segment_offset + length cs) (length bs);
        text_segment = t;
        data_segment = write bs (at_end cs);
      }
        ≡ data_at t (cs ++ bs)
  unfolding add32
  wrote bs h =
      data_ext _ t (cs ++ bs) (omega (arith, h, length-append {0} cs bs)) refl
        (ap (λ (x : Stream). x.chars) (write-append bs cs))
        (ap (λ (x : Stream). x.put) (write-append bs cs))

  pub write_word-data_at :
      (w : ℕ)
      → data_segment_offset + length cs + 4 < 2 ^ 32
      → Builder.write_word w (data_at t cs) ≡ data_at t (cs ++ word_bytes w)
  unfolding Builder.write_word word_bytes
  write_word-data_at w h =
      rw (le→ltb (data_segment_offset + length cs) data_segment_offset (omega arith))
        (wrote (word_bytes w) h)

  pub write_byte-data_at :
      (v : ℕ)
      → data_segment_offset + length cs + 1 < 2 ^ 32
      → Builder.write_byte v (data_at t cs) ≡ data_at t (cs ++ v % 2 ^ 8 ∷ [])
  unfolding Builder.write_byte
  write_byte-data_at v h = wrote (v % 2 ^ 8 ∷ []) h

  pub write_string-data_at :
      (s : List ℕ)
      → data_segment_offset + length cs + length s < 2 ^ 32
      → Builder.write_string s (data_at t cs) ≡ data_at t (cs ++ s)
  unfolding Builder.write_string
  write_string-data_at s h = wrote s h

  pub pad-data_at :
      (n : ℕ)
      → data_segment_offset + length cs + n < end
      → Builder.pad n (data_at t cs) ≡ data_at t (cs ++ replicate n 0)
  unfolding Builder.pad add32
  pad-data_at n h =
      let c = data_segment_offset + length cs + n in
      let small : c % 2 ^ 32 ≡ c = omega (arith, h) in
      let at = set_location-AtData c (data_at t cs) (omega arith) h in
      let longer = length-append {0} cs (replicate n 0) in
      let zeros = length-replicate {0} {A = ℕ} n 0 in
      let added : c - data_segment_offset - length cs ≡ n = omega arith in
      ap (λ l. set_location l (data_at t cs)) small
      ∙ data_ext _ t (cs ++ replicate n 0) (at.cursor_at ∙ omega (arith, longer, zeros))
          at.text_same (at.grown ∙ ap (λ k. cs ++ replicate k 0) added)
          (at.put_at ∙ omega (arith, longer, zeros))

  pub align-data_at :
      (a : ℕ)
      → 0 < a
      → data_segment_offset + length cs + a < end
      → Builder.align a (data_at t cs)
        ≡ some (data_at t (cs ++ replicate (short (data_segment_offset + length cs) a) 0))
  unfolding Builder.align
  align-data_at a pos h =
      let c = data_segment_offset + length cs in
      rw (==_of_ne a 0 (omega arith)) (elim (Bool-cases (c % a == 0)) [
        | inl e ↦ rw (e, append-nil) refl
        | inr e ↦ rw e (ap some (pad-data_at (a - c % a) (omega (arith, mod-lt c pos))))
      ])
