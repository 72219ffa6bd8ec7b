-- ===== src/Builder/Patch.antt =====
-- src/binaryBuilder.cpp, `setLocation` and `writeWord` on a word that was written before.
use kasm.Base.{
  ℕ, zero, suc, ◌+◌, ◌≤◌, ◌<◌, ◌≡◌, refl, ap, ◌∙◌, sym, List, [], ◌∷◌, ◌++◌, arith, length, get_or,
  take, drop, length-append, length-take, length-drop, get_or-append_left, get_or-append_right,
  lt→ltb, le→ltb, ==_of_ne,
}
use kasm.Common.{data_segment_offset}
use kasm.Builder.Buffer.{Stream, write, seek_to}
use kasm.Builder.{BinaryBuilder, set_location, set_text_location, write_word, word_bytes, end}

get_or-take : (n : ℕ) (xs : List ℕ) (i : ℕ) → i < n → get_or (take n xs) i 0 ≡ get_or xs i 0
get_or-take zero xs i h = absurd (omega arith)
get_or-take (suc n) [] i h = refl
get_or-take (suc n) (x ∷ xs) zero h = refl
get_or-take (suc n) (x ∷ xs) (suc i) h = get_or-take n xs i (omega arith)

get_or-drop : (n : ℕ) (xs : List ℕ) (i : ℕ) → get_or (drop n xs) i 0 ≡ get_or xs (n + i) 0
get_or-drop zero xs i = ap (λ k. get_or xs k 0) (omega arith)
get_or-drop (suc n) [] i = refl
get_or-drop (suc n) (x ∷ xs) i =
    get_or-drop n xs i ∙ ap (λ k. get_or (x ∷ xs) k 0) {x = suc (n + i)} (omega arith)

module _ (bs : List ℕ) (s : Stream) (inside : s.put + length bs ≤ length s.chars) where
  length-write : length (write bs s).chars ≡ length s.chars
  unfolding write
  length-write = omega (
    arith,
    length-append {0} (take s.put s.chars) (bs ++ drop (s.put + length bs) s.chars),
    length-append {0} bs (drop (s.put + length bs) s.chars),
    length-take {0} s.put s.chars (omega arith),
    length-drop {0} (s.put + length bs) s.chars,
  )

  abbrev front : List ℕ
  front = take s.put s.chars

  abbrev back : List ℕ
  back = drop (s.put + length bs) s.chars

  front-length : length front ≡ s.put
  front-length = length-take s.put s.chars (omega arith)

  write-before : (i : ℕ) → i < s.put → get_or (write bs s).chars i 0 ≡ get_or s.chars i 0
  unfolding write
  write-before i h =
      get_or-append_left front (bs ++ back) i 0 (omega (arith, front-length))
      ∙ get_or-take s.put s.chars i h

  write-new : (i : ℕ) → i < length bs → get_or (write bs s).chars (s.put + i) 0 ≡ get_or bs i 0
  unfolding write
  write-new i h =
      ap (λ k. get_or (front ++ (bs ++ back)) (k + i) 0) (sym front-length)
      ∙ get_or-append_right front (bs ++ back) i 0
      ∙ get_or-append_left bs back i 0 h

  write-after :
      (i : ℕ)
      → get_or (write bs s).chars (s.put + length bs + i) 0
        ≡ get_or s.chars (s.put + length bs + i) 0
  unfolding write
  write-after i =
      ap (λ k. get_or (front ++ (bs ++ back)) k 0) (omega (arith, front-length))
      ∙ get_or-append_right front (bs ++ back) (length bs + i) 0
      ∙ get_or-append_right bs back i 0
      ∙ get_or-drop (s.put + length bs) s.chars i

-- A text segment in which the word at `k` was replaced.
pub record Patched (k w : ℕ) (b r : BinaryBuilder) : Type 0 where
  pub same_length : length r.text_segment.chars ≡ length b.text_segment.chars
  pub word_new : (i : ℕ) → i < 4 → get_or r.text_segment.chars (k + i) 0 ≡ get_or (word_bytes w) i 0
  pub before_same :
      (i : ℕ) → i < k → get_or r.text_segment.chars i 0 ≡ get_or b.text_segment.chars i 0
  pub after_same :
      (i : ℕ)
      → get_or r.text_segment.chars (k + 4 + i) 0 ≡ get_or b.text_segment.chars (k + 4 + i) 0
  pub data_same : r.data_segment ≡ b.data_segment

-- `setLocation(k)` and `writeWord(w)`, where the four bytes from `k` on lie in the text segment, replace
-- them by the bytes of `w`, keep every other byte and the length of the segment, and do not touch the
-- data segment.
pub write_word-set_location :
    (k w : ℕ) (b : BinaryBuilder)
    → k + 4 ≤ length b.text_segment.chars
    → k < data_segment_offset
    → Patched k w b (write_word w (set_location k b))
unfolding write_word set_location set_text_location seek_to word_bytes
write_word-set_location k w b inside below =
    let s = seek_to k b.text_segment in
    let bs = word_bytes w in
    rw
      (
        ==_of_ne k end (omega arith),
        lt→ltb k data_segment_offset below,
        le→ltb (length b.text_segment.chars) k (omega arith),
      )
      (record {
        same_length = length-write bs s inside;
        word_new = λ i h. write-new bs s inside i h;
        before_same = λ i h. write-before bs s inside i h;
        after_same = λ i. write-after bs s inside i;
        data_same = refl;
      })
