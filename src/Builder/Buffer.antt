-- ===== src/Builder/Buffer.antt =====
-- `std::ostringstream` as src/binaryBuilder.cpp uses it: its characters and the put position.
-- Writing replaces what stands from the position on, and lengthens the buffer where it runs past
-- the end.
use mathlib.Core.List.{append-nil}
use kasm.Base.{
  ℕ, zero, suc, ◌+◌, ◌≤◌, ◌≡◌, refl, ap, List, [], ◌∷◌, ◌++◌, arith, length, take, drop,
  length-append, length-take,
}

pub record Stream : Type 0 where
  pub chars : List ℕ
  pub put : ℕ

-- `str("")` after `clear()`.
abbrev pub empty : Stream
empty = record { chars = []; put = 0 }

unfoldable pub write : List ℕ → Stream → Stream
write bs s = record {
  chars = take s.put s.chars ++ (bs ++ drop (s.put + length bs) s.chars);
  put = s.put + length bs;
}

-- `seekp(0, std::ios::end)`.
unfoldable pub seek_end : Stream → Stream
seek_end s = record s { put = length s.chars }

-- `seekp(n, std::ios::beg)` within the buffer.
unfoldable pub seek_to : ℕ → Stream → Stream
seek_to n s = record s { put = n }

-- The put position lies within the buffer.
pub record IsValid (s : Stream) : Type 0 where
  pub within : s.put ≤ length s.chars

write-IsValid : (bs : List ℕ) {s : Stream} → IsValid s → IsValid (write bs s)
unfolding write
write-IsValid bs {s} h = record {
  within = omega (
    arith,
    length-append {0} (take s.put s.chars) (bs ++ drop (s.put + length bs) s.chars),
    length-append {0} bs (drop (s.put + length bs) s.chars),
    length-take {0} s.put s.chars h.within,
  );
}

take-length {ℓ} : {A : Type ℓ} (xs : List A) → take (length xs) xs ≡ xs
take-length [] = refl
take-length (x ∷ xs) = ap (λ ys. x ∷ ys) (take-length xs)

drop-beyond {ℓ} : {A : Type ℓ} (xs : List A) (n : ℕ) → length xs ≤ n → drop n xs ≡ []
drop-beyond [] zero h = refl
drop-beyond (x ∷ xs) zero h = absurd (omega arith)
drop-beyond [] (suc n) h = refl
drop-beyond (x ∷ xs) (suc n) h = drop-beyond xs n (omega arith)

-- At the end of the buffer a write appends.
pub write-at_end :
    (bs : List ℕ) (s : Stream)
    → s.put ≡ length s.chars
    → write bs s ≡ record { chars = s.chars ++ bs; put = length s.chars + length bs }
unfolding write
write-at_end bs s h =
    rw (h, take-length, drop-beyond s.chars (length s.chars + length bs) (omega arith), append-nil)
