-- ===== src/Vm/Memory/Laws.antt =====
-- src/virtualMachine.hpp, class `Program`: reads after writes.
use kasm.Base.{
  ℕ, ◌+◌, ◌≤◌, ◌<◌, ◌≡◌, ◌≢◌, ◌⊎◌, inl, inr, refl, none, some, arith, IsWord, leb, le→leb, ap, ◌∙◌,
  if◌then◌else◌, fun_ext, if-eq-some,
}
use kasm.Vm.Memory.HasBytes.{AreBytes, HasBytes, bytes_of-AreBytes}
use kasm.Vm.Memory.{
  Bytes, Program, Area, Place, locate, bound, bytes_of, with_bytes, word_at, put_word, get_word,
  set_word,
}

pub bound-with_bytes :
    (p : Program) (a b : Area) (f : Bytes) → bound (with_bytes p a f) b ≡ bound p b
unfolding bound with_bytes
bound-with_bytes p Area.in_image Area.in_image f = refl
bound-with_bytes p _ _ f = refl

pub bytes_of-with_bytes_self :
    (p : Program) (a : Area) (f : Bytes) → bytes_of (with_bytes p a f) a ≡ f
unfolding bytes_of with_bytes
bytes_of-with_bytes_self p Area.in_image f = refl
bytes_of-with_bytes_self p _ f = refl

pub bytes_of-with_bytes_ne :
    (p : Program) (a b : Area) (f : Bytes) → a ≢ b → bytes_of (with_bytes p a f) b ≡ bytes_of p b
unfolding bytes_of with_bytes
bytes_of-with_bytes_ne p Area.in_image Area.in_image f h = absurd (h refl)
bytes_of-with_bytes_ne p Area.in_stack Area.in_stack f h = absurd (h refl)
bytes_of-with_bytes_ne p Area.in_global Area.in_global f h = absurd (h refl)
bytes_of-with_bytes_ne p _ _ f h = refl

pub locate-with_bytes :
    (p : Program) (a : Area) (f : Bytes) (i : ℕ) → locate (with_bytes p a f) i ≡ locate p i
unfolding locate with_bytes
locate-with_bytes p Area.in_image f i = refl
locate-with_bytes p _ f i = refl

word_at-put_word_self : (f : Bytes) (i w : ℕ) → IsWord w → word_at (put_word f i w) i ≡ w
unfolding word_at put_word
word_at-put_word_self f i w h = ground arith

put_word_out : (f : Bytes) (i w j : ℕ) → (j < i) ⊎ (i + 4 ≤ j) → put_word f i w j ≡ f j
unfolding put_word
put_word_out f i w j h = ground arith

-- A word that does not overlap the written one is unchanged.
word_at-put_word_ne :
    (f : Bytes) (i j w : ℕ) → (i + 4 ≤ j) ⊎ (j + 4 ≤ i) → word_at (put_word f i w) j ≡ word_at f j
unfolding word_at
word_at-put_word_ne f i j w h = omega (
  arith,
  put_word_out f i w j (omega arith),
  put_word_out f i w (j + 1) (omega arith),
  put_word_out f i w (j + 2) (omega arith),
  put_word_out f i w (j + 3) (omega arith),
)

-- A successful write, taken apart.
set_word-some :
    (p q : Program) (i w : ℕ)
    → set_word p i w ≡ some q
    → ((locate p i).index + 4 ≤ bound p (locate p i).area)
      × (q
          ≡ with_bytes p
              (locate p i).area
              (put_word (bytes_of p (locate p i).area) (locate p i).index w))
unfolding set_word
set_word-some p q i w h = (ground arith, ground arith)

get_word-eq :
    (p : Program) (i : ℕ)
    → (locate p i).index + 4 ≤ bound p (locate p i).area
    → get_word p i ≡ some (word_at (bytes_of p (locate p i).area) (locate p i).index)
unfolding get_word
get_word-eq p i h = ground arith

-- A write within its array succeeds.
pub set_word-fits :
    (p : Program) (i w : ℕ)
    → (locate p i).index + 4 ≤ bound p (locate p i).area
    → (q : Program) × (set_word p i w ≡ some q)
unfolding set_word
set_word-fits p i w h =
    let l = locate p i in
    (with_bytes p l.area (put_word (bytes_of p l.area) l.index w), rw (le→leb _ _ h) refl)

-- After a write of a 32-bit word that succeeds, the word is read back from the same address.
pub get_word-set_word_self :
    (p q : Program) (i w : ℕ) → IsWord w → set_word p i w ≡ some q → get_word q i ≡ some w
unfolding get_word
get_word-set_word_self p q i w hw h =
    let (fits, e) = set_word-some p q i w h in
    rw (
      e,
      locate-with_bytes,
      bound-with_bytes,
      bytes_of-with_bytes_self,
      le→leb _ _ fits,
      word_at-put_word_self (bytes_of p (locate p i).area) (locate p i).index w hw,
    )

-- Two words that share no byte.
abbrev pub Apart : Place → Place → Type 0
Apart k l = (k.area ≢ l.area) ⊎ ((k.index + 4 ≤ l.index) ⊎ (l.index + 4 ≤ k.index))

Apart-order :
    (k l : Place) → k.area ≡ l.area → Apart k l → (k.index + 4 ≤ l.index) ⊎ (l.index + 4 ≤ k.index)
Apart-order k l e (inl n) = absurd (n e)
Apart-order k l e (inr o) = o

pub area_cases : (a b : Area) → (a ≡ b) ⊎ (a ≢ b)
area_cases Area.in_image Area.in_image = inl refl
area_cases Area.in_stack Area.in_stack = inl refl
area_cases Area.in_global Area.in_global = inl refl
area_cases _ _ = inr cc

word-untouched :
    (p : Program) (k l : Place) (w : ℕ)
    → Apart k l
    → word_at
        (bytes_of (with_bytes p k.area (put_word (bytes_of p k.area) k.index w)) l.area)
        l.index
      ≡ word_at (bytes_of p l.area) l.index
word-untouched p k l w a = elim (area_cases k.area l.area) [
  | inl e ↦
      rw (← e, bytes_of-with_bytes_self)
        (word_at-put_word_ne (bytes_of p k.area) k.index l.index w (Apart-order k l e a))
  | inr n ↦ rw (bytes_of-with_bytes_ne p k.area l.area _ n)
]

-- A write that succeeds leaves every word that shares no byte with it as it was.
pub get_word-set_word_ne :
    (p q : Program) (i j w : ℕ)
    → Apart (locate p i) (locate p j)
    → set_word p i w ≡ some q
    → get_word q j ≡ get_word p j
unfolding get_word
get_word-set_word_ne p q i j w a h =
    let (_, e) = set_word-some p q i w h in
    rw (e, locate-with_bytes, bound-with_bytes)
      (ap (λ v. if leb ((locate p j).index + 4) (bound p (locate p j).area) then some v else none)
        (word-untouched p (locate p i) (locate p j) w a))

restore_byte :
    (f : Bytes) (i v : ℕ) → AreBytes f → (j : ℕ) → put_word (put_word f i v) i (word_at f i) j ≡ f j
unfolding put_word word_at
restore_byte f i v h j = ground (arith, h i, h (i + 1), h (i + 2), h (i + 3))

-- Writing back the word that stood in an array of bytes gives the array as it was.
put_word-restore :
    (f : Bytes) (i v : ℕ) → AreBytes f → put_word (put_word f i v) i (word_at f i) ≡ f
put_word-restore f i v h = fun_ext (restore_byte f i v h)

with_bytes-restore :
    (p : Program) (a : Area) (f : Bytes) → with_bytes (with_bytes p a f) a (bytes_of p a) ≡ p
unfolding with_bytes bytes_of
with_bytes-restore p Area.in_image f = refl
with_bytes-restore p Area.in_stack f = refl
with_bytes-restore p Area.in_global f = refl

-- On arrays of bytes, a write that succeeds, followed by a write of the word that stood there before,
-- gives the memory as it was.
pub set_word-restore :
    (p q : Program) (i v w : ℕ)
    → HasBytes p
    → get_word p i ≡ some w
    → set_word p i v ≡ some q
    → set_word q i w ≡ some p
unfolding set_word get_word
set_word-restore p q i v w h g e =
    let l = locate p i in
    let (fits, q_eq) = set_word-some p q i v e in
    let (_, w_eq) = if-eq-some _ g in
    rw (
      q_eq,
      w_eq,
      locate-with_bytes,
      bound-with_bytes,
      bytes_of-with_bytes_self,
      le→leb _ _ fits,
      put_word-restore (bytes_of p l.area) l.index v (bytes_of-AreBytes p l.area h),
      with_bytes-restore p l.area,
    )

with_bytes-header : (p : Program) (a : Area) (f : Bytes) → (with_bytes p a f).header ≡ p.header
unfolding with_bytes
with_bytes-header p Area.in_image f = refl
with_bytes-header p _ f = refl

-- No write changes the header.
pub set_word-header : (p q : Program) (i w : ℕ) → set_word p i w ≡ some q → q.header ≡ p.header
set_word-header p q i w e =
    let (_, q_eq) = set_word-some p q i w e in ap (λ r. r.header) q_eq ∙ with_bytes-header p _ _
