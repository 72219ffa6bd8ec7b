-- ===== src/Vm/Memory/HasBytes.antt =====
-- src/virtualMachine.hpp, class `Program`: the elements of the arrays as bytes.
use kasm.Base.{ℕ, ◌+◌, ◌^◌, ◌<◌, ◌≡◌, some, arith, IsWord, if-eq-some}
use kasm.Vm.Memory.{
  Bytes, Program, Area, locate, locate_byte, bytes_of, with_bytes, word_at, put_word, put_byte,
  get_word, set_word, get_byte, set_byte, set_char,
}

abbrev pub AreBytes : Bytes → Type 0
AreBytes f = (i : ℕ) → f i < 2 ^ 8

pub record HasBytes (p : Program) : Type 0 where
  pub image_bytes : AreBytes p.image
  pub stack_bytes : AreBytes p.stack
  pub global_bytes : AreBytes p.global

pub bytes_of-AreBytes : (p : Program) (a : Area) → HasBytes p → AreBytes (bytes_of p a)
unfolding bytes_of
bytes_of-AreBytes p Area.in_image h = h.image_bytes
bytes_of-AreBytes p Area.in_stack h = h.stack_bytes
bytes_of-AreBytes p Area.in_global h = h.global_bytes

with_bytes-HasBytes :
    (p : Program) (a : Area) (f : Bytes) → AreBytes f → HasBytes p → HasBytes (with_bytes p a f)
unfolding with_bytes
with_bytes-HasBytes p Area.in_image f hf h = record {
  image_bytes = hf;
  stack_bytes = h.stack_bytes;
  global_bytes = h.global_bytes;
}
with_bytes-HasBytes p Area.in_stack f hf h = record {
  image_bytes = h.image_bytes;
  stack_bytes = hf;
  global_bytes = h.global_bytes;
}
with_bytes-HasBytes p Area.in_global f hf h = record {
  image_bytes = h.image_bytes;
  stack_bytes = h.stack_bytes;
  global_bytes = hf;
}

put_word-AreBytes : (f : Bytes) (i w : ℕ) → AreBytes f → AreBytes (put_word f i w)
unfolding put_word
put_word-AreBytes f i w h j = ground (arith, h j)

put_byte-AreBytes : (f : Bytes) (i v : ℕ) → AreBytes f → AreBytes (put_byte f i v)
unfolding put_byte
put_byte-AreBytes f i v h j = ground (arith, h j)

word_at-IsWord : (f : Bytes) (i : ℕ) → AreBytes f → IsWord (word_at f i)
unfolding word_at
word_at-IsWord f i h = omega (arith, h i, h (i + 1), h (i + 2), h (i + 3))

pub set_word-HasBytes :
    (p : Program) (i w : ℕ) {q : Program} → set_word p i w ≡ some q → HasBytes p → HasBytes q
unfolding set_word
set_word-HasBytes p i w e h =
    let (_, q_eq) = if-eq-some _ e in
    let l = locate p i in
    rw q_eq (
      with_bytes-HasBytes p l.area _
        (put_word-AreBytes (bytes_of p l.area) l.index w (bytes_of-AreBytes p l.area h)) h)

pub set_byte-HasBytes :
    (p : Program) (i v : ℕ) {q : Program} → set_byte p i v ≡ some q → HasBytes p → HasBytes q
unfolding set_byte
set_byte-HasBytes p i v e h =
    let (_, q_eq) = if-eq-some _ e in
    let l = locate_byte p i in
    rw q_eq (
      with_bytes-HasBytes p l.area _
        (put_byte-AreBytes (bytes_of p l.area) l.index v (bytes_of-AreBytes p l.area h)) h)

pub set_char-HasBytes :
    (p : Program) (i v : ℕ) {q : Program} → set_char p i v ≡ some q → HasBytes p → HasBytes q
unfolding set_char
set_char-HasBytes p i v e h =
    let (_, q_eq) = if-eq-some _ e in
    let l = locate p i in
    rw q_eq (
      with_bytes-HasBytes p l.area _
        (put_byte-AreBytes (bytes_of p l.area) l.index v (bytes_of-AreBytes p l.area h)) h)

pub get_byte-lt : (p : Program) (i : ℕ) {v : ℕ} → get_byte p i ≡ some v → HasBytes p → v < 2 ^ 8
unfolding get_byte
get_byte-lt p i e h =
    let l = locate_byte p i in
    let (_, v_eq) = if-eq-some _ e in rw v_eq (bytes_of-AreBytes p l.area h l.index)

pub get_word-IsWord : (p : Program) (i : ℕ) {w : ℕ} → get_word p i ≡ some w → HasBytes p → IsWord w
unfolding get_word
get_word-IsWord p i e h = ground (
  arith,
  word_at-IsWord (bytes_of p (locate p i).area) (locate p i).index
      (bytes_of-AreBytes p (locate p i).area h),
)
