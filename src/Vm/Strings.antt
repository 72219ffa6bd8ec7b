-- ===== src/Vm/Strings.antt =====
-- src/virtualMachine.cpp, `systemCall`, READ_STRING: which bytes of memory it writes.
use mathlib.Core.Path.{ap₂, subst}
use kasm.Base.{
  ℕ, zero, suc, ◌-◌, ◌%◌, ◌^◌, ◌≤◌, ◌≡◌, ◌≢◌, ◌⊎◌, inl, inr, refl, sym, ap, ◌∙◌, Bool, true, false,
  Option, none, some, arith, ltb, ltb→lt, ◌==◌, if◌then◌else◌, bind, bind-eq-some, if-eq-some,
  some_inj, add32, IsWord, ==_self, ==_of_ne,
}
use kasm.Vm.Memory.{
  Program, Bytes, Place, place, locate, bound, bytes_of, with_bytes, put_byte, get_char, set_char,
}
use kasm.Vm.Memory.Laws.{
  bound-with_bytes, bytes_of-with_bytes_self, bytes_of-with_bytes_ne, locate-with_bytes, area_cases,
}
use kasm.Vm.Console
use kasm.Vm.Console.{Console}
use kasm.Common.{a0, a1}
use kasm.Vm.State.{VirtualMachine, Outcome, given}
use kasm.Vm.Syscall.{read_string_loop, read_string_call}

set_char-some :
    (p q : Program) (i v : ℕ)
    → set_char p i v ≡ some q
    → (ltb (locate p i).index (bound p (locate p i).area) ≡ true)
      × (q
          ≡ with_bytes p
              (locate p i).area
              (put_byte (bytes_of p (locate p i).area) (locate p i).index v))
unfolding set_char
set_char-some p q i v h = if-eq-some _ h

put_byte_self : (f : Bytes) (i v : ℕ) → put_byte f i v i ≡ v % 2 ^ 8
unfolding put_byte
put_byte_self f i v = rw (==_self i) refl

put_byte_ne : (f : Bytes) (i v j : ℕ) → j ≢ i → put_byte f i v j ≡ f j
unfolding put_byte
put_byte_ne f i v j h = rw (==_of_ne j i h) refl

get_char-set_char_self :
    (p q : Program) (i v : ℕ) → set_char p i v ≡ some q → get_char q i ≡ some (v % 2 ^ 8)
unfolding get_char
get_char-set_char_self p q i v h =
    let (fits, e) = set_char-some p q i v h in
    rw (
      e,
      locate-with_bytes,
      bound-with_bytes,
      bytes_of-with_bytes_self,
      fits,
      put_byte_self (bytes_of p (locate p i).area) (locate p i).index v,
    )

byte-untouched :
    (p : Program) (k l : Place) (v : ℕ)
    → k ≢ l
    → bytes_of (with_bytes p k.area (put_byte (bytes_of p k.area) k.index v)) l.area l.index
      ≡ bytes_of p l.area l.index
byte-untouched p k l v ne = elim (area_cases k.area l.area) [
  | inl e ↦
      rw (← e, bytes_of-with_bytes_self)
        (put_byte_ne (bytes_of p k.area) k.index v l.index
          (λ h. ne (ap₂ (λ a i. place a i) e (sym h))))
  | inr n ↦ rw (bytes_of-with_bytes_ne p k.area l.area _ n)
]

get_char-set_char_ne :
    (p q : Program) (i j v : ℕ)
    → locate p i ≢ locate p j
    → set_char p i v ≡ some q
    → get_char q j ≡ get_char p j
unfolding get_char
get_char-set_char_ne p q i j v ne h =
    let (_, e) = set_char-some p q i v h in
    let l = locate p j in
    rw (e, locate-with_bytes, bound-with_bytes)
      (ap (λ b. if ltb l.index (bound p l.area) then some b else none)
        (byte-untouched p (locate p i) l v ne))

set_char-locate : (p q : Program) (i v j : ℕ) → set_char p i v ≡ some q → locate q j ≡ locate p j
set_char-locate p q i v j h =
    let (_, e) = set_char-some p q i v h in ap (λ r. locate r j) e ∙ locate-with_bytes p _ _ j

-- The place of an address is none of those of the bytes that follow a place.
abbrev pub Outside : Program → ℕ → ℕ → ℕ → Type 0
Outside p address left j = (k : ℕ) → k ≤ left → locate p (add32 address k) ≢ locate p j

-- The byte was as it is, and the text that was written ends in a zero at one of the bytes.
abbrev pub WritesWithin : Program → Program → ℕ → ℕ → Type 0
WritesWithin p q address left =
    ((j : ℕ) → Outside p address left j → get_char q j ≡ get_char p j)
    × ((k : ℕ) × (k ≤ left) × (get_char q (add32 address k) ≡ some 0))

add32_zero : (a : ℕ) → IsWord a → add32 a 0 ≡ a
unfolding add32
add32_zero a h = omega arith

add32_step : (a k : ℕ) → add32 (add32 a 1) k ≡ add32 a (suc k)
unfolding add32
add32_step a k = omega arith

-- The last byte.
last_byte :
    (left address : ℕ) (p q : Program)
    → IsWord address
    → set_char p address 0 ≡ some q
    → WritesWithin p q address left
last_byte left address p q w h =
    let at = add32_zero address w in
    (
      λ j outside.
          (get_char-set_char_ne p q address j 0
            (λ e. outside 0 (omega arith) (ap (locate p) at ∙ e)) h),
      (0, omega arith, ap (get_char q) at ∙ get_char-set_char_self p q address 0 h),
    )

if_cases {ℓ} :
    {A : Type ℓ} (b : Bool) {x y r : A}
    → (if b then x else y) ≡ r
    → ((b ≡ true) × (x ≡ r)) ⊎ ((b ≡ false) × (y ≡ r))
if_cases true h = inl (refl, h)
if_cases false h = inr (refl, h)

last_write :
    (p q : Program) (address : ℕ) (c c' : Console)
    → bind {B = Program × Console} (set_char p address 0) (λ r. some (r, c)) ≡ some (q, c')
    → set_char p address 0 ≡ some q
last_write p q address c c' h =
    let (r, e, same) = bind-eq-some (set_char p address 0) _ h in
    let same_program : r ≡ q = ap (λ x. x.0) (some_inj same) in e ∙ ap some same_program

add32-IsWord : (a b : ℕ) → IsWord (add32 a b)
unfolding add32
add32-IsWord a b = omega arith

-- A byte, and the text after it.
byte_before :
    (left address : ℕ) (p r q : Program) (v : ℕ)
    → IsWord address
    → set_char p address v ≡ some r
    → WritesWithin r q (add32 address 1) left
    → WritesWithin p q address (suc left)
byte_before left address p r q v w written (kept, (k, fits, ends)) = (
  λ j outside.
      kept j (λ n le e. outside (suc n) (omega arith) (
        ap (locate p) (sym (add32_step address n))
        ∙ sym (set_char-locate p r address v (add32 (add32 address 1) n) written)
        ∙ e
        ∙ set_char-locate p r address v j written))
      ∙ get_char-set_char_ne p r address j v
          (λ e. outside 0 (omega arith) (ap (locate p) (add32_zero address w) ∙ e)) written,
  (suc k, omega arith, ap (get_char q) (sym (add32_step address k)) ∙ ends),
)

read_string_loop-WritesWithin :
    (left address : ℕ) (p q : Program) (c c' : Console)
    → IsWord address
    → read_string_loop left address p c ≡ some (q, c')
    → WritesWithin p q address left
unfolding read_string_loop
read_string_loop-WritesWithin zero address p q c c' w h =
    last_byte 0 address p q w (last_write p q address _ c' h)
read_string_loop-WritesWithin (suc left) address p q c c' w h =
    let (b, c1) = Console.get c in
    let stops : Option (Program × Console) = bind (set_char p address 0) (λ r. some (r, c1)) in
    let goes : Option (Program × Console) =
      bind (set_char p address b) (λ r. read_string_loop left (add32 address 1) r c1) in
    elim (if_cases (b == 10) {x = stops} {y = goes} h) [
      | inl (_, e) ↦ last_byte (suc left) address p q w (last_write p q address c1 c' e)
      | inr (_, e) ↦
          let (r, written, rest) =
            bind-eq-some (set_char p address b) (λ r. read_string_loop left (add32 address 1) r c1)
              e in
          byte_before left address p r q b w written (
            read_string_loop-WritesWithin left (add32 address 1) r q c1 c' (add32-IsWord address 1)
              rest)
    ]

undefined-ne-ok : {vm : VirtualMachine} → Outcome.undefined ≡ Outcome.ok vm → ⊥
undefined-ne-ok h = cc

given_program :
    (vm vm' : VirtualMachine) (o : Option (Program × Console))
    → given o (λ (q, c). Outcome.ok (record vm { program = q; console = c })) ≡ Outcome.ok vm'
    → (q : Program) × (c : Console) × (o ≡ some (q, c)) × (q ≡ vm'.program)
given_program vm vm' none h = absurd (undefined-ne-ok h)
given_program vm vm' (some (q, c)) h = (q, c, refl, cc)

-- READ_STRING for a buffer of at least one byte, where it returns: every byte of memory outside the
-- buffer, which is as long as $a1 says and starts at the address in $a0, is as it was, and one of
-- the bytes of the buffer is the zero that ends the text.
pub read_string_call-WritesWithin :
    (vm vm' : VirtualMachine)
    → IsWord (vm.registers a0)
    → 1 ≤ vm.registers a1
    → read_string_call vm ≡ Outcome.ok vm'
    → WritesWithin vm.program vm'.program (vm.registers a0) (vm.registers a1 - 1)
unfolding read_string_call
read_string_call-WritesWithin vm vm' w room h =
    let size = vm.registers a1 in
    let ran = read_string_loop (size - 1) (vm.registers a0) vm.program vm.console in
    elim (if_cases (ltb size 1) {x = Outcome.ok vm}
      {y = given ran (λ (q, c). Outcome.ok (record vm { program = q; console = c }))} h) [
        | inl (small, _) ↦ absurd (omega (arith, ltb→lt size 1 small))
        | inr (_, e) ↦
            let (q, c, done, same) = given_program vm vm' ran e in
            subst (λ p. WritesWithin vm.program p (vm.registers a0) (size - 1)) same
              (read_string_loop-WritesWithin (size - 1) (vm.registers a0) vm.program q vm.console c
                w done)
      ]
