-- ===== src/Assembler.antt =====
-- src/assembler.hpp, src/assembler_util.cpp and the action macros of src/assembler.yy: the symbol
-- tables, addresses that wait for a label, and the words that an instruction writes.
pub mod Symbols
pub mod Reach
pub mod Indirect
pub mod Words
pub mod FixUp
pub mod Statement
pub mod Directive
pub mod Macros
use kasm.Base.{
  ℕ, ◌+◌, ◌-◌, ◌*◌, ◌/◌, ◌%◌, ◌^◌, Bool, true, false, ◌||◌, Option, none, some, List, [], ◌∷◌, ◌++◌,
  String, str_eq, ◌==◌, length, take, if◌then◌else◌, maybe, add32, sub32,
}
use kasm.Common.{
  Opcode, AddressType, encode, set_opcode, set_register0, set_register1, set_register2,
  set_immediate, set_direct_address_absolute, set_direct_address_offset,
}
use kasm.Builder
use kasm.Builder.{BinaryBuilder}

-- `struct AddressData`; `offset` and `position` are 32-bit patterns.
pub record AddressData : Type 0 where
  pub type : AddressType
  pub position : ℕ
  pub instruction : ℕ
  pub label : String
  pub offset : ℕ
  pub reg : ℕ

pub record MacroFunction : Type 0 where
  pub paramaters : List String
  pub body : String

pub record Assembler : Type 0 where
  pub macros : List (String × String)
  pub macro_functions : List (String × MacroFunction)
  pub binary : BinaryBuilder
  pub label_locations : List (String × ℕ)
  -- in the order of `push_back`
  pub unresolved_address_locations : List AddressData

-- The `std::runtime_error`s: "Redefined Identifier: " and "Unresolved Label: " before the name, and
-- what C++ leaves undefined.
pub data Error : Type 0 where
  redefined_identifier unresolved_label : String → Error
  undefined : Error

pub data Result {ℓ} (A : Type ℓ) : Type ℓ where
  ok : A → Result A
  err : Error → Result A

infixl 5 ◌>>=◌
abbrev pub ◌>>=◌ {ℓ κ} : {A : Type ℓ} {B : Type κ} → Result A → (A → Result B) → Result B
ok a >>= f = f a
err e >>= f = err e

-- `unordered_map`: `at` and `count`, and an assignment to a key.
module _ {V : Type 0} where
  unfoldable pub lookup : String → List (String × V) → Option V
  lookup k [] = none
  lookup k ((j, v) ∷ m) = if str_eq j k then some v else lookup k m

  unfoldable pub insert : String → V → List (String × V) → List (String × V)
  insert k v [] = (k, v) ∷ []
  insert k v ((j, w) ∷ m) = if str_eq j k then (k, v) ∷ m else (j, w) ∷ insert k v m

  abbrev pub count : String → List (String × V) → Bool
  count k m = maybe (lookup k m) false (λ _. true)

unfoldable pub is_identifier_defined : Assembler → String → Bool
is_identifier_defined a k =
    count k a.label_locations || count k a.macros || count k a.macro_functions

abbrev guard_new : Assembler → String → Assembler → Result Assembler
guard_new a k r = if is_identifier_defined a k then err (redefined_identifier k) else ok r

unfoldable pub define_label : String → ℕ → Assembler → Result Assembler
define_label k l a = guard_new a k (record a { label_locations = insert k l a.label_locations })

unfoldable pub define_macro : String → String → Assembler → Result Assembler
define_macro k v a = guard_new a k (record a { macros = insert k v a.macros })

unfoldable pub define_macro_function : String → List String → String → Assembler → Result Assembler
define_macro_function k ps v a = guard_new a k (record a {
  macro_functions = insert k (record { paramaters = ps; body = v }) a.macro_functions;
})

abbrev with_instruction : AddressData → ℕ → AddressData
with_instruction a d = record a { instruction = d }

-- The `switch` of `resolveAddress`: the address with its field written, if it can be resolved. The
-- sum of two `std::int32_t` is taken by wrapping.
unfoldable pub resolved_by : AddressType → List (String × ℕ) → AddressData → Option AddressData
resolved_by AddressType.direct_address_absolute t a =
    maybe (lookup a.label t) none
      (λ l. some (with_instruction a (set_direct_address_absolute a.instruction l)))
resolved_by AddressType.direct_address_offset t a =
    maybe (lookup a.label t) none (λ l.
      some (with_instruction a (set_direct_address_offset a.instruction (sub32 l a.position))))
resolved_by AddressType.indirect_address_offset t a =
    let d = set_register1 a.instruction a.reg in
    if str_eq a.label ""
    then some (with_instruction a (set_direct_address_offset d (sub32 a.offset a.position)))
    else maybe (lookup a.label t) none (λ l.
      some (with_instruction a (set_direct_address_offset d (sub32 (add32 l a.offset) a.position))))
resolved_by AddressType.invalid t a = none
resolved_by _ t a = maybe (lookup a.label t) none (λ l. some (with_instruction a l))

unfoldable pub resolved : List (String × ℕ) → AddressData → Option AddressData
unfolding resolved_by
resolved t a = resolved_by a.type t a

-- `resolveAddress(address)`, with the address as it leaves it.
unfoldable pub resolve_address : AddressData → Assembler → AddressData × Assembler
resolve_address d a =
    maybe (resolved a.label_locations d)
      (d, record a { unresolved_address_locations = a.unresolved_address_locations ++ d ∷ [] })
      (λ d'. (d', a))

-- `resolveAddress(address, MUST_RESOLVE)`.
unfoldable pub must_resolve : AddressData → Assembler → Result AddressData
must_resolve d a =
    maybe (resolved a.label_locations d) (err (unresolved_label d.label)) (λ d'. ok d')

-- The `INSTRUCTION_…` macros start from an uninitialised word `g`.
unfoldable pub word_rrr : ℕ → Opcode → ℕ → ℕ → ℕ → ℕ
word_rrr g op r0 r1 r2 =
    set_register2 (set_register1 (set_register0 (set_opcode g (encode op)) r0) r1) r2

unfoldable pub word_rrl : ℕ → Opcode → ℕ → ℕ → ℕ → ℕ
word_rrl g op r0 r1 l =
    set_immediate (set_register1 (set_register0 (set_opcode g (encode op)) r0) r1) l

unfoldable pub word_rr : ℕ → Opcode → ℕ → ℕ → ℕ
word_rr g op r0 r1 = set_register1 (set_register0 (set_opcode g (encode op)) r0) r1

unfoldable pub word_rl : ℕ → Opcode → ℕ → ℕ → ℕ
word_rl g op r0 l = set_immediate (set_register0 (set_opcode g (encode op)) r0) l

unfoldable pub word_r : ℕ → Opcode → ℕ → ℕ
word_r g op r0 = set_register0 (set_opcode g (encode op)) r0

unfoldable pub word_o : ℕ → Opcode → ℕ
word_o g op = set_opcode g (encode op)

-- `assembler->binary.writeWord(w)`.
unfoldable pub emit : ℕ → Assembler → Assembler
emit w a = record a { binary = Builder.write_word w a.binary }

-- INSTRUCTION_RRA, _RA and _A, from the word with its opcode and registers.
unfoldable pub emit_address : ℕ → AddressType → AddressData → Assembler → Assembler
emit_address w t d a =
    let here = record d { type = t; position = a.binary.cursor; instruction = w } in
    let (d', a') = resolve_address here a in emit d'.instruction a'

-- `LI` and `LA`: the two halves of a word; `LI` leaves the upper one out where it is zero.
unfoldable pub load_immediate : ℕ → ℕ → ℕ → ℕ → Assembler → Assembler
load_immediate g g' r v a =
    if v / 2 ^ 16 == 0
    then emit (word_rrl g Opcode.ori r 0 (v % 2 ^ 16)) a
    else emit (word_rrl g' Opcode.ori r r (v % 2 ^ 16))
        (emit (word_rl g Opcode.lui r (v / 2 ^ 16)) a)

unfoldable pub load_words : ℕ → ℕ → ℕ → ℕ → Assembler → Assembler
load_words g g' r v a =
    emit (word_rrl g' Opcode.ori r r (v % 2 ^ 16)) (emit (word_rl g Opcode.lui r (v / 2 ^ 16)) a)

-- `LA`, where `w` stands for the instruction data of an address that was not resolved.
unfoldable pub load_address : ℕ → ℕ → ℕ → ℕ → AddressData → Assembler → Assembler
load_address w g g' r d a =
    let here = record d {
      type = AddressType.direct_address_absolute_load;
      reg = r;
      position = a.binary.cursor;
      instruction = w;
    } in
    let (d', a') = resolve_address here a in load_words g g' r d'.instruction a'

-- One round of the loop at the end of `assemble`: back to the place, and the word or the byte again.
abbrev write_resolved : AddressType → ℕ → ℕ → AddressData → Assembler → Assembler
write_resolved AddressType.direct_address_absolute_byte g g' d a = record a {
  binary = Builder.write_byte (d.instruction % 2 ^ 8) a.binary;
}
write_resolved AddressType.direct_address_absolute_load g g' d a =
    load_words g g' d.reg d.instruction a
write_resolved _ g g' d a = emit d.instruction a

unfoldable pub fix_up : ℕ → ℕ → AddressData → Assembler → Result Assembler
fix_up g g' d a =
    let back = record a { binary = Builder.set_location d.position a.binary } in
    must_resolve d back >>= λ d'. ok (write_resolved d'.type g g' d' back)

-- `g` and `g'` give the uninitialised words of a round, by the number of addresses after it.
unfoldable pub fix_all : (ℕ → ℕ) → (ℕ → ℕ) → List AddressData → Assembler → Result Assembler
fix_all g g' [] a = ok a
fix_all g g' (d ∷ ds) a = fix_up (g (length ds)) (g' (length ds)) d a >>= λ a'. fix_all g g' ds a'

abbrev aligned_image : Option BinaryBuilder → Result (List ℕ)
aligned_image none = err undefined
aligned_image (some b) = ok (Builder.close b)

-- The rest of `assemble`, once the parser is done: the file that it writes.
unfoldable pub finish : (ℕ → ℕ) → (ℕ → ℕ) → Assembler → Result (List ℕ)
finish g g' a = fix_all g g' a.unresolved_address_locations a >>= λ a'.
    aligned_image (Builder.align 4 (Builder.set_location Builder.end a'.binary))

-- `saveSymbolTable`: the length of the name in a byte, that many of its bytes, the location. `codes`
-- gives the bytes of a name.
unfoldable pub save_symbol_table : (String → List ℕ) → List (String × ℕ) → List ℕ
save_symbol_table codes [] = []
save_symbol_table codes ((k, l) ∷ t) =
    let n = length (codes k) % 2 ^ 8 in
    n ∷ (take n (codes k) ++ (Builder.word_bytes l ++ save_symbol_table codes t))
