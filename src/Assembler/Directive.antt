-- ===== src/Assembler/Directive.antt =====
-- src/assembler.yy, the directives that write to the data segment, and TEXT and DATA.
pub mod AtEnd
pub mod Contents
pub mod Appends
use kasm.Base.{ℕ, zero, suc, ◌*◌, ◌%◌, ◌^◌, Option, none, some, List, [], ◌∷◌, ◌++◌, maybe}
use kasm.Common.{AddressType, instruction_size}
use kasm.Builder
use kasm.Builder.{BinaryBuilder, SegmentType}
use kasm.Assembler.{AddressData, Assembler, resolve_address, emit}

-- `std::variant<std::uint32_t, AddressData>`.
pub data Argument : Type 0 where
  literal : ℕ → Argument
  label : AddressData → Argument

-- A string is its bytes, without the zero that `c_str` has after them.
pub data Directive : Type 0 where
  text data_type : Directive
  word byte : List Argument → Directive
  ascii asciiz : List ℕ → Directive
  align space : ℕ → Directive

-- The number that an argument stands for: an address is resolved at the present location, and keeps its
-- instruction data if it waits.
unfoldable pub argument_value : AddressType → Argument → Assembler → ℕ × Assembler
argument_value ty (Argument.literal v) a = (v, a)
argument_value ty (Argument.label d) a =
    let (d', a') = resolve_address (record d { type = ty; position = a.binary.cursor }) a in
    (d'.instruction, a')

abbrev pub with_binary : Assembler → BinaryBuilder → Assembler
with_binary a b = record a { binary = b }

-- The loops over the arguments of WORD and BYTE.
unfoldable pub write_words : List Argument → Assembler → Assembler
write_words [] a = a
write_words (x ∷ xs) a =
    let (v, a') = argument_value AddressType.direct_address_absolute_word x a in
    write_words xs (emit v a')

unfoldable pub write_bytes : List Argument → Assembler → Assembler
write_bytes [] a = a
write_bytes (x ∷ xs) a =
    let (v, a') = argument_value AddressType.direct_address_absolute_byte x a in
    write_bytes xs (with_binary a' (Builder.write_byte (v % 2 ^ 8) a'.binary))

-- `alignment *= 2` for each `i` below the literal, in 32 bits.
unfoldable pub alignment_of : ℕ → ℕ
alignment_of zero = 1
alignment_of (suc n) = alignment_of n * 2 % 2 ^ 32

-- `assert` of the data segment, before the rest of the action.
abbrev pub asserted : SegmentType → Option Assembler → Option Assembler
asserted SegmentType.text r = none
asserted SegmentType.data_type r = r

abbrev pub in_data : Assembler → Option Assembler → Option Assembler
in_data a r = asserted (Builder.get_segment_type a.binary) r

abbrev pub aligned : ℕ → Assembler → Option Assembler
aligned n a = maybe (Builder.align n a.binary) none (λ b. some (with_binary a b))

-- The action of a directive; `none` where an assertion fails or `align` divides by zero. That the
-- counter of the loop in ALIGN is an `int`, which 2 ^ 31 rounds overflow, is left out.
unfoldable pub assemble_directive : Directive → Assembler → Option Assembler
assemble_directive Directive.text a =
    some (with_binary a (Builder.set_segment_type SegmentType.text a.binary))
assemble_directive Directive.data_type a =
    some (with_binary a (Builder.set_segment_type SegmentType.data_type a.binary))
assemble_directive (Directive.word xs) a =
    in_data a (maybe (aligned instruction_size a) none (λ a'. some (write_words xs a')))
assemble_directive (Directive.byte xs) a = in_data a (some (write_bytes xs a))
assemble_directive (Directive.ascii s) a =
    in_data a (some (with_binary a (Builder.write_string s a.binary)))
assemble_directive (Directive.asciiz s) a =
    in_data a (some (with_binary a (Builder.write_string (s ++ 0 ∷ []) a.binary)))
assemble_directive (Directive.align n) a = in_data a (aligned (alignment_of n) a)
assemble_directive (Directive.space n) a = in_data a (some (with_binary a (Builder.pad n a.binary)))
