-- ===== src/SymbolFile.antt =====
-- src/debugger.cpp, `loadProgram`, and src/disassembler.cpp, `disassemble`: the loop that reads the
-- file of a symbol table.
pub mod Reading
use kasm.Base.{
  ℕ, zero, suc, ◌+◌, ◌*◌, ◌-◌, ◌%◌, ◌^◌, Bool, true, false, Option, none, some, List, [], ◌∷◌, ◌++◌,
  leb, length, take, drop, get_or, replicate, if◌then◌else◌, maybe,
}
use kasm.Builder.{word_bytes}
use kasm.Vm.Memory.{read_word}

-- A `std::ifstream`: the bytes that are left, and `eof()`.
pub record Input : Type 0 where
  pub left : List ℕ
  pub at_eof : Bool

-- `read(p, n)`: the bytes that it stores. It stores none once the end was met, and what is left
-- where that is too little.
unfoldable pub read : ℕ → Input → List ℕ × Input
read n i =
    if i.at_eof
    then ([], i)
    else if leb n (length i.left)
    then (take n i.left, record i { left = drop n i.left })
    else (i.left, record { left = []; at_eof = true })

-- The bytes of an object after a read into it.
unfoldable pub over : List ℕ → List ℕ → List ℕ
over got old = got ++ drop (length got) old

-- The bits of the variables of one round before they are read: `labelSize` and `location`.
pub record Uninitialised : Type 0 where
  pub label_size : ℕ
  pub location : ℕ

-- The three reads of one round, from the last: `location`, the bytes of `label`, `labelSize`.
unfoldable pub after_location : Uninitialised → List ℕ → List ℕ × Input → (List ℕ × ℕ) × Input
unfolding over
after_location g label (at, i) = ((label, read_word (over at (word_bytes g.location))), i)

unfoldable pub after_label : Uninitialised → ℕ → List ℕ × Input → (List ℕ × ℕ) × Input
unfolding after_location read
after_label g n (name, i) = after_location g (over name (replicate n 0)) (read 4 i)

unfoldable pub after_size : Uninitialised → List ℕ × Input → (List ℕ × ℕ) × Input
unfolding after_label
after_size g (size, i) =
    let n = get_or (over size (g.label_size ∷ [])) 0 0 in after_label g n (read n i)

-- One round: the label as its bytes, and the location.
unfoldable pub read_entry : Uninitialised → Input → (List ℕ × ℕ) × Input
unfolding after_size
read_entry g i = after_size g (read 1 i)

-- The loop, with the variables of each round; the entries in the order in which they are inserted.
-- Every round but the last takes a byte, so one more round than there are bytes is enough: `none`
-- says that the fuel ran out.
unfoldable pub read_entries : ℕ → (ℕ → Uninitialised) → Input → Option (List (List ℕ × ℕ))
unfolding read_entry
read_entries zero g i = if i.at_eof then some [] else none
read_entries (suc fuel) g i =
    let (e, i') = read_entry (g 0) i in
    let rest = read_entries fuel (λ k. g (suc k)) i' in
    if i.at_eof then some [] else maybe rest none (λ es. some (e ∷ es))

unfoldable pub opened : List ℕ → Input
opened bytes = record { left = bytes; at_eof = false }
