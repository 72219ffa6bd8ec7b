-- ===== src/CompoundInput.antt =====
-- src/compoundInputFileStream.cpp and .hpp: the stack of files and inserted texts that the lexers of
-- the assembler and the compiler read from.
pub mod Push
pub mod Remaining
pub mod Skipping
pub mod Reading
pub mod Inserting
pub mod Pushing
pub mod Entry
pub mod Strings
pub mod Callbacks
pub mod Extending
pub mod Listening
pub mod Quiet
pub mod Seeking
use kasm.Base.{
  ℕ, suc, ◌+◌, ◌-◌, ◌*◌, Bool, true, false, not, ◌&&◌, ◌||◌, Option, none, some, List, [], ◌∷◌,
  ◌++◌, String, ◌==◌, leb, ltb, length, take, drop, get_or, if◌then◌else◌, maybe, add32,
}
use kasm.Assembler.{lookup, insert}

-- `struct FileEntry`. `file` is the text of the stream that it points to, none for the null pointer of
-- a stub; positions are counts of bytes.
pub record FileEntry : Type 0 where
  pub file : Option (List ℕ)
  pub start : ℕ
  pub end : ℕ
  pub offset : ℕ
  pub uid : ℕ

-- The list `fileEntries` is split at the iterator `it`: the entries before it, the nearest first, and
-- the entries from it on, none at `end()`. `in` is the text of the stream that it points to. A
-- stream is placed by `seekg` whenever it becomes `in`, so one position serves for all of them.
pub record CompoundInputFileStream : Type 0 where
  pub files : List (String × List ℕ)
  pub before : List FileEntry
  pub after : List FileEntry
  pub in_stream : Option (List ℕ)
  pub position : ℕ
  pub identifier : String
  pub uid : ℕ
  -- whether `eoFCallback` is set, and the numbers it was called with
  pub eof_callback : Bool
  pub calls : List ℕ

-- The two `std::runtime_error`s of `seekg`, an `ios_base::failure` of a stream, and the iterator
-- `end()` dereferenced, which C++ leaves undefined.
pub data Error : Type 0 where
  seeking_empty seeking_past_end stream_failure undefined : Error

pub data Result {ℓ} (A : Type ℓ) : Type ℓ where
  ok : A → Result A
  err : Error → Result A

infixl 5 ◌>>=◌
abbrev pub ◌>>=◌ {ℓ κ} : {A : Type ℓ} {B : Type κ} → Result A → (A → Result B) → Result B
ok a >>= f = f a
err e >>= f = err e

abbrev pub is_stub : FileEntry → Bool
is_stub e = maybe e.file true (λ _. false)

abbrev pub text_of : FileEntry → List ℕ
text_of e = maybe e.file [] (λ t. t)

-- `tellgInternal` at an entry.
unfoldable pub tell_in : FileEntry → ℕ → ℕ
tell_in e position = e.start + position - e.offset

-- The condition of the loop of `eof`, but for the stub: `peek` meets the end of the stream, or the
-- entry is over.
unfoldable pub ended : FileEntry → ℕ → Bool
ended e position = leb (length (text_of e)) position || leb e.end (tell_in e position)

-- `eoFCallback(it->uid)`.
unfoldable pub call_back : FileEntry → CompoundInputFileStream → CompoundInputFileStream
call_back e s =
    if s.eof_callback && not (e.uid == 0) then record s { calls = s.calls ++ e.uid ∷ [] } else s

-- `it` on an entry, with the entries on both sides of it.
unfoldable pub stand :
    List FileEntry → List FileEntry → CompoundInputFileStream → CompoundInputFileStream
stand before after s = record s { before = before; after = after }

-- `in = it->file->stream; in->seekg(p)`.
unfoldable pub enter : FileEntry → ℕ → CompoundInputFileStream → CompoundInputFileStream
enter e p s = record s { in_stream = e.file; position = p }

abbrev pub with_uid : ℕ → FileEntry → FileEntry
with_uid u e = record e { uid = u }

abbrev pub stub : ℕ → FileEntry
stub u = record { file = none; start = 0; end = 0; offset = 0; uid = u }

-- What the loop of `eof` does with `it` on `e`, where `next` is its way from the `it++` on: the answer
-- of `eof` and the state that it leaves.
unfoldable pub at_entry :
    Bool
    → List FileEntry
    → FileEntry
    → List FileEntry
    → (CompoundInputFileStream → Bool × CompoundInputFileStream)
    → CompoundInputFileStream
    → Bool × CompoundInputFileStream
at_entry give before e rest next s = elim (is_stub e || ended e s.position) [
  | false ↦ (false, stand before (e ∷ rest) s)
  | true ↦ elim (not (is_stub e) && not (e.uid == 0) && give) [
    | true ↦ (false, stand (with_uid 0 e ∷ before) (stub e.uid ∷ rest) s)
    | false ↦ next (call_back e s)
  ]
]

unfoldable pub at_end : List FileEntry → CompoundInputFileStream → CompoundInputFileStream
at_end before s = record (stand before [] s) { in_stream = none }

-- The loop of `eof`, with `it` on `e`.
unfoldable pub skip_ended :
    Bool
    → List FileEntry
    → FileEntry
    → List FileEntry
    → CompoundInputFileStream
    → Bool × CompoundInputFileStream
skip_ended give before e [] s = at_entry give before e [] (λ s'. (true, at_end (e ∷ before) s')) s
skip_ended give before e (e' ∷ rest) s =
    at_entry give before e (e' ∷ rest)
      (λ s'. elim (is_stub e') [
        | true ↦ elim give [
          | true ↦ (false, stand (e ∷ before) (e' ∷ rest) s')
          | false ↦ skip_ended give (e ∷ before) e' rest s'
        ]
        | false ↦ skip_ended give (e ∷ before) e' rest (enter e' e'.offset s')
      ])
      s

abbrev pub skip_from :
    Bool
    → List FileEntry
    → List FileEntry
    → CompoundInputFileStream
    → Bool × CompoundInputFileStream
skip_from give before [] s = (true, s)
skip_from give before (e ∷ rest) s = skip_ended give before e rest s

unfoldable pub eof : Bool → CompoundInputFileStream → Bool × CompoundInputFileStream
eof give s = maybe s.in_stream (true, s) (λ _. skip_from give s.before s.after s)

-- The byte at a place of the stream, where there is one.
abbrev pub byte_at : CompoundInputFileStream → ℕ
byte_at s = get_or (maybe s.in_stream [] (λ t. t)) s.position 0

abbrev pub step_on : ℕ → CompoundInputFileStream → CompoundInputFileStream
step_on n s = record s { position = s.position + n }

unfoldable pub peek : CompoundInputFileStream → ℕ × CompoundInputFileStream
unfolding eof
peek s = let (b, s') = eof false s in (if b then 0 else byte_at s', s')

unfoldable pub ignore : CompoundInputFileStream → CompoundInputFileStream
unfolding eof
ignore s = let (b, s') = eof false s in if b then s' else step_on 1 s'

-- `get(c)`: the byte, or none where `c` keeps what it held.
unfoldable pub get : CompoundInputFileStream → Option ℕ × CompoundInputFileStream
unfolding eof
get s = let (b, s') = eof false s in if b then (none, s') else (some (byte_at s'), step_on 1 s')

-- `read(buffer, size)`: the bytes at the front of the buffer. It stays in the stream of the entry, and
-- a stream that is too short throws.
unfoldable pub read : ℕ → CompoundInputFileStream → Result (List ℕ × CompoundInputFileStream)
unfolding eof
read size s =
    let (b, s') = eof false s in
    let left = drop s'.position (maybe s'.in_stream [] (λ t. t)) in
    if b
    then ok ([], s')
    else if leb size (length left)
    then ok (take size left, step_on size s')
    else err stream_failure

-- `tellgInternal`.
abbrev pub tell_at : List FileEntry → ℕ → ℕ
tell_at [] position = 0
tell_at (e ∷ _) position = tell_in e position

-- `tellg`: at the end `std::numeric_limits<std::streampos>::max()`, which is not specialised for this
-- class and gives `streampos()`, that is 0.
unfoldable pub tellg : CompoundInputFileStream → ℕ × CompoundInputFileStream
unfolding eof
tellg s = let (b, s') = eof false s in (if b then 0 else tell_at s'.after s'.position, s')

abbrev pub in_entry : ℕ → FileEntry → Bool
in_entry p e = leb e.start p && ltb p e.end && not (is_stub e)

abbrev pub last_end : List FileEntry → ℕ → ℕ
last_end [] d = d
last_end (e ∷ es) d = last_end es e.end

-- The loop of `seekg` from an entry on.
unfoldable pub find_entry :
    ℕ → List FileEntry → List FileEntry → CompoundInputFileStream → CompoundInputFileStream
find_entry p before [] s = s
find_entry p before (e ∷ rest) s = elim (in_entry p e) [
  | true ↦ enter e (p - e.start + e.offset) (stand before (e ∷ rest) s)
  | false ↦ find_entry p (e ∷ before) rest s
]

abbrev pub onto {ℓ} : {A : Type ℓ} → List A → List A → List A
onto [] ys = ys
onto (x ∷ xs) ys = onto xs (x ∷ ys)

-- `fileEntries`, from `begin()`.
abbrev pub entries : CompoundInputFileStream → List FileEntry
entries s = onto s.before s.after

unfoldable pub seek_in :
    ℕ → List FileEntry → CompoundInputFileStream → Result CompoundInputFileStream
unfolding find_entry
seek_in p [] s = err seeking_empty
seek_in p (e ∷ es) s =
    if leb (last_end (e ∷ es) 0) p then err seeking_past_end else ok (find_entry p [] (e ∷ es) s)

unfoldable pub seekg : ℕ → CompoundInputFileStream → Result CompoundInputFileStream
unfolding seek_in
seekg p s = seek_in p (entries s) s
