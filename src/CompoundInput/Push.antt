-- ===== src/CompoundInput/Push.antt =====
-- src/compoundInputFileStream.cpp, `reset`, `open`, `include`, `pushString`, `put`, `pushEntry`: texts put
-- before what was left.
use kasm.Base.{
  ℕ, ◌+◌, ◌-◌, Bool, true, false, ◌||◌, Option, none, some, List, [], ◌∷◌, String, length,
  if◌then◌else◌, maybe, add32,
}
use kasm.Assembler.{lookup, insert}
use kasm.CompoundInput.{
  CompoundInputFileStream, FileEntry, Result, ok, err, ◌>>=◌, enter, entries, eof, is_stub, stand,
  stream_failure, tell_in, text_of, undefined,
}

unfoldable pub reset : CompoundInputFileStream → CompoundInputFileStream
reset s = record s { files = []; before = []; after = []; in_stream = none }

abbrev pub new_entry : List ℕ → ℕ → ℕ → FileEntry
new_entry t start u = record {
  file = some t;
  start = start;
  end = start + length t;
  offset = 0;
  uid = u;
}

-- `start` and `end` moved on by the length of an inserted text.
abbrev pub moved : ℕ → FileEntry → FileEntry
moved n e = record e { start = e.start + n; end = e.end + n }

abbrev pub move_all : ℕ → List FileEntry → List FileEntry
move_all n [] = []
move_all n (e ∷ es) = moved n e ∷ move_all n es

-- The rest of the entry, from the place where it was cut to the end of its file.
abbrev pub rest_of : FileEntry → ℕ → ℕ → FileEntry
rest_of e position n =
    let cut = tell_in e position in
    let passed = cut - e.start + e.offset in
    record {
      file = e.file;
      start = cut + n;
      end = cut + n + (length (text_of e) - passed);
      offset = passed;
      uid = e.uid;
    }

-- The three ways of `pushEntry` to put an entry of the text `t` under the number `u`, with `it` on it.
unfoldable pub push_first : List ℕ → ℕ → CompoundInputFileStream → CompoundInputFileStream
push_first t u s = enter (new_entry t 0 u) 0 (stand [] (new_entry t 0 u ∷ []) s)

unfoldable pub push_before :
    List ℕ → ℕ → FileEntry → List FileEntry → CompoundInputFileStream → CompoundInputFileStream
push_before t u e rest s =
    let new = new_entry t e.end u in enter new 0 (stand s.before (new ∷ e ∷ rest) s)

unfoldable pub push_inside :
    List ℕ → ℕ → FileEntry → List FileEntry → CompoundInputFileStream → CompoundInputFileStream
unfolding tell_in
push_inside t u e rest s =
    let cut = tell_in e s.position in
    let new = new_entry t cut u in
    enter new 0 (
      stand (record e { end = cut; uid = 0 } ∷ s.before)
        (new ∷ rest_of e s.position (length t) ∷ move_all (length t) rest) s)

unfoldable pub push_on :
    List ℕ → ℕ → Bool → List FileEntry → CompoundInputFileStream → Result CompoundInputFileStream
push_on t u b [] s = err undefined
push_on t u b (e ∷ rest) s =
    if b || is_stub e then ok (push_before t u e rest s) else ok (push_inside t u e rest s)

abbrev pub push_at : List ℕ → ℕ → Bool × CompoundInputFileStream → Result CompoundInputFileStream
push_at t u (b, s) = push_on t u b s.after s

unfoldable pub push_by :
    List FileEntry → List ℕ → ℕ → CompoundInputFileStream → Result CompoundInputFileStream
unfolding eof
push_by [] t u s = ok (push_first t u s)
push_by (_ ∷ _) t u s = push_at t u (eof true s)

-- `++uid` where the entry is to be numbered, and the number of the entry.
abbrev pub count_uid : Bool → CompoundInputFileStream → ℕ × CompoundInputFileStream
count_uid true s = (add32 s.uid 1, record s { uid = add32 s.uid 1 })
count_uid false s = (0, s)

-- `pushEntry`, on the text that its name stands for. It returns `it->uid`, which is `newUid`.
unfoldable pub push_entry :
    List ℕ → Bool → CompoundInputFileStream → Result (ℕ × CompoundInputFileStream)
unfolding push_by
push_entry t set_uid s =
    let (u, s') = count_uid set_uid s in push_by (entries s') t u s' >>= λ s''. ok (u, s'')

-- The text of a name: the one that the table has, or the new one, which is recorded.
unfoldable pub with_file :
    String → List ℕ → CompoundInputFileStream → List ℕ × CompoundInputFileStream
with_file k t s =
    maybe (lookup k s.files) (t, record s { files = insert k t s.files }) (λ t'. (t', s))

-- `include`. `disk` gives the bytes of a file that can be opened.
unfoldable pub include :
    (String → Option (List ℕ))
    → String
    → Bool
    → CompoundInputFileStream
    → Result (ℕ × CompoundInputFileStream)
unfolding push_entry
include disk k set_uid s =
    maybe (maybe (lookup k s.files) (disk k) some) (err stream_failure)
      (λ t. let (t', s') = with_file k t s in push_entry t' set_uid (record s' { identifier = k }))

unfoldable pub open_file :
    (String → Option (List ℕ))
    → String
    → Bool
    → CompoundInputFileStream
    → Result (ℕ × CompoundInputFileStream)
unfolding include reset
open_file disk k set_uid s = include disk k set_uid (reset s)

-- `pushString`. `codes` gives the bytes of a string.
unfoldable pub push_string :
    (String → List ℕ)
    → String
    → Bool
    → CompoundInputFileStream
    → Result (ℕ × CompoundInputFileStream)
unfolding push_entry
push_string codes str set_uid s =
    let (t, s') = with_file str (codes str) s in push_entry t set_uid s'

-- `put`, on the string of one character: the argument `setUid` is not passed on.
unfoldable pub put :
    (String → List ℕ)
    → String
    → Bool
    → CompoundInputFileStream
    → Result (ℕ × CompoundInputFileStream)
unfolding push_string
put codes c set_uid s = push_string codes c false s

unfoldable pub set_callback : Bool → CompoundInputFileStream → CompoundInputFileStream
set_callback b s = record s { eof_callback = b }
