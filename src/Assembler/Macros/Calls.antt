-- ===== src/Assembler/Macros/Calls.antt =====
-- src/assembler.yy, `eofCallback`: its assertions in a sequence of reads and macro calls.
use mathlib.Core.Path.{subst}
use kasm.Base.{
  ℕ, ◌+◌, ◌<◌, ◌^◌, ◌≡◌, ◌≢◌, refl, sym, ap, ◌∙◌, Bool, true, Option, none, some, List, [], ◌∷◌,
  ◌++◌, String, ==_of_ne, if◌then◌else◌, maybe, drop, length, arith, add32,
}
use kasm.Assembler.{Assembler, MacroFunction, lookup}
use kasm.Assembler.Macros.{MacroCall, Reader, call_backs, reader_eof, function_named, call_macro}
use kasm.CompoundInput.{undefined, CompoundInputFileStream, Error, Result, ok, err, ◌>>=◌}
use kasm.CompoundInput.Push.{push_string, push_entry, with_file}
use kasm.CompoundInput.Entry.{SamePlace, SamePlace-Settled}
use kasm.CompoundInput.Reading.{Settled}
use kasm.CompoundInput.Callbacks.{mark, pending}
use kasm.CompoundInput.Listening.{push_entry-listens}
use kasm.CompoundInput.Quiet.{push_entry-Quiet, push_entry-number}
use kasm.Assembler.Macros.Popping.{InStep, Passes, drop-all, reader_eof-Passes}

-- The state after a macro call that went through.
abbrev pushed_on : Reader → MacroFunction → List String → ℕ × CompoundInputFileStream → Reader
pushed_on r f arguments (u, s) = record {
  stream = s;
  macro_call_stack =
      record { uid = u; paramaters = f.paramaters; arguments = arguments } ∷ r.macro_call_stack;
}

mark-number : (u : ℕ) → u ≢ 0 → mark u ≡ u ∷ []
mark-number u h = ap (λ t. if t then [] else u ∷ []) (==_of_ne u 0 h)

pushed_on-InStep :
    (r : Reader) (f : MacroFunction) (arguments : List String) (t : List ℕ) (u : ℕ)
    (s s' : CompoundInputFileStream)
    → InStep r
    → Settled s
    → s.eof_callback ≡ true
    → pending s.after ≡ pending r.stream.after
    → s.uid + 1 < 2 ^ 32
    → push_entry t true s ≡ ok (u, s')
    → InStep (pushed_on r f arguments (u, s'))
unfolding add32
pushed_on-InStep r f arguments t u s s' h settled listens same small pushed =
    let number = push_entry-number t s s' u pushed in
    let q = push_entry-Quiet t true s s' u settled pushed in
    record {
      listens = push_entry-listens t s s' u listens pushed;
      same_numbers =
          q.pending_same
          ∙ ap (λ l. l ++ pending s.after)
              (mark-number u (λ z. absurd (omega (arith, number, z, small))))
          ∙ ap (λ l. u ∷ l) (same ∙ h.same_numbers);
    }

-- `pushString` adds the text to the files first.
record Kept (s s' : CompoundInputFileStream) : Type 0 where
  pub place : SamePlace s s'
  pub same_callback : s'.eof_callback ≡ s.eof_callback
  pub same_uid : s'.uid ≡ s.uid
  pub same_calls : s'.calls ≡ s.calls

abbrev after_file :
    Option (List ℕ)
    → List ℕ
    → CompoundInputFileStream
    → CompoundInputFileStream
    → List ℕ × CompoundInputFileStream
after_file o t s s' = maybe o (t, s') (λ t'. (t', s))

Kept-maybe :
    (o : Option (List ℕ)) (t : List ℕ) (s s' : CompoundInputFileStream)
    → Kept s s'
    → Kept s (after_file o t s s').1
Kept-maybe none t s s' k = k
Kept-maybe (some t') t s s' k = record {
  place = record { same_stream = refl; same_after = refl; same_position = refl };
  same_callback = refl;
  same_uid = refl;
  same_calls = refl;
}

with_file-Kept :
    (k : String) (t : List ℕ) (s : CompoundInputFileStream) → Kept s (with_file k t s).1
unfolding with_file
with_file-Kept k t s = Kept-maybe (lookup k s.files) t s _ (record {
  place = record { same_stream = refl; same_after = refl; same_position = refl };
  same_callback = refl;
  same_uid = refl;
  same_calls = refl;
})

err-ne-ok : {A : Type 0} {e : Error} {a : A} → err e ≡ ok a → ⊥
err-ne-ok h = cc

abbrev with_stack :
    MacroFunction
    → List String
    → Assembler
    → ℕ × CompoundInputFileStream
    → List MacroCall
    → Result (Reader × Assembler)
with_stack f arguments a (u, s) ms = ok (
  record {
    stream = s;
    macro_call_stack = record { uid = u; paramaters = f.paramaters; arguments = arguments } ∷ ms;
  },
  a,
)

abbrev with_call :
    Reader
    → MacroFunction
    → List String
    → Assembler
    → ℕ × CompoundInputFileStream
    → Result (Reader × Assembler)
with_call r f arguments a p =
    maybe (call_backs (drop (length r.stream.calls) p.1.calls) r.macro_call_stack) (err undefined)
      (with_stack f arguments a p)

call-inversion :
    (x : Result (ℕ × CompoundInputFileStream)) (r r' : Reader) (f : MacroFunction)
    (arguments : List String) (a a' : Assembler)
    → (x >>= with_call r f arguments a) ≡ ok (r', a')
    → (p : ℕ × CompoundInputFileStream) × (x ≡ ok p) × (with_call r f arguments a p ≡ ok (r', a'))
call-inversion (ok p) r r' f arguments a a' h = (p, refl, h)
call-inversion (err e) r r' f arguments a a' h = absurd (err-ne-ok h)

-- Where no callback is made, the call goes onto the stack as it is.
with_call-quiet :
    (r : Reader) (f : MacroFunction) (arguments : List String) (a : Assembler)
    (p : ℕ × CompoundInputFileStream)
    → p.1.calls ≡ r.stream.calls
    → with_call r f arguments a p ≡ ok (pushed_on r f arguments p, a)
with_call-quiet r f arguments a p h =
    ap (λ us. maybe (call_backs us r.macro_call_stack) (err undefined) (with_stack f arguments a p))
      (ap (drop (length r.stream.calls)) h ∙ drop-all r.stream.calls)

abbrev called_ok : Reader → Assembler → Result (Reader × Assembler)
called_ok r a = ok (r, a)

same_reader_of : (r r' : Reader) (a a' : Assembler) → called_ok r a ≡ called_ok r' a' → r ≡ r'
same_reader_of r r' a a' h = cc

call_macro-InStep :
    (codes : String → List ℕ) (k : String) (arguments : List String) (a a' : Assembler)
    (r r' : Reader)
    → InStep r
    → Settled r.stream
    → r.stream.uid + 1 < 2 ^ 32
    → call_macro codes k arguments a r ≡ ok (r', a')
    → InStep r'
unfolding call_macro push_string
call_macro-InStep codes k arguments a a' r r' h settled small called =
    let (f, a1) = function_named k a in
    let (t, s) = with_file f.body (codes f.body) r.stream in
    let kept = with_file-Kept f.body (codes f.body) r.stream in
    let ((u, s'), pushed, same) =
      call-inversion (push_entry t true s) r r' f arguments a1 a' called in
    let settled' = SamePlace-Settled kept.place settled in
    let q = push_entry-Quiet t true s s' u settled' pushed in
    let quiet = with_call-quiet r f arguments a1 (u, s') (q.calls_same ∙ kept.same_calls) in
    subst InStep (same_reader_of _ r' a1 a' (sym quiet ∙ same)) (
      pushed_on-InStep r f arguments t u s s' h settled' (kept.same_callback ∙ h.listens)
        (ap pending kept.place.same_after) (omega (arith, small, kept.same_uid)) pushed)

-- The stream after a read or a move within the entry.
abbrev pub moved : ℕ → Reader → Reader
moved p r = record r { stream = record r.stream { position = p } }

-- Moves within the entry, calls of `eof` and macro calls, one after the other; a macro call is made where
-- the stream stands on an entry or has ended, and fewer than 2 ^ 32 - 1 numbers have been given. A
-- `seekg` to another entry is no step.
pub data Reads (codes : String → List ℕ) (r : Reader) : Reader → Type 0 where
  stop : Reads codes r r
  then_move : {r1 : Reader} (p : ℕ) → Reads codes r r1 → Reads codes r (moved p r1)
  then_eof :
      {r1 r2 : Reader} (give b : Bool)
      → Reads codes r r1
      → reader_eof give r1 ≡ some (b, r2)
      → Reads codes r r2
  then_call :
      {r1 r2 : Reader} (k : String) (arguments : List String) (a a' : Assembler)
      → Reads codes r r1
      → Settled r1.stream
      → r1.stream.uid + 1 < 2 ^ 32
      → call_macro codes k arguments a r1 ≡ ok (r2, a')
      → Reads codes r r2

abbrev gives_reader : Bool → Reader → Option (Bool × Reader)
gives_reader b r = some (b, r)

same_reader : (b b' : Bool) (r r' : Reader) → gives_reader b r ≡ gives_reader b' r' → r ≡ r'
same_reader b b' r r' h = cc

Reads-InStep : {codes : String → List ℕ} {r r' : Reader} → Reads codes r r' → InStep r → InStep r'
Reads-InStep stop h = h
Reads-InStep (then_move p reads) h =
    let h' = Reads-InStep reads h in record { listens = h'.listens; same_numbers = h'.same_numbers }
Reads-InStep {r' = r'} (then_eof {r1} give b reads e) h =
    let (b', r2, e', h') = reader_eof-Passes give r1 (Reads-InStep reads h) in
    subst InStep (same_reader b' b r2 r' (sym e' ∙ e)) h'
Reads-InStep (then_call {r1} {r2} k arguments a a' reads settled small called) h =
    call_macro-InStep _ k arguments a a' r1 r2 (Reads-InStep reads h) settled small called

-- From a reader whose callback is set and whose pending numbers are those of its stack, after any
-- sequence of moves within an entry, of calls of `eof` and of macro calls, `eof` in either form
-- passes the assertions of `eofCallback`: each number that it calls is that of the macro call at
-- the back of the stack; the callback is still set afterwards, and the pending numbers are again
-- those of the stack.
pub reader_eof-after_Reads :
    (codes : String → List ℕ) (r r' : Reader) (give : Bool)
    → InStep r
    → Reads codes r r'
    → Passes give r'
reader_eof-after_Reads codes r r' give h reads = reader_eof-Passes give r' (Reads-InStep reads h)
