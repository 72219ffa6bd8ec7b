-- ===== src/Assembler/Macros/Popping.antt =====
-- src/assembler.yy, `eofCallback`: its assertions in a call of `eof`.
use mathlib.Core.List.{append_assoc}
use kasm.Base.{
  ℕ, ◌≡◌, refl, sym, ap, ◌∙◌, Bool, true, Option, none, some, List, [], ◌∷◌, ◌++◌, ◌==◌, ==_self,
  if◌then◌else◌, bind, drop, length,
}
use kasm.Assembler.Macros.{MacroCall, Reader, call_backs, reader_eof}
use kasm.CompoundInput.{CompoundInputFileStream, eof}
use kasm.CompoundInput.Callbacks.{pending, all_calls, eof-all_calls, eof-listens}
use kasm.CompoundInput.Extending.{eof-Extends}

abbrev pub uids : List MacroCall → List ℕ
uids [] = []
uids (m ∷ ms) = m.uid ∷ uids ms

-- The callback is set, and the numbers that the stream has still to call are those of the stack.
pub record InStep (r : Reader) : Type 0 where
  pub listens : r.stream.eof_callback ≡ true
  pub same_numbers : pending r.stream.after ≡ uids r.macro_call_stack

pub drop-append : (xs ys : List ℕ) → drop (length xs) (xs ++ ys) ≡ ys
drop-append [] ys = refl
drop-append (x ∷ xs) ys = drop-append xs ys

pub drop-all : (xs : List ℕ) → drop (length xs) xs ≡ []
drop-all [] = refl
drop-all (x ∷ xs) = drop-all xs

pub append-cancel : (xs ys zs : List ℕ) → xs ++ ys ≡ xs ++ zs → ys ≡ zs
append-cancel xs ys zs h = sym (drop-append xs ys) ∙ ap (drop (length xs)) h ∙ drop-append xs zs

nil-ne-cons : {x : ℕ} {xs : List ℕ} → [] ≡ x ∷ xs → ⊥
nil-ne-cons h = cc

-- Calls of the first numbers of the stack pop these.
call_backs-uids :
    (us rest : List ℕ) (ms : List MacroCall)
    → uids ms ≡ us ++ rest
    → (ms' : List MacroCall) × (call_backs us ms ≡ some ms') × (uids ms' ≡ rest)
call_backs-uids [] rest ms h = (ms, refl, h)
call_backs-uids (u ∷ us) rest [] h = absurd (nil-ne-cons h)
call_backs-uids (u ∷ us) rest (m ∷ ms) h =
    let same : u ≡ m.uid = cc in
    let later : uids ms ≡ us ++ rest = cc in
    let (ms', e, left) = call_backs-uids us rest ms later in
    (
      ms',
      ap (λ t. bind (if t then some ms else none) (call_backs us))
            (ap (λ k. u == k) (sym same) ∙ ==_self u)
          ∙ e,
      left,
    )

-- `eof` passes its assertions.
abbrev pub Passes : Bool → Reader → Type 0
Passes give r = (b : Bool) × (r' : Reader) × (reader_eof give r ≡ some (b, r')) × InStep r'

abbrev finish : Bool → CompoundInputFileStream → List MacroCall → Option (Bool × Reader)
finish b s ms = some (b, record { stream = s; macro_call_stack = ms })

pub reader_eof-Passes : (give : Bool) (r : Reader) → InStep r → Passes give r
unfolding reader_eof all_calls
reader_eof-Passes give r h =
    let (b, s) = eof give r.stream in
    let x = eof-Extends give r.stream in
    let all : x.new_calls ++ pending s.after ≡ pending r.stream.after =
      append-cancel r.stream.calls _ _ (
        sym (append_assoc r.stream.calls x.new_calls (pending s.after))
        ∙ ap (λ l. l ++ pending s.after) (sym x.appended)
        ∙ eof-all_calls give r.stream h.listens) in
    let (ms', e, left) =
      call_backs-uids x.new_calls (pending s.after) r.macro_call_stack
        (sym h.same_numbers ∙ sym all) in
    (
      b,
      record { stream = s; macro_call_stack = ms' },
      ap (λ us. bind (call_backs us r.macro_call_stack) (finish b s))
            (ap (drop (length r.stream.calls)) x.appended ∙ drop-append r.stream.calls x.new_calls)
          ∙ ap (λ o. bind o (finish b s)) e,
      record { listens = eof-listens give r.stream h.listens; same_numbers = sym left },
    )
