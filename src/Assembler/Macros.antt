-- ===== src/Assembler/Macros.antt =====
-- src/assembler.yy, `eofCallback` and the stack of macro calls, with the input stream that both share.
pub mod Popping
pub mod Calls
use kasm.Base.{
  ℕ, Bool, true, Option, none, some, List, [], ◌∷◌, String, ◌==◌, if◌then◌else◌, maybe, bind, drop,
  length,
}
use kasm.Assembler.{Assembler, MacroFunction, lookup, insert}
use kasm.CompoundInput.{CompoundInputFileStream, Result, undefined, err, ok, err, ◌>>=◌, eof}
use kasm.CompoundInput.Push.{push_string}

pub record MacroCall : Type 0 where
  pub uid : ℕ
  pub paramaters : List String
  pub arguments : List String

-- `in` and `macroCallStack`, whose back is the head of the list.
pub record Reader : Type 0 where
  pub stream : CompoundInputFileStream
  pub macro_call_stack : List MacroCall

-- `eofCallback`; `none` where an assertion fails.
abbrev pub eof_callback : ℕ → List MacroCall → Option (List MacroCall)
eof_callback u [] = none
eof_callback u (m ∷ ms) = if u == m.uid then some ms else none

abbrev pub call_backs : List ℕ → List MacroCall → Option (List MacroCall)
call_backs [] ms = some ms
call_backs (u ∷ us) ms = bind (eof_callback u ms) (call_backs us)

-- `in.eof(…)`, with `eofCallback` set: the stream records the numbers that it calls back with.
unfoldable pub reader_eof : Bool → Reader → Option (Bool × Reader)
reader_eof give r =
    let (b, s) = eof give r.stream in
    bind (call_backs (drop (length r.stream.calls) s.calls) r.macro_call_stack)
      (λ ms. some (b, record { stream = s; macro_call_stack = ms }))

-- `assembler->macroFunctions[name]` adds an empty function where there is none.
abbrev pub function_named : String → Assembler → MacroFunction × Assembler
function_named k a =
    maybe (lookup k a.macro_functions)
      (
        record { paramaters = []; body = "" },
        record a {
          macro_functions = insert k (record { paramaters = []; body = "" }) a.macro_functions;
        },
      )
      (λ f. (f, a))

-- The action of a macro call: the body into the input, and, after the callbacks that this makes, the
-- call onto the stack. An assertion of a callback that fails is `undefined` here.
unfoldable pub call_macro :
    (String → List ℕ) → String → List String → Assembler → Reader → Result (Reader × Assembler)
call_macro codes k arguments a r =
    let (f, a') = function_named k a in
    push_string codes f.body true r.stream >>= λ (u, s).
    maybe (call_backs (drop (length r.stream.calls) s.calls) r.macro_call_stack) (err undefined)
      (λ ms. ok (
        record {
          stream = s;
          macro_call_stack =
              record { uid = u; paramaters = f.paramaters; arguments = arguments } ∷ ms;
        },
        a',
      ))
