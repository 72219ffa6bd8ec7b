-- ===== src/Compiler/Line/Reads.antt =====
-- src/compiler_util.cpp, `writeLine` and `std::to_string`: which lines of the file read as a numbered
-- label.
use Prim.Native.String.{◌++◌ as str_append, count}
use text.Mathlib.TextLemmas.{append_cancel_left, append_cancel_right, append_inj, length-append}
use native.Mathlib.Nat.{pow-suc}
use kasm.Base.{
  ℕ, zero, suc, ◌+◌, ◌/◌, ◌%◌, ◌^◌, ◌≤◌, ◌<◌, ◌≡◌, refl, sym, ap, ◌∙◌, inl, inr, List, [], ◌∷◌,
  arith, ltb, ◌==◌, if◌then◌else◌, get_or, String, str_eq, str_eq_iff, Bool-cases, lt→ltb, le→ltb,
  ltb→lt, ltb→le, eq_of_==, ==_self, ne_of_==, Bool,
}
use kasm.Compiler.Line.{Line, decimal, to_string, print_line, digits}
use kasm.Compiler.Code.Count.{weigh}
use kasm.Compiler.Code.Labels.{defines}

abbrev digit : ℕ → String
digit n = get_or digits n ""

value_in : List String → String → ℕ
value_in [] s = 0
value_in (d ∷ ds) s = if str_eq d s then 0 else suc (value_in ds s)

digit-value : (n : ℕ) → n < 10 → (value_in digits (digit n) ≡ n) × (count (digit n) ≡ 1)
unfolding value_in
digit-value zero h = (refl, refl)
digit-value (suc zero) h = (refl, refl)
digit-value (suc (suc zero)) h = (refl, refl)
digit-value (suc (suc (suc zero))) h = (refl, refl)
digit-value (suc (suc (suc (suc zero)))) h = (refl, refl)
digit-value (suc (suc (suc (suc (suc zero))))) h = (refl, refl)
digit-value (suc (suc (suc (suc (suc (suc zero)))))) h = (refl, refl)
digit-value (suc (suc (suc (suc (suc (suc (suc zero))))))) h = (refl, refl)
digit-value (suc (suc (suc (suc (suc (suc (suc (suc zero)))))))) h = (refl, refl)
digit-value (suc (suc (suc (suc (suc (suc (suc (suc (suc zero))))))))) h = (refl, refl)
digit-value (suc (suc (suc (suc (suc (suc (suc (suc (suc (suc n)))))))))) h = absurd (omega arith)

digit-inj : (n m : ℕ) → n < 10 → m < 10 → digit n ≡ digit m → n ≡ m
digit-inj n m hn hm e = sym (digit-value n hn).0 ∙ ap (value_in digits) e ∙ (digit-value m hm).0

module _ (k n : ℕ) where
  decimal-one : n < 10 → decimal (suc k) n ≡ digit n
  unfolding decimal
  decimal-one h = rw (lt→ltb n 10 h) refl

  decimal-more : 10 ≤ n → decimal (suc k) n ≡ str_append (decimal k (n / 10)) (digit (n % 10))
  unfolding decimal
  decimal-more h = rw (le→ltb n 10 h) refl

decimal-some : (k n : ℕ) → 1 ≤ count (decimal (suc k) n)
decimal-some k n = elim (Bool-cases (ltb n 10)) [
  | inl h ↦
      let one = ap count (decimal-one k n (ltb→lt n 10 h)) in
      omega (arith, one, (digit-value n (ltb→lt n 10 h)).1)
  | inr h ↦
      let more = ap count (decimal-more k n (ltb→le n 10 h)) in
      omega (
        arith,
        more,
        length-append (decimal k (n / 10)) (digit (n % 10)),
        (digit-value (n % 10) (omega arith)).1,
      )
]

-- A number of one digit has no other number of more.
decimal-one_more :
    (k n m : ℕ) → n < 10 → 10 ≤ m → m < 10 ^ suc k → decimal (suc k) n ≡ decimal (suc k) m → ⊥
decimal-one_more zero n m hn hm room e = omega (arith, hm, room)
decimal-one_more (suc k) n m hn hm room e =
    let one = ap count (decimal-one (suc k) n hn) in
    let more = ap count (decimal-more (suc k) m hm) in
    let same = ap count e in
    let front = decimal-some k (m / 10) in
    omega (
      arith,
      one,
      more,
      same,
      front,
      length-append (decimal (suc k) (m / 10)) (digit (m % 10)),
      (digit-value (m % 10) (omega arith)).1,
      (digit-value n hn).1,
    )

-- Different numbers of at most `k` digits are written differently.
decimal-inj : (k n m : ℕ) → n < 10 ^ k → m < 10 ^ k → decimal k n ≡ decimal k m → n ≡ m
decimal-inj zero n m hn hm e = omega (arith, hn, hm)
decimal-inj (suc k) n m hn hm e =
    let ten = pow-suc 10 k in
    elim (Bool-cases (ltb n 10)) [
      | inl x ↦ elim (Bool-cases (ltb m 10)) [
        | inl y ↦
            let nx = ltb→lt n 10 x in
            let my = ltb→lt m 10 y in
            digit-inj n m nx my (sym (decimal-one k n nx) ∙ e ∙ decimal-one k m my)
        | inr y ↦ absurd (decimal-one_more k n m (ltb→lt n 10 x) (ltb→le m 10 y) hm e)
      ]
      | inr x ↦ elim (Bool-cases (ltb m 10)) [
        | inl y ↦ absurd (decimal-one_more k m n (ltb→lt m 10 y) (ltb→le n 10 x) hn (sym e))
        | inr y ↦
            let nx = ltb→le n 10 x in
            let my = ltb→le m 10 y in
            let both : str_append (decimal k (n / 10)) (digit (n % 10))
                ≡ str_append (decimal k (m / 10)) (digit (m % 10)) =
              sym (decimal-more k n nx) ∙ e ∙ decimal-more k m my in
            let counts = ap count both in
            let (fronts, lasts) = append_inj both (
              omega (
                arith,
                counts,
                length-append (decimal k (n / 10)) (digit (n % 10)),
                length-append (decimal k (m / 10)) (digit (m % 10)),
                (digit-value (n % 10) (omega arith)).1,
                (digit-value (m % 10) (omega arith)).1,
              )) in
            let front =
              decimal-inj k (n / 10) (m / 10) (omega (arith, hn, ten)) (omega (arith, hm, ten))
                fronts in
            let last = digit-inj (n % 10) (m % 10) (omega arith) (omega arith) lasts in
            omega (arith, front, last)
      ]
    ]

-- A numbered label reads as another only if it has the number.
label-reads :
    (m l : ℕ)
    → m < 2 ^ 32
    → l < 2 ^ 32
    → str_eq (print_line (Line.label m)) (print_line (Line.label l)) ≡ (m == l)
unfolding print_line to_string
label-reads m l hm hl = elim (Bool-cases (m == l)) [
  | inl e ↦ (str_eq_iff _ _).1 (ap (λ k. print_line (Line.label k)) (eq_of_== m l e)) ∙ sym e
  | inr e ↦ elim (Bool-cases (str_eq (print_line (Line.label m)) (print_line (Line.label l)))) [
    | inl r ↦ absurd (
        ne_of_== m l e (
          decimal-inj 10 m l (omega (arith, hm)) (omega (arith, hl))
            (append_cancel_right _ _ ":" (append_cancel_left "_" _ _ ((str_eq_iff _ _).0 r)))))
    | inr r ↦ r ∙ sym e
  ]
]

-- The lines of the file that read as the label of a number.
abbrev pub reads_as : ℕ → Line → ℕ
reads_as l x = if str_eq (print_line x) (print_line (Line.label l)) then 1 else 0

abbrev pub read_as : ℕ → List Line → ℕ
read_as l [] = 0
read_as l (x ∷ xs) = reads_as l x + read_as l xs

-- Those of them that are not written as a numbered label, such as the name of a function.
abbrev pub others_read_as : ℕ → List Line → ℕ
others_read_as l [] = 0
others_read_as l (Line.label m ∷ xs) = others_read_as l xs
others_read_as l (x ∷ xs) = reads_as l x + others_read_as l xs

abbrev one_if : Bool → ℕ
one_if b = if b then 1 else 0

-- The lines that read as a number's label are those that define it and the others.
pub read_as-split :
    (ls : List Line) (l : ℕ)
    → l < 2 ^ 32
    → ((n : ℕ) → 2 ^ 32 ≤ n → weigh defines ls n ≡ 0)
    → read_as l ls ≡ weigh defines ls l + others_read_as l ls
read_as-split [] l hl none = refl
read_as-split (Line.label m ∷ xs) l hl none =
    let small : m < 2 ^ 32 = elim (Bool-cases (ltb m (2 ^ 32))) [
      | inl h ↦ ltb→lt m (2 ^ 32) h
      | inr h ↦
          let z = none m (ltb→le m (2 ^ 32) h) in
          let one = ap one_if (==_self m) in absurd (omega (arith, z, one))
    ] in
    let later : (n : ℕ) → 2 ^ 32 ≤ n → weigh defines xs n ≡ 0 = λ n h. omega (arith, none n h) in
    let head = ap one_if (label-reads m l small hl) in
    omega (arith, head, read_as-split xs l hl later)
read_as-split (Line.to_label t m ∷ xs) l hl none =
    omega (arith, read_as-split xs l hl (λ n h. omega (arith, none n h)))
read_as-split (Line.text t ∷ xs) l hl none =
    omega (arith, read_as-split xs l hl (λ n h. omega (arith, none n h)))
