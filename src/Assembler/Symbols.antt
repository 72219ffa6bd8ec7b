-- ===== src/Assembler/Symbols.antt =====
-- src/assembler_util.cpp, `defineLabel` and `defineMacro`: what the tables hold afterwards.
use kasm.Base.{
  ℕ, ◌≡◌, ◌≢◌, refl, ap, sym, ◌∙◌, inl, inr, true, false, some, List, [], ◌∷◌, String, str_eq,
  str_eq_iff, if◌then◌else◌, Bool-cases,
}
use kasm.Assembler.{
  Assembler, Error, ok, err, lookup, insert, is_identifier_defined, define_label, define_macro,
}

str_eq_self : (k : String) → str_eq k k ≡ true
str_eq_self k = (str_eq_iff k k).1 refl

str_eq_of_ne : (j k : String) → j ≢ k → str_eq j k ≡ false
str_eq_of_ne j k h = elim (Bool-cases (str_eq j k)) [
  | inl e ↦ absurd (h ((str_eq_iff j k).0 e))
  | inr e ↦ e
]

module _ {V : Type 0} where
  pub lookup-insert_self :
      (k : String) (v : V) (m : List (String × V)) → lookup k (insert k v m) ≡ some v
  unfolding lookup insert
  lookup-insert_self k v [] = rw (str_eq_self k) refl
  lookup-insert_self k v ((j, w) ∷ m) = elim (Bool-cases (str_eq j k)) [
    | inl e ↦ rw (e, str_eq_self k) refl
    | inr e ↦ rw (e, e) (lookup-insert_self k v m)
  ]

  pub lookup-insert_ne :
      (j k : String) (v : V) (m : List (String × V)) → j ≢ k → lookup j (insert k v m) ≡ lookup j m
  unfolding lookup insert
  lookup-insert_ne j k v [] h = rw (str_eq_of_ne k j (λ e. h (sym e))) refl
  lookup-insert_ne j k v ((i, w) ∷ m) h = elim (Bool-cases (str_eq i k)) [
    | inl e ↦
        let p = (str_eq_iff i k).0 e in
        rw (e, str_eq_of_ne k j (λ q. h (sym q)), str_eq_of_ne i j (λ q. h (sym (sym p ∙ q)))) refl
    | inr e ↦ rw e (ap (λ r. if str_eq i j then some w else r) (lookup-insert_ne j k v m h))
  ]

-- A defined label: found with its location, the other labels as before, and its name taken.
pub record Defines (k : String) (l : ℕ) (a b : Assembler) : Type 0 where
  pub found : lookup k b.label_locations ≡ some l
  pub others : (j : String) → j ≢ k → lookup j b.label_locations ≡ lookup j a.label_locations
  pub taken : is_identifier_defined b k ≡ true
  pub label_again : (l' : ℕ) → define_label k l' b ≡ err (Error.redefined_identifier k)
  pub macro_again : (v : String) → define_macro k v b ≡ err (Error.redefined_identifier k)

-- `defineLabel` on a name that no table has defines the label: the table then finds it at its
-- location, every other name is found as before, and a second definition of the name, as a label
-- or as a macro, is the error that names it.
pub define_label-Defines :
    (k : String) (l : ℕ) (a : Assembler)
    → is_identifier_defined a k ≡ false
    → (b : Assembler) × (define_label k l a ≡ ok b) × Defines k l a b
unfolding define_label define_macro is_identifier_defined
define_label-Defines k l a h =
    let b = record a { label_locations = insert k l a.label_locations } in
    let f = lookup-insert_self k l a.label_locations in
    (
      b,
      rw h refl,
      record {
        found = f;
        others = λ j n. lookup-insert_ne j k l a.label_locations n;
        taken = rw f refl;
        label_again = λ l'. rw f refl;
        macro_again = λ v. rw f refl;
      },
    )
