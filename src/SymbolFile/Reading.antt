-- ===== src/SymbolFile/Reading.antt =====
-- src/assembler_util.cpp, `saveSymbolTable`, and the loop that reads the file: what comes back.
use mathlib.Core.List.{append-nil}
use kasm.Base.{
  ℕ, zero, suc, ◌%◌, ◌^◌, ◌<◌, ◌≡◌, refl, sym, ap, ◌∙◌, true, false, none, some, List, [], ◌∷◌,
  ◌++◌, String, le→leb, length, length-append, take, drop, replicate, length-replicate,
  if◌then◌else◌, maybe, arith, IsWord,
}
use kasm.Builder.{word_bytes}
use kasm.Builder.Image.{read_word-word_bytes}
use kasm.Vm.Memory.{read_word}
use kasm.Assembler.{save_symbol_table}
use kasm.SymbolFile.{
  Input, Uninitialised, read, over, after_location, after_label, after_size, read_entry,
  read_entries, opened,
}

-- Names of less than 256 bytes and locations of 32 bits.
abbrev pub Storable : (String → List ℕ) → List (String × ℕ) → Type 0
Storable codes [] = Unit
Storable codes ((k, l) ∷ t) = (length (codes k) < 2 ^ 8) × IsWord l × Storable codes t

abbrev pub listed : (String → List ℕ) → List (String × ℕ) → List (List ℕ × ℕ)
listed codes [] = []
listed codes ((k, l) ∷ t) = (codes k, l) ∷ listed codes t

module _ {ℓ} {A : Type ℓ} where
  take-front : (xs ys : List A) → take (length xs) (xs ++ ys) ≡ xs
  take-front [] ys = refl
  take-front (x ∷ xs) ys = ap (λ l. x ∷ l) (take-front xs ys)

  drop-front : (xs ys : List A) → drop (length xs) (xs ++ ys) ≡ ys
  drop-front [] ys = refl
  drop-front (x ∷ xs) ys = drop-front xs ys

  take-length : (xs : List A) → take (length xs) xs ≡ xs
  take-length [] = refl
  take-length (x ∷ xs) = ap (λ l. x ∷ l) (take-length xs)

  drop-length : (xs : List A) → drop (length xs) xs ≡ []
  drop-length [] = refl
  drop-length (x ∷ xs) = drop-length xs

-- A read of exactly the bytes at the front.
read-front : (xs ys : List ℕ) → read (length xs) (opened (xs ++ ys)) ≡ (xs, opened ys)
unfolding read opened
read-front xs ys =
    rw
      (
        le→leb (length xs) (length (xs ++ ys)) (omega (arith, length-append xs ys)),
        take-front xs ys,
        drop-front xs ys,
      )
      refl

over-all : (got old : List ℕ) → length got ≡ length old → over got old ≡ got
unfolding over
over-all got old h = rw (h, drop-length old) (append-nil got)

-- The bytes of one entry.
abbrev entry_bytes : List ℕ → ℕ → List ℕ → List ℕ
entry_bytes c l rest = length c ∷ (c ++ (word_bytes l ++ rest))

module _ (g : Uninitialised) (c : List ℕ) (l : ℕ) (rest : List ℕ) (h : IsWord l) where
  after_location-front :
      after_location g c (read 4 (opened (word_bytes l ++ rest))) ≡ ((c, l), opened rest)
  unfolding after_location read word_bytes
  after_location-front =
      ap (after_location g c) (read-front (word_bytes l) rest)
      ∙ ap (λ w. ((c, read_word w), opened rest))
          (over-all (word_bytes l) (word_bytes g.location) refl ∙ sym (append-nil (word_bytes l)))
      ∙ ap (λ n. ((c, n), opened rest)) (read_word-word_bytes l [] h)

  after_label-front :
      after_label g (length c) (read (length c) (opened (c ++ (word_bytes l ++ rest))))
      ≡ ((c, l), opened rest)
  unfolding after_label
  after_label-front =
      ap (after_label g (length c)) (read-front c (word_bytes l ++ rest))
      ∙ ap (λ x. after_location g x (read 4 (opened (word_bytes l ++ rest))))
          (over-all c (replicate (length c) 0) (sym (length-replicate (length c) 0)))
      ∙ after_location-front

  -- One round on the bytes of an entry.
  read_entry-front : read_entry g (opened (entry_bytes c l rest)) ≡ ((c, l), opened rest)
  unfolding read_entry after_size over
  read_entry-front =
      ap (after_size g) (read-front (length c ∷ []) (c ++ (word_bytes l ++ rest)))
      ∙ after_label-front

saved_lem :
    (codes : String → List ℕ) (k : String) (l : ℕ) (t : List (String × ℕ))
    → length (codes k) < 2 ^ 8
    → save_symbol_table codes ((k, l) ∷ t) ≡ entry_bytes (codes k) l (save_symbol_table codes t)
unfolding save_symbol_table
saved_lem codes k l t h =
    let n : length (codes k) % 2 ^ 8 ≡ length (codes k) = omega arith in
    rw (n, take-length (codes k)) refl

-- The entry of the round that meets the end: a label of as many zeros as the uninitialised size says,
-- at the uninitialised location.
abbrev pub stray : Uninitialised → List ℕ × ℕ
stray g = (replicate g.label_size 0, g.location)

read_entry-end :
    (g : Uninitialised)
    → IsWord g.location
    → read_entry g (opened []) ≡ (stray g, record { left = []; at_eof = true })
unfolding read_entry after_size after_label after_location over read opened
read_entry-end g h =
    ap (λ n. ((replicate g.label_size 0, n), record { left = []; at_eof = true }))
      (ap read_word (sym (append-nil (word_bytes g.location)))
        ∙ read_word-word_bytes g.location [] h)

module _ (fuel : ℕ) (g : ℕ → Uninitialised) (i : Input) where
  read_entries-round :
      {e : List ℕ × ℕ} {i' : Input}
      → i.at_eof ≡ false
      → read_entry (g 0) i ≡ (e, i')
      → read_entries (suc fuel) g i
        ≡ maybe (read_entries fuel (λ k. g (suc k)) i') none (λ es. some (e ∷ es))
  unfolding read_entries
  read_entries-round {e} {i'} open_yet h =
      ap
        (λ (x : (List ℕ × ℕ) × Input).
          if i.at_eof
          then some []
          else maybe (read_entries fuel (λ k. g (suc k)) x.1) none (λ es. some (x.0 ∷ es)))
        h
      ∙ ap
          (λ b.
            if b
            then some []
            else maybe (read_entries fuel (λ k. g (suc k)) i') none (λ es. some (e ∷ es)))
          open_yet

read_entries-eof :
    (fuel : ℕ) (g : ℕ → Uninitialised) (l : List ℕ)
    → read_entries fuel g (record { left = l; at_eof = true }) ≡ some []
unfolding read_entries
read_entries-eof zero g l = refl
read_entries-eof (suc fuel) g l = refl

-- The loop returns on the file that `saveSymbolTable` writes for a table of names below 256 bytes
-- and locations of 32 bits, whatever the variables hold before they are read: it gives the entries
-- in their order, and after them one more, made of the uninitialised variables of the last round.
pub read_entries-save_symbol_table :
    (fuel : ℕ) (g : ℕ → Uninitialised) (codes : String → List ℕ) (t : List (String × ℕ))
    → Storable codes t
    → IsWord (g (length t)).location
    → length t < fuel
    → read_entries fuel g (opened (save_symbol_table codes t))
      ≡ some (listed codes t ++ stray (g (length t)) ∷ [])
unfolding opened save_symbol_table
read_entries-save_symbol_table zero g codes t h w enough = absurd (omega arith)
read_entries-save_symbol_table (suc fuel) g codes [] h w enough =
    read_entries-round fuel g (opened []) refl (read_entry-end (g 0) w)
    ∙ ap (λ r. maybe r none (λ es. some (stray (g 0) ∷ es)))
        (read_entries-eof fuel (λ k. g (suc k)) [])
read_entries-save_symbol_table (suc fuel) g codes ((k, l) ∷ t) (hk, hl, ht) w enough =
    ap (λ b. read_entries (suc fuel) g (opened b)) (saved_lem codes k l t hk)
    ∙ read_entries-round fuel g (opened (entry_bytes (codes k) l (save_symbol_table codes t))) refl
        (read_entry-front (g 0) (codes k) l (save_symbol_table codes t) hl)
    ∙ ap (λ r. maybe r none (λ es. some ((codes k, l) ∷ es)))
        (read_entries-save_symbol_table fuel (λ n. g (suc n)) codes t ht w (omega arith))
