-- ===== src/Disk/Entries.antt =====
-- What src/decodemem.c `solve_path` finds in a directory.
use jaris.Base.{
  ℕ, zero, suc, ◌+◌, ◌-◌, ◌<◌, ◌≤◌, ◌≡◌, refl, ap, ◌∙◌, arith, Bool, true, false, not, List, [],
  ◌∷◌, length, All, ltb, ◌==◌, Option, none, some, if◌then◌else◌,
}
use jaris.Base.Outcome.{Outcome, ok, failed, out_of_fuel, ◌>>=◌, ◌>>◌, require, require-true}
use jaris.Disk.Image.{Sectors}
use jaris.Disk.Directory.{starts_with}
use jaris.Assemble.Lex.{span}
use jaris.Disk.Paths.{
  read, strleq, char_at, byte_at, find_zero, find_entry, entry_sector, signed_word, image_size,
  go_on, solve_part, solve_fuel, solve_path,
}

abbrev IsText : List ℕ → Type 0
IsText = All (λ c. (c == 0) ≡ false)

-- The characters of a text at a place, and the zero behind them.
unfoldable pub Written : (ℕ → ℕ) → ℕ → List ℕ → Type 0
Written bytes p [] = bytes p ≡ 0
Written bytes p (c ∷ l) = (bytes p ≡ c) × Written bytes (suc p) l

==-comm : (a b : ℕ) → (a == b) ≡ (b == a)
==-comm a b = ground arith

-- `strleq` at a name tells whether it starts with the other text.
strleq-starts_with :
    (a : ℕ → Outcome ℕ) (bytes : ℕ → ℕ) (p : ℕ) (entry name : List ℕ)
    → ((i : ℕ) → i ≤ length entry → a i ≡ ok (bytes (p + i)))
    → IsText name
    → IsText entry
    → Written bytes p entry
    → strleq a (char_at name) (length name) ≡ ok (starts_with name entry)
unfolding strleq char_at starts_with Written
strleq-starts_with a bytes p entry [] h n e w = refl
strleq-starts_with a bytes p [] (c ∷ name) h n e w =
    let first : a 0 ≡ ok 0 = h 0 (omega arith) ∙ ap (λ q. ok (bytes q)) (omega arith) ∙ ap ok w in
    rw first (rw n.0 refl)
strleq-starts_with a bytes p (d ∷ entry) (c ∷ name) h n e w =
    let first : a 0 ≡ ok d = h 0 (omega arith) ∙ ap (λ q. ok (bytes q)) (omega arith) ∙ ap ok w.0 in
    let rest =
      strleq-starts_with (λ i. a (suc i)) bytes (suc p) entry name
        (λ i le. h (suc i) (omega (arith, le)) ∙ ap (λ q. ok (bytes q)) (omega arith)) n.1 e.1
        w.1 in
    rw first (rw e.0 (rw n.0 (rw (==-comm d c) (same (c == d) _ _ rest))))
  where
    same :
        (b : Bool) (x : Outcome Bool) (y : Bool)
        → x ≡ ok y
        → (if not b then ok false else x) ≡ ok (if b then y else false)
    same true x y q = q
    same false x y q = refl

find_zero-Written :
    (room : ℕ) (bytes : ℕ → ℕ) (p : ℕ) (name : List ℕ)
    → length name < room
    → IsText name
    → Written bytes p name
    → find_zero room bytes p ≡ ok (p + length name)
unfolding find_zero Written
find_zero-Written zero bytes p name h t w = absurd (omega (arith, h))
find_zero-Written (suc room) bytes p [] h t w = rw w (ap ok (omega arith))
find_zero-Written (suc room) bytes p (c ∷ name) h t w = rw w.0 (
    rw t.0
      (find_zero-Written room bytes (suc p) name (omega (arith, h)) t.1 w.1 ∙ ap ok (omega arith)))

==-false : (a : ℕ) → (a ≡ 0 → ⊥) → (a == 0) ≡ false
==-false a h = ground (arith, h)

-- The entries of a directory from a place on: a name, its zero and the number of a sector, up to a
-- name that is empty, all within the image.
unfoldable pub Entries : (ℕ → ℕ) → ℕ → List (List ℕ × ℕ) → Type 0
Entries bytes p [] = bytes p ≡ 0
Entries bytes p ((name, sec) ∷ entries) =
    (bytes p ≡ 0 → ⊥)
    × IsText name
    × (p + length name + 3 < image_size)
    × Written bytes p name
    × (signed_word bytes (p + length name + 1) ≡ sec)
    × Entries bytes (p + length name + 3) entries

-- The first entry whose name starts with the text; 0 when there is none.
unfoldable pub first_with : List ℕ → List (List ℕ × ℕ) → ℕ
first_with name [] = 0
first_with name ((entry, sec) ∷ entries) =
    let later = first_with name entries in if starts_with name entry then sec else later

-- What is made of an entry that is found.
abbrev resolved : (ℕ → ℕ) → Option ℕ → Outcome ℕ
resolved bytes none = ok 0
resolved bytes (some p) = entry_sector bytes p

-- What is made of the byte behind an entry that is not the one, and of the entry at `p`.
abbrev after_entry : ℕ → (ℕ → ℕ) → List ℕ → ℕ → ℕ → Outcome (Option ℕ)
after_entry fuel bytes name p next = elim (next == 0) as (λ _. Outcome (Option ℕ)) [
  | true ↦ ok none
  | false ↦ find_entry fuel bytes name p
]

abbrev next_entry : ℕ → (ℕ → ℕ) → List ℕ → ℕ → Outcome (Option ℕ)
next_entry fuel bytes name z = read bytes (z + 3) >>= after_entry fuel bytes name (z + 3)

abbrev entry_or : ℕ → Outcome (Option ℕ) → Bool → Outcome (Option ℕ)
entry_or p later b = elim b as (λ _. Outcome (Option ℕ)) [ true ↦ ok (some p) | false ↦ later ]

read-in : (bytes : ℕ → ℕ) (p : ℕ) → p < image_size → read bytes p ≡ ok (bytes p)
unfolding read
read-in bytes p h = require-true (ltb p image_size) _ (ground (arith, h))

find_entry-first_with :
    (fuel : ℕ) (bytes : ℕ → ℕ) (name : List ℕ) (p : ℕ) (first : List ℕ × ℕ)
    (entries : List (List ℕ × ℕ))
    → length entries < fuel
    → IsText name
    → Entries bytes p (first ∷ entries)
    → (find_entry fuel bytes name p >>= resolved bytes) ≡ ok (first_with name (first ∷ entries))
unfolding find_entry Entries first_with entry_sector
find_entry-first_with zero bytes name p first entries h n e = absurd (omega (arith, h))
find_entry-first_with (suc fuel) bytes name p (entry, sec) entries h n e =
    ap
      (λ o.
        (o >>= entry_or p (find_zero (image_size - p) bytes p >>= next_entry fuel bytes name))
        >>= resolved bytes)
      (strleq-starts_with (λ i. read bytes (p + i)) bytes p entry name
        (λ i le. read-in bytes (p + i) (omega (arith, le, e.2))) n e.1 e.3)
    ∙ matches (starts_with name entry) (
        goes_on entries e.5 (omega (arith, h)) (λ first rest lt f.
          find_entry-first_with fuel bytes name (p + length entry + 3) first rest lt n f))
  where
    zero_at : find_zero (image_size - p) bytes p ≡ ok (p + length entry)
    zero_at = find_zero-Written (image_size - p) bytes p entry (omega (arith, e.2)) e.1 e.3

    behind : read bytes (p + length entry + 3) ≡ ok (bytes (p + length entry + 3))
    behind = read-in bytes (p + length entry + 3) e.2

    Rest : List (List ℕ × ℕ) → Type 0
    Rest entries =
        (next_entry fuel bytes name (p + length entry) >>= resolved bytes)
        ≡ ok (first_with name entries)

    goes_on :
        (entries : List (List ℕ × ℕ))
        → Entries bytes (p + length entry + 3) entries
        → length entries < suc fuel
        → ((first : List ℕ × ℕ) (rest : List (List ℕ × ℕ))
            → length rest < fuel
            → Entries bytes (p + length entry + 3) (first ∷ rest)
            → (find_entry fuel bytes name (p + length entry + 3) >>= resolved bytes)
              ≡ ok (first_with name (first ∷ rest)))
        → Rest entries
    goes_on [] f lt again =
        ap (λ o. (o >>= after_entry fuel bytes name (p + length entry + 3)) >>= resolved bytes)
          (behind ∙ ap ok f)
    goes_on (next ∷ rest) f lt again =
        ap (λ o. (o >>= after_entry fuel bytes name (p + length entry + 3)) >>= resolved bytes)
          behind
        ∙ ap
            (λ b.
              (elim b as (λ _. Outcome (Option ℕ)) [
                | true ↦ ok none
                | false ↦ find_entry fuel bytes name (p + length entry + 3)
              ])
              >>= resolved bytes)
            (==-false (bytes (p + length entry + 3)) f.0)
        ∙ again next rest (omega (arith, lt)) f

    sector_at :
        (z : Outcome ℕ)
        → z ≡ ok (p + length entry)
        → (z >>= λ z. require (ltb (z + 2) image_size) >> ok (signed_word bytes (z + 1))) ≡ ok sec
    sector_at z q =
        ap (λ z. z >>= λ z. require (ltb (z + 2) image_size) >> ok (signed_word bytes (z + 1))) q
        ∙ require-true (ltb (p + length entry + 2) image_size) _ (ground (arith, e.2))
        ∙ ap ok e.4

    matches :
        (b : Bool)
        → Rest entries
        → (entry_or p (find_zero (image_size - p) bytes p >>= next_entry fuel bytes name) b
            >>= resolved bytes)
          ≡ ok (if b then sec else first_with name entries)
    matches true r = sector_at (find_zero (image_size - p) bytes p) zero_at
    matches false r = ap (λ o. (o >>= next_entry fuel bytes name) >>= resolved bytes) zero_at ∙ r

span-All : (test : ℕ → Bool) (l : List ℕ) → All (λ c. test c ≡ true) l → span test l ≡ (l, [])
unfolding span
span-All test [] h = refl
span-All test (c ∷ l) h = rw h.0 (rw (span-All test l h.1) refl)

-- The end of a path.
last_part :
    (solve : List ℕ → ℕ → Outcome ℕ) (bytes : ℕ → ℕ) (o : Outcome (Option ℕ))
    → (o >>= λ found. elim found as (λ _. Outcome ℕ) [
      | none ↦ ok 0
      | some p ↦ (entry_sector bytes p >>= go_on solve [])
    ])
      ≡ (o >>= resolved bytes)
unfolding go_on
last_part solve bytes (ok none) = refl
last_part solve bytes (ok (some p)) = unit (entry_sector bytes p)
  where
    unit : (o : Outcome ℕ) → (o >>= λ sec. ok sec) ≡ o
    unit (ok sec) = refl
    unit failed = refl
    unit out_of_fuel = refl
last_part solve bytes failed = refl
last_part solve bytes out_of_fuel = refl

-- A path of one part leads to the sector of the first entry of the root whose name starts with it,
-- as signed characters spell that sector, and to 0 when there is none.
pub solve_path-first_with :
    (d : Sectors) (path : List ℕ) (first : List ℕ × ℕ) (entries : List (List ℕ × ℕ))
    → 0 < length path
    → IsText path
    → All (λ c. not (c == b'/') ≡ true) path
    → length entries < image_size
    → Entries (byte_at d) 259 (first ∷ entries)
    → solve_path d (some path) ≡ ok (first_with path (first ∷ entries))
unfolding solve_path solve_fuel solve_part
solve_path-first_with d [] first entries h t s l e = absurd (omega (arith, h))
solve_path-first_with d (c ∷ path) first entries h t s l e =
    let solve = solve_fuel (length (c ∷ path)) d in
    ap (solve_part solve d 1) (span-All (λ c. not (c == b'/')) (c ∷ path) s)
    ∙ last_part solve (byte_at d) (find_entry image_size (byte_at d) (c ∷ path) 259)
    ∙ find_entry-first_with image_size (byte_at d) (c ∷ path) 259 first entries l t e
