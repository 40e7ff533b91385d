-- ===== src/Disk/Paths.antt =====
-- src/decodemem.c `strleq` and `solve_path`. A pointer into the image is the number of its byte, so
-- it may run on into the next sector; beyond the last one it ends in `failed`. A `char` is signed.
use jaris.Base.{
  ℕ, zero, suc, ◌+◌, ◌-◌, ◌*◌, ◌/◌, ◌%◌, Bool, true, false, not, ◌&&◌, ◌||◌, List, [], ◌∷◌, length,
  ltb, ◌==◌, bit_or, Option, none, some, if◌then◌else◌,
}
use jaris.Base.Outcome.{Outcome, ok, failed, out_of_fuel, ◌>>=◌, ◌>>◌, require}
use jaris.Assemble.Lex.{span}
use jaris.Assemble.Parse.{char_word}
use jaris.Disk.Image.{Sectors, sector_count}

-- Of the first text, one byte after the other is read, up to the one that decides.
unfoldable pub strleq : (ℕ → Outcome ℕ) → (ℕ → ℕ) → ℕ → Outcome Bool
strleq a b zero = ok true
strleq a b (suc len) =
    let rest = strleq (λ i. a (suc i)) (λ i. b (suc i)) len in
    a 0 >>= λ c.
    if (c == 0) && (b 0 == 0)
    then ok true
    else if (c == 0) || (b 0 == 0)
    then ok false
    else if not (c == b 0)
    then ok false
    else rest

-- The characters of a text and its terminating zero.
unfoldable pub char_at : List ℕ → ℕ → ℕ
char_at [] i = 0
char_at (c ∷ l) zero = c
char_at (c ∷ l) (suc i) = char_at l i

unfoldable pub byte_at : Sectors → ℕ → ℕ
byte_at d p = d (p / 256) (p % 256)

abbrev pub image_size : ℕ
image_size = 524288

-- A byte of the image; what is behind its last one is out of bounds.
unfoldable pub read : (ℕ → ℕ) → ℕ → Outcome ℕ
read bytes p = require (ltb p image_size) >> ok (bytes p)

-- `strchrnul(sector, '\0')`, with as many bytes to look at as `room`.
unfoldable pub find_zero : ℕ → (ℕ → ℕ) → ℕ → Outcome ℕ
find_zero zero bytes p = failed
find_zero (suc room) bytes p =
    let later = find_zero room bytes (suc p) in if bytes p == 0 then ok p else later

-- The loop over the entries of a directory: where the entry is, if there is one.
unfoldable pub find_entry : ℕ → (ℕ → ℕ) → List ℕ → ℕ → Outcome (Option ℕ)
find_entry zero bytes name p = out_of_fuel
find_entry (suc fuel) bytes name p = do
  matches ← strleq (λ i. read bytes (p + i)) (char_at name) (length name)
  elim matches [
    | true ↦ ok (some p)
    | false ↦ do
      z ← find_zero (image_size - p) bytes p
      next ← read bytes (z + 3)
      elim (next == 0) [ true ↦ ok none | false ↦ find_entry fuel bytes name (z + 3) ]
  ]

-- `sector[0] | (sector[1] << 8)`
abbrev pub signed_word : (ℕ → ℕ) → ℕ → ℕ
signed_word bytes p = bit_or (char_word (bytes p)) (char_word (bytes (p + 1)) * 256 % 65536)

-- The sector of the entry at `p`.
unfoldable pub entry_sector : (ℕ → ℕ) → ℕ → Outcome ℕ
entry_sector bytes p = do
  z ← find_zero (image_size - p) bytes p
  require (ltb (z + 2) image_size)
  ok (signed_word bytes (z + 1))

-- The rest of a path behind the sector of its first part.
unfoldable pub go_on : (List ℕ → ℕ → Outcome ℕ) → List ℕ → ℕ → Outcome ℕ
go_on solve [] sec = ok sec
go_on solve (slash ∷ path) sec = solve path sec

-- One round of `solve_path`: the first part of the path, and what is left of it.
unfoldable pub solve_part : (List ℕ → ℕ → Outcome ℕ) → Sectors → ℕ → List ℕ × List ℕ → Outcome ℕ
solve_part solve d sec (part, path) = do
  require (ltb sec sector_count)
  found ← find_entry image_size (byte_at d) part (256 * sec + 3)
  elim found [ none ↦ ok 0 | some p ↦ (entry_sector (byte_at d) p >>= go_on solve path) ]

unfoldable pub solve_fuel : ℕ → Sectors → List ℕ → ℕ → Outcome ℕ
solve_fuel zero d path sec = out_of_fuel
solve_fuel (suc fuel) d [] sec = ok sec
solve_fuel (suc fuel) d (c ∷ path) sec =
    solve_part (solve_fuel fuel d) d sec (span (λ c. not (c == b'/')) (c ∷ path))

-- The root without a path.
unfoldable pub solve_path : Sectors → Option (List ℕ) → Outcome ℕ
solve_path d none = ok 1
solve_path d (some path) = solve_fuel (suc (length path)) d path 1
