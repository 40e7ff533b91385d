-- ===== src/Link/Load.antt =====
-- src/runtime.c `exe_reloc` and `so_reloc`: linked code moved to where it is loaded.
use jaris.Base.{
  ℕ, ◌+◌, ◌^◌, ◌%◌, ◌<◌, ◌≡◌, arith, subst, ap, inl, inr, List, [], ◌∷◌, map, All, length, Option,
  none, some,
}
use jaris.Base.{u16, ◌==◌, ◌>>=◌, ◌>>◌, ensure, >>=-some, some_injective}
use jaris.Files.Types.{Exe, SharedObject, RelocEntry, DynamicEntry, str_eq}
use jaris.Link.Check.{apply_relocs}
use jaris.Link.Patch.{code_word, AllFit, Fits, apply_relocs_lem}

-- `entry.what += start_pos`
abbrev pub loaded : ℕ → RelocEntry → RelocEntry
loaded start_pos r = record { place = r.place; what = u16 (r.what + start_pos) }

unfoldable pub so_reloc : ℕ → SharedObject → Option SharedObject
so_reloc start_pos so = do
  code ← apply_relocs (map (loaded start_pos) so.relocs) so.code
  some (record so { code = code })

-- The one dynamic entry must be the standard library's.
unfoldable pub exe_dynamics : ℕ → List DynamicEntry → (ℕ → ℕ) → Option (ℕ → ℕ)
exe_dynamics stdlib_pos [] code = none
exe_dynamics stdlib_pos (d ∷ rest) code = do
  ensure (length rest == 0)
  ensure (str_eq d.file_name (1 ∷ []))
  apply_relocs (map (loaded stdlib_pos) d.relocs) code

-- The assertions stand before the loops in the source; no code is kept when they fail.
unfoldable pub exe_reloc : ℕ → ℕ → Exe → Option Exe
exe_reloc start_pos stdlib_pos exe = do
  code ← apply_relocs (map (loaded start_pos) exe.relocs) exe.code
  code ← exe_dynamics stdlib_pos exe.dynamics code
  some (record exe { code = code })

Fits-loaded : (start : ℕ) (r q : RelocEntry) → Fits r q → Fits (loaded start r) (loaded start q)
Fits-loaded start r q (inl apart) = inl apart
Fits-loaded start r q (inr same) = inr (same.0, ap (λ n. u16 (n + start)) same.1)

loaded_each-Fits :
    (start : ℕ) (r : RelocEntry) (l : List RelocEntry)
    → All (Fits r) l
    → All (Fits (loaded start r)) (map (loaded start) l)
loaded_each-Fits start r [] h = tt
loaded_each-Fits start r (q ∷ l) h = (Fits-loaded start r q h.0, loaded_each-Fits start r l h.1)

loaded-AllFit : (start : ℕ) (l : List RelocEntry) → AllFit l → AllFit (map (loaded start) l)
unfolding AllFit
loaded-AllFit start [] h = tt
loaded-AllFit start (r ∷ l) h = (loaded_each-Fits start r l h.0, loaded-AllFit start l h.1)

loaded-lt : (start : ℕ) (l : List RelocEntry) → All (λ r. r.what < 2 ^ 16) (map (loaded start) l)
loaded-lt start [] = tt
loaded-lt start (r ∷ l) = (omega arith, loaded-lt start l)

unmap :
    (start : ℕ) (code : ℕ → ℕ) (l : List RelocEntry)
    → All (λ r. code_word code r.place ≡ r.what) (map (loaded start) l)
    → All (λ r. code_word code r.place ≡ (r.what + start) % 2 ^ 16) l
unmap start code [] h = tt
unmap start code (r ∷ l) h = (h.0, unmap start code l h.1)

-- When `so_reloc` succeeds on a shared object of which any two relocations that overlap are the same
-- one, the object loaded at `start_pos` holds at each relocation the address it had in the file moved
-- by `start_pos` modulo 2^16.
pub so_reloc_lem :
    (start_pos : ℕ) (so so' : SharedObject)
    → so_reloc start_pos so ≡ some so'
    → AllFit so.relocs
    → All (λ r. code_word so'.code r.place ≡ (r.what + start_pos) % 2 ^ 16) so.relocs
unfolding so_reloc
so_reloc_lem start_pos so so' e fit =
    let write = λ (code : ℕ → ℕ). some (record so { code = code }) in
    let moved = map (loaded start_pos) so.relocs in
    let (code, applied, out) = >>=-some (apply_relocs moved so.code) write so' e in
    let same : record so { code = code } ≡ so' = some_injective out in
    let words =
      apply_relocs_lem moved so.code code applied (loaded-AllFit start_pos so.relocs fit)
        (loaded-lt start_pos so.relocs) in
    subst
      (λ (s : SharedObject).
        All (λ r. code_word s.code r.place ≡ (r.what + start_pos) % 2 ^ 16) so.relocs)
      same (unmap start_pos code so.relocs words)
