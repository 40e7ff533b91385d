-- ===== src/Link/Patch.antt =====
-- What src/link.c's last loop leaves in the code.
use jaris.Base.{
  ℕ, ◌+◌, ◌*◌, ◌^◌, ◌<◌, ◌≡◌, ◌⊎◌, inl, inr, arith, ◌∙◌, ap, sym, subst, some_injective,
}
use jaris.Base.{List, [], ◌∷◌, All, some, ltb, ensure->>}
use jaris.Files.Types.{RelocEntry}
use jaris.Link.Check.{apply_relocs, write_word}

-- The little-endian word at an address of the code.
abbrev pub code_word : (ℕ → ℕ) → ℕ → ℕ
code_word code at = code at + 256 * code (at + 1)

-- Two relocations do not overlap.
abbrev pub Apart : RelocEntry → RelocEntry → Type 0
Apart r q = (r.place + 1 < q.place) ⊎ (q.place + 1 < r.place)

-- Two relocations do not overlap, or are the same one.
abbrev pub Fits : RelocEntry → RelocEntry → Type 0
Fits r q = Apart r q ⊎ ((q.place ≡ r.place) × (q.what ≡ r.what))

-- Any two relocations of the table that overlap are the same one. An extern that two objects use is
-- listed once for each of them, with all its uses, so that each use is relocated twice.
unfoldable pub AllFit : List RelocEntry → Type 0
AllFit [] = Unit
AllFit (r ∷ relocs) = All (Fits r) relocs × AllFit relocs

written_word :
    (r : RelocEntry) (code : ℕ → ℕ)
    → r.what < 2 ^ 16
    → code_word (write_word r.place r.what code) r.place ≡ r.what
written_word r code h = ground (arith, h)

Apart-code_word :
    (r q : RelocEntry) (code : ℕ → ℕ)
    → Apart r q
    → code_word (write_word q.place q.what code) r.place ≡ code_word code r.place
Apart-code_word r q code (inl h) = ground (arith, h)
Apart-code_word r q code (inr h) = ground (arith, h)

-- A word that is written stays, whatever fits it is written later.
word_stays :
    (r : RelocEntry) (relocs : List RelocEntry) (code code' : ℕ → ℕ)
    → apply_relocs relocs code ≡ some code'
    → All (Fits r) relocs
    → r.what < 2 ^ 16
    → code_word code r.place ≡ r.what
    → code_word code' r.place ≡ r.what
unfolding apply_relocs
word_stays r [] code code' e h k w = ap (λ c. code_word c r.place) (sym (some_injective e)) ∙ w
word_stays r (q ∷ relocs) code code' e h k w =
    let (lt, e') =
      ensure->> (ltb (q.place + 1) (2 ^ 16)) (apply_relocs relocs (write_word q.place q.what code))
        code' e in
    word_stays r relocs (write_word q.place q.what code) code' e' h.1 k (next h.0)
  where
    next : Fits r q → code_word (write_word q.place q.what code) r.place ≡ r.what
    next (inl apart) = Apart-code_word r q code apart ∙ w
    next (inr same) =
        ap (code_word (write_word q.place q.what code)) (sym same.0)
        ∙ written_word q code (subst (λ n. n < 2 ^ 16) (sym same.1) k)
        ∙ same.1

-- After the loop the code holds, at each relocation, the word of that relocation, if the words fit
-- and relocations that overlap are the same.
pub apply_relocs_lem :
    (relocs : List RelocEntry) (code code' : ℕ → ℕ)
    → apply_relocs relocs code ≡ some code'
    → AllFit relocs
    → All (λ r. r.what < 2 ^ 16) relocs
    → All (λ r. code_word code' r.place ≡ r.what) relocs
unfolding apply_relocs AllFit
apply_relocs_lem [] code code' e h k = tt
apply_relocs_lem (r ∷ relocs) code code' e h k =
    let (lt, e') =
      ensure->> (ltb (r.place + 1) (2 ^ 16)) (apply_relocs relocs (write_word r.place r.what code))
        code' e in
    (
      word_stays r relocs (write_word r.place r.what code) code' e' h.0 k.0
          (written_word r code k.0),
      apply_relocs_lem relocs (write_word r.place r.what code) code' e' h.1 k.1,
    )
