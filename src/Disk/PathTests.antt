-- ===== src/Disk/PathTests.antt =====
-- A root directory with the entries `ab`, in sector 5, and `b`, in sector 130.
use jaris.Base.{ℕ, ◌≡◌, refl, arith, List, [], ◌∷◌, ◌==◌, some, if◌then◌else◌}
use jaris.Base.Outcome.{ok}
use jaris.Disk.Image.{Sectors}
use jaris.Disk.Directory.{starts_with}
use jaris.Disk.Paths.{byte_at, char_at, solve_path}
use jaris.Disk.Entries.{Written, Entries, first_with, solve_path-first_with}

abbrev root : List ℕ
root =
    b'D' ∷ 255 ∷ 255 ∷ b'.' ∷ b'.' ∷ 0 ∷ 255 ∷ 255 ∷ b'.' ∷ 0 ∷ 1 ∷ 0 ∷ b'a' ∷ b'b' ∷ 0 ∷ 5 ∷ 0
    ∷ b'b' ∷ 0 ∷ 130 ∷ 0 ∷ []

abbrev image : Sectors
image s i = if s == 1 then char_at root i else 0

-- The bytes of 130 spell another sector.
abbrev behind_self : List (List ℕ × ℕ)
behind_self = (b'.' ∷ [], 1) ∷ (b'a' ∷ b'b' ∷ [], 5) ∷ (b'b' ∷ [], 65410) ∷ []

root-Entries : Entries (byte_at image) 259 ((b'.' ∷ b'.' ∷ [], 65535) ∷ behind_self)
unfolding Entries Written byte_at char_at
root-Entries = (
  (λ q. omega (arith, q)),
  (refl, (refl, tt)),
  omega arith,
  (refl, (refl, refl)),
  refl,
  (
    (λ q. omega (arith, q)),
    (refl, tt),
    omega arith,
    (refl, refl),
    refl,
    (
      (λ q. omega (arith, q)),
      (refl, (refl, tt)),
      omega arith,
      (refl, (refl, refl)),
      refl,
      ((λ q. omega (arith, q)), (refl, tt), omega arith, (refl, refl), refl, refl),
    ),
  ),
)

-- The path `a` leads to the entry `ab`.
solve_path-first_with_example : solve_path image (some (b'a' ∷ [])) ≡ ok 5
unfolding first_with starts_with
solve_path-first_with_example =
    solve_path-first_with image (b'a' ∷ []) (b'.' ∷ b'.' ∷ [], 65535) behind_self (omega arith)
      (refl, tt) (refl, tt) (omega arith) root-Entries
