-- ===== src/Disk/Image.antt =====
-- The globals of src/encodemem.c, and the pointer into a sector that its functions push bytes
-- through, as the sector and the place within it.
use jaris.Base.{
  ℕ, zero, suc, ◌+◌, ◌/◌, ◌%◌, ◌<◌, ◌≤◌, ◌≡◌, ◌≢◌, refl, sym, arith, false, true, List, [], ◌∷◌,
  length, ◌==◌, ==_iff, Bool-cases, inl, inr, if◌then◌else◌, ◌∙◌, u8, ◌>>>◌, low_bits, ap₂,
}

abbrev pub sector_size : ℕ
sector_size = 256

abbrev pub sector_count : ℕ
sector_count = 2048

-- `SECTORS[sec][at]`
abbrev pub Sectors : Type 0
Sectors = ℕ → ℕ → ℕ

pub record Disk : Type 0 where
  pub sectors : Sectors
  pub sectori : ℕ
  pub os_sec : ℕ
  pub stdlib_sec : ℕ

-- A byte at a place counted from the start of the sector `sec`: the sectors stand side by side, and a
-- place from 256 on is in a later one.
unfoldable pub poke : Sectors → ℕ → ℕ → ℕ → Sectors
poke sectors sec at v s i =
    if s == sec + at / 256 then (if i == at % 256 then v else sectors s i) else sectors s i

-- Bytes side by side, as `memcpy` and `fread` put them.
unfoldable pub store : Sectors → ℕ → ℕ → List ℕ → Sectors
store sectors sec at [] = sectors
store sectors sec at (b ∷ bytes) = store (poke sectors sec at b) sec (suc at) bytes

-- Bytes side by side, as `fwrite` takes them.
unfoldable pub load : Sectors → ℕ → ℕ → ℕ → List ℕ
load sectors sec at zero = []
load sectors sec at (suc count) = sectors sec at ∷ load sectors sec (suc at) count

pub record Pen : Type 0 where
  pub disk : Disk
  pub sec : ℕ
  pub at : ℕ

abbrev pub put_sectors : Disk → Sectors → Disk
put_sectors disk sectors = record disk { sectors = sectors }

unfoldable pub sector_push : List ℕ → Pen → Pen
sector_push bytes pen = record pen {
  disk = put_sectors pen.disk (store pen.disk.sectors pen.sec pen.at bytes);
  at = pen.at + length bytes;
}

unfoldable pub sector_push_u8 : ℕ → Pen → Pen
sector_push_u8 v pen = record pen {
  disk = put_sectors pen.disk (poke pen.disk.sectors pen.sec pen.at (u8 v));
  at = pen.at + 1;
}

unfoldable pub sector_push_u16 : ℕ → Pen → Pen
sector_push_u16 v pen = record pen {
  disk = put_sectors pen.disk (
      poke (poke pen.disk.sectors pen.sec pen.at (low_bits v 8)) pen.sec (pen.at + 1)
        (u8 (v >>> 8)));
  at = pen.at + 2;
}

pub poke-sector :
    (d : Sectors) (sec at v s i : ℕ) → at < 256 → s ≢ sec → poke d sec at v s i ≡ d s i
unfolding poke
poke-sector d sec at v s i k h = ground arith

pub poke-place : (d : Sectors) (sec at v s i : ℕ) → at < 256 → i ≢ at → poke d sec at v s i ≡ d s i
unfolding poke
poke-place d sec at v s i k h = ground arith

pub poke-there : (d : Sectors) (sec at v : ℕ) → at < 256 → poke d sec at v sec at ≡ v
unfolding poke
poke-there d sec at v k = ground arith

-- A write within a sector leaves the other sectors, and what is in front of it.
pub poke-else :
    (d : Sectors) (sec at v s i : ℕ) → at < 256 → (s ≡ sec → i < at) → poke d sec at v s i ≡ d s i
poke-else d sec at v s i k h = elim (Bool-cases (s == sec)) [
  | inl p ↦ poke-place d sec at v s i k (before (h ((==_iff s sec).0 p)))
  | inr p ↦ poke-sector d sec at v s i k (λ e. true-≢ (sym p ∙ (==_iff s sec).1 e))
]
  where
    before : i < at → i ≢ at
    before lt e = omega (arith, lt, e)

    true-≢ : false ≢ true
    true-≢ e = cc

pub store-else :
    (d : Sectors) (sec at : ℕ) (bytes : List ℕ) (s i : ℕ)
    → at + length bytes ≤ 256
    → (s ≡ sec → i < at)
    → store d sec at bytes s i ≡ d s i
unfolding store
store-else d sec at [] s i k h = refl
store-else d sec at (b ∷ bytes) s i k h =
    store-else (poke d sec at b) sec (suc at) bytes s i (omega (arith, k))
      (λ e. let lt = h e in omega (arith, lt))
    ∙ poke-else d sec at b s i (omega (arith, k)) h

-- Bytes that are written within a sector are read back.
pub load-store :
    (d : Sectors) (sec at : ℕ) (bytes : List ℕ)
    → at + length bytes ≤ 256
    → load (store d sec at bytes) sec at (length bytes) ≡ bytes
unfolding load store
load-store d sec at [] k = refl
load-store d sec at (b ∷ bytes) k =
    ap₂ (λ x l. x ∷ l)
      (store-else (poke d sec at b) sec (suc at) bytes sec at (omega (arith, k)) (λ e. omega arith)
        ∙ poke-there d sec at b (omega (arith, k)))
      (load-store (poke d sec at b) sec (suc at) bytes (omega (arith, k)))

pub load-agrees :
    (d e : Sectors) (sec at count : ℕ)
    → ((i : ℕ) → at ≤ i → i < at + count → d sec i ≡ e sec i)
    → load d sec at count ≡ load e sec at count
unfolding load
load-agrees d e sec at zero h = refl
load-agrees d e sec at (suc count) h =
    ap₂ (λ x l. x ∷ l) (h at (omega arith) (omega arith))
      (load-agrees d e sec (suc at) count (λ i le lt. h i (omega (arith, le)) (omega (arith, lt))))
