-- ===== src/Disk/TextFile.antt =====
-- src/encodemem.c `fromtext`: the lines of a text become a file of one sector, which src/decodemem.c
-- `decode_file` reads back.
use jaris.Base.{
  ℕ, ◌+◌, ◌<◌, ◌≤◌, ◌≡◌, refl, ◌∙◌, arith, ◌⊎◌, inl, inr, true, false, List, ◌∷◌, length, ltb,
  Bool-cases, ltb-<, suc, some, u8, low_bits, ◌>>>◌,
}
use jaris.Base.Outcome.{ok, failed}
use jaris.Disk.Image.{
  Sectors, Disk, poke, store, store-else, load-store, poke-sector, poke-place, poke-there,
  sector_push, sector_push_u8, sector_push_u16,
}
use jaris.Disk.FileChain.{new_sector, decode_file}
use jaris.Disk.FileSector.{IsFileSector, Agree, linked, linked-sector, decode_file_fuel-last}
use jaris.Disk.RoundTrip.{IsFileSector-agrees}
use jaris.Disk.Directory.{text_lines, encode_text}

abbrev started : Disk → Sectors
started disk = poke disk.sectors disk.sectori 0 (u8 b'F')

-- The sectors with a text in the next one.
abbrev pub with_text : Disk → List ℕ → Sectors
with_text disk text =
    store (linked (started disk) disk.sectori 0xffff (length text + 3)) disk.sectori 4 text

with_text-IsFileSector :
    (disk : Disk) (text : List ℕ)
    → length text + 4 < 256
    → IsFileSector (with_text disk text) disk.sectori 0xffff text
with_text-IsFileSector disk text h =
    let own = disk.sectori in
    let one = poke (started disk) own 1 (low_bits 0xffff 8) in
    let two = poke one own 2 (u8 (0xffff >>> 8)) in
    let three = linked (started disk) own 0xffff (length text + 3) in
    record {
      low =
          store-else three own 4 text own 1 (omega (arith, h)) (λ e. omega arith)
          ∙ poke-place two own 3 (u8 (length text + 3)) own 1 (omega arith) (omega arith)
          ∙ poke-place one own 2 _ own 1 (omega arith) (omega arith)
          ∙ poke-there (started disk) own 1 _ (omega arith);
      high =
          store-else three own 4 text own 2 (omega (arith, h)) (λ e. omega arith)
          ∙ poke-place two own 3 (u8 (length text + 3)) own 2 (omega arith) (omega arith)
          ∙ poke-there one own 2 _ (omega arith);
      count =
          store-else three own 4 text own 3 (omega (arith, h)) (λ e. omega arith)
          ∙ poke-there two own 3 (u8 (length text + 3)) (omega arith)
          ∙ omega (arith, h);
      holds = load-store three own 4 text (omega (arith, h));
    }

with_text-before :
    (disk : Disk) (text : List ℕ) (s i : ℕ)
    → length text + 4 < 256
    → s < disk.sectori
    → with_text disk text s i ≡ disk.sectors s i
with_text-before disk text s i h lt =
    store-else _ disk.sectori 4 text s i (omega (arith, h)) (λ e. absurd (omega (arith, lt, e)))
    ∙ linked-sector (started disk) disk.sectori 0xffff (length text + 3) s i (omega (arith, lt))
    ∙ poke-sector disk.sectors disk.sectori 0 _ s i (omega arith) (omega (arith, lt))

-- What a text that is put on the image has left.
abbrev pub TextMade : List ℕ → List ℕ → List ℕ → Disk → Type 0
TextMade buffer text rest disk =
    (disk' : Disk) × (encode_text (10 ∷ buffer) disk ≡ ok (disk.sectori, rest, disk'))
    × (disk'.sectori ≡ suc disk.sectori)
    × ((s i : ℕ) → s < disk.sectori → disk'.sectors s i ≡ disk.sectors s i)
    × ((d : Sectors)
        → Agree disk.sectori disk'.sectori d disk'.sectors
        → decode_file d disk.sectori ≡ ok text)

ltb-≥ : (a b : ℕ) → ltb a b ≡ false → b ≤ a
ltb-≥ a b e = ground (arith, e)

ltb-true : (a b : ℕ) → a < b → ltb a b ≡ true
ltb-true a b h = ground (arith, h)

-- The lines up to `__endtext`, on an image with a sector left: when they and the header fit a sector,
-- `fromtext` takes the next sector, keeps the sectors before, and `decode_file` gives the lines back
-- from any image that keeps the new sector; else it fails.
pub decode_file-encode_text :
    (buffer text rest : List ℕ) (disk : Disk)
    → text_lines true buffer ≡ some (text, rest)
    → disk.sectori < 2048
    → ((length text + 4 < 256) × TextMade buffer text rest disk)
      ⊎ ((256 ≤ length text + 4) × (encode_text (10 ∷ buffer) disk ≡ failed))
unfolding encode_text new_sector sector_push sector_push_u8 sector_push_u16 decode_file
decode_file-encode_text buffer text rest disk e room =
    elim (Bool-cases (ltb (length text + 4) 256)) [
      | inl p ↦
          let small : length text + 4 < 256 = ltb-< _ _ p in
          let made : Disk = record disk {
            sectors = with_text disk text;
            sectori = suc disk.sectori;
          } in
          inl (
            small,
            (
              made,
              rw e (rw (ltb-true disk.sectori 2048 room) (rw p refl)),
              refl,
              (λ s i lt. with_text-before disk text s i small lt),
              (λ d agree. decode_file_fuel-last 2047 d disk.sectori text room (
                  IsFileSector-agrees d made.sectors disk.sectori 0xffff text
                    (λ i. agree disk.sectori i (omega arith) (omega arith))
                    (with_text-IsFileSector disk text small))),
            ),
          )
      | inr p ↦ inr (ltb-≥ _ _ p, rw e (rw (ltb-true disk.sectori 2048 room) (rw p refl)))
    ]
