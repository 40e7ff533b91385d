-- ===== src/Disk/RoundTrip.antt =====
-- src/decodemem.c `decode_file` gives back what src/encodemem.c `encode_file` put on the image.
use jaris.Base.{
  ℕ, zero, suc, ◌+◌, ◌/◌, ◌<◌, ◌≤◌, ◌≡◌, ap, ◌∙◌, arith, true, List, length, take, drop,
  take-++-drop, length-drop, length-take, ltb, leb, Bool-cases, inl, inr, elim-true, elim-false,
  leb-≤, leb->,
}
use jaris.Base.Outcome.{ok, ◌>>=◌, require-true}
use jaris.Base.{u8}
use jaris.Disk.Image.{
  sector_count, Sectors, Disk, poke, store, poke-sector, store-else, load-store, load-agrees,
  sector_push_u8, sector_push_u16,
}
use jaris.Disk.FileChain.{
  new_sector, push_link, start_file, full_sector, last_sector, encode_file_fuel, encode_file,
  decode_file_fuel, decode_file,
}
use jaris.Disk.FileSector.{
  IsFileSector, Agree, linked, linked-IsFileSector, linked-sector, decode_file_fuel-last,
  decode_file_fuel-link,
}

-- What `encode_file` promises of the image behind it.
record Encoded (bytes : List ℕ) (disk disk' : Disk) : Type 0 where
  next : disk'.sectori ≡ suc (disk.sectori + length bytes / 252)
  before : (s i : ℕ) → s < disk.sectori → disk'.sectors s i ≡ disk.sectors s i
  after :
      (d : Sectors) (fuel : ℕ)
      → length bytes / 252 < fuel
      → Agree disk.sectori disk'.sectori d disk'.sectors
      → decode_file_fuel fuel d disk.sectori ≡ ok bytes

pub IsFileSector-agrees :
    (d e : Sectors) (sec link : ℕ) (bytes : List ℕ)
    → ((i : ℕ) → d sec i ≡ e sec i)
    → IsFileSector e sec link bytes
    → IsFileSector d sec link bytes
IsFileSector-agrees d e sec link bytes a f = record {
  low = a 1 ∙ f.low;
  high = a 2 ∙ f.high;
  count = a 3 ∙ f.count;
  holds = load-agrees d e sec 4 (length bytes) (λ i _ _. a i) ∙ f.holds;
}

-- The sectors with the bytes of one sector, before its link is set.
abbrev begun : Disk → List ℕ → Sectors
begun disk bytes = store (poke disk.sectors disk.sectori 0 (u8 b'F')) disk.sectori 4 bytes

begun-before :
    (disk : Disk) (bytes : List ℕ) (s i : ℕ)
    → length bytes ≤ 252
    → s < disk.sectori
    → begun disk bytes s i ≡ disk.sectors s i
begun-before disk bytes s i k h =
    store-else _ disk.sectori 4 bytes s i (omega (arith, k)) (λ e. absurd (omega (arith, h, e)))
    ∙ poke-sector disk.sectors disk.sectori 0 _ s i (omega arith) (omega (arith, h))

abbrev ended : Disk → List ℕ → Disk
ended disk bytes = record disk {
  sectors = linked (begun disk bytes) disk.sectori 0xffff (length bytes + 3);
  sectori = suc disk.sectori;
}

ended-Encoded :
    (bytes : List ℕ) (disk : Disk)
    → length bytes + 4 < 256
    → disk.sectori < 2048
    → Encoded bytes disk (ended disk bytes)
ended-Encoded bytes disk h k = record {
  next = omega (arith, h);
  before = λ s i lt.
      linked-sector (begun disk bytes) disk.sectori 0xffff (length bytes + 3) s i
        (omega (arith, lt))
      ∙ begun-before disk bytes s i (omega (arith, h)) lt;
  after = λ d fuel lt agree. decodes d fuel lt agree;
}
  where
    decodes :
        (d : Sectors) (fuel : ℕ)
        → length bytes / 252 < fuel
        → Agree disk.sectori (suc disk.sectori) d (ended disk bytes).sectors
        → decode_file_fuel fuel d disk.sectori ≡ ok bytes
    decodes d zero lt agree = absurd (omega (arith, lt))
    decodes d (suc fuel) lt agree = decode_file_fuel-last fuel d disk.sectori bytes k (
        IsFileSector-agrees d (ended disk bytes).sectors disk.sectori 0xffff bytes
          (λ i. agree disk.sectori i (omega arith) (omega arith))
          (linked-IsFileSector (begun disk bytes) disk.sectori 0xffff (length bytes + 3) bytes
            (omega arith) (omega arith) (omega (arith, h))
            (load-store _ disk.sectori 4 bytes (omega (arith, h)))))

-- The image on which the rest of a file is encoded, and the image behind it.
abbrev filled : Disk → List ℕ → Disk
filled disk bytes = record disk {
  sectors = begun disk (take 252 bytes);
  sectori = suc disk.sectori;
}

abbrev chained : Disk → Disk → Disk
chained disk disk' = record disk' {
  sectors = linked disk'.sectors disk.sectori (suc disk.sectori) 0xff;
}

chained-Encoded :
    (bytes : List ℕ) (disk disk' : Disk)
    → 252 ≤ length bytes
    → disk.sectori + length bytes / 252 < 2048
    → Encoded (drop 252 bytes) (filled disk bytes) disk'
    → Encoded bytes disk (chained disk disk')
chained-Encoded bytes disk disk' h k r = record {
  next = omega (arith, r.next, length-drop 252 bytes, h);
  before = λ s i lt.
      linked-sector disk'.sectors disk.sectori (suc disk.sectori) 0xff s i (omega (arith, lt))
      ∙ r.before s i (omega (arith, lt))
      ∙ begun-before disk (take 252 bytes) s i (omega (arith, size)) lt;
  after = λ d fuel lt agree. decodes d fuel lt agree;
}
  where
    size : length (take 252 bytes) ≡ 252
    size = length-take 252 bytes h

    own : IsFileSector (chained disk disk').sectors disk.sectori (suc disk.sectori) (take 252 bytes)
    own =
        linked-IsFileSector disk'.sectors disk.sectori (suc disk.sectori) 0xff (take 252 bytes)
          (omega (arith, k)) (omega (arith, size)) (omega arith)
          (load-agrees disk'.sectors (begun disk (take 252 bytes)) disk.sectori 4
              (length (take 252 bytes)) (λ i _ _. r.before disk.sectori i (omega arith))
            ∙ load-store _ disk.sectori 4 (take 252 bytes) (omega (arith, size)))

    decodes :
        (d : Sectors) (fuel : ℕ)
        → length bytes / 252 < fuel
        → Agree disk.sectori disk'.sectori d (chained disk disk').sectors
        → decode_file_fuel fuel d disk.sectori ≡ ok bytes
    decodes d zero lt agree = absurd (omega (arith, lt))
    decodes d (suc fuel) lt agree =
        decode_file_fuel-link fuel d disk.sectori (suc disk.sectori) (take 252 bytes)
          (drop 252 bytes) (omega (arith, k)) (omega (arith, k, h))
          (IsFileSector-agrees d (chained disk disk').sectors disk.sectori _ _
            (λ i. agree disk.sectori i (omega arith) (omega (arith, r.next))) own)
          (r.after d fuel (omega (arith, lt, length-drop 252 bytes, h)) (λ s i le lt.
            agree s i (omega (arith, le)) lt
            ∙ linked-sector disk'.sectors disk.sectori (suc disk.sectori) 0xff s i
                (omega (arith, le))))
        ∙ ap ok (take-++-drop 252 bytes)

ltb-in-image : (sec : ℕ) → sec < 2048 → ltb sec sector_count ≡ true
ltb-in-image sec h = ground arith

encode_file_fuel-Encoded :
    (fuel : ℕ) (bytes : List ℕ) (disk : Disk)
    → length bytes / 252 < fuel
    → disk.sectori + length bytes / 252 < 2048
    → (disk' : Disk) × (encode_file_fuel fuel bytes disk ≡ ok (disk.sectori, disk'))
      × Encoded bytes disk disk'
unfolding encode_file_fuel full_sector last_sector new_sector sector_push_u8 sector_push_u16
encode_file_fuel-Encoded zero bytes disk h k = absurd (omega (arith, h))
encode_file_fuel-Encoded (suc fuel) bytes disk h k =
    elim (Bool-cases (leb 256 (length bytes + 4))) [
      | inl p ↦
          let le : 252 ≤ length bytes = omega (arith, leb-≤ _ _ p) in
          let (disk', e, r) =
            encode_file_fuel-Encoded fuel (drop 252 bytes) (filled disk bytes)
              (omega (arith, h, length-drop 252 bytes, le))
              (omega (arith, k, length-drop 252 bytes, le)) in
          (
            chained disk disk',
            require-true (ltb disk.sectori sector_count) _
                  (ltb-in-image disk.sectori (omega (arith, k)))
                ∙ elim-true (leb 256 (length bytes + 4))
                    (full_sector (encode_file_fuel fuel (drop 252 bytes)) (take 252 bytes)
                      (start_file disk))
                    (last_sector bytes (start_file disk)) p
                ∙ ap
                    (λ o. o >>= λ r. ok (
                      disk.sectori,
                      (push_link r.0 0xff (record { disk = r.1; sec = disk.sectori; at = 1 })).disk,
                    ))
                    e,
            chained-Encoded bytes disk disk' le k r,
          )
      | inr p ↦ (
        ended disk bytes,
        require-true (ltb disk.sectori sector_count) _
              (ltb-in-image disk.sectori (omega (arith, k)))
            ∙ elim-false (leb 256 (length bytes + 4))
                (full_sector (encode_file_fuel fuel (drop 252 bytes)) (take 252 bytes)
                  (start_file disk))
                (last_sector bytes (start_file disk)) p,
        ended-Encoded bytes disk (omega (arith, leb-> _ _ p)) (omega (arith, k)),
      )
    ]

-- A file that is encoded on an image with room for it is decoded whole, from any image that keeps
-- the sectors it is on.
pub decode_file-encode_file :
    (bytes : List ℕ) (disk : Disk)
    → disk.sectori + length bytes / 252 < 2048
    → (disk' : Disk) × (encode_file bytes disk ≡ ok (disk.sectori, disk'))
      × (disk'.sectori ≡ suc (disk.sectori + length bytes / 252))
      × ((s i : ℕ) → s < disk.sectori → disk'.sectors s i ≡ disk.sectors s i)
      × ((d : Sectors)
          → Agree disk.sectori disk'.sectori d disk'.sectors
          → decode_file d disk.sectori ≡ ok bytes)
unfolding encode_file decode_file
decode_file-encode_file bytes disk h =
    let (disk', e, r) = encode_file_fuel-Encoded (suc (length bytes)) bytes disk (omega arith) h in
    (disk', e, r.next, r.before, λ d agree. r.after d 2048 (omega (arith, h)) agree)
