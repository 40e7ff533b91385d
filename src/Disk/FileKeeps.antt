-- ===== src/Disk/FileKeeps.antt =====
-- src/encodemem.c `encode_file` returns and spares the sectors in use, with room on the image or not.
use jaris.Base.{
  ℕ, zero, suc, ◌+◌, ◌/◌, ◌<◌, ◌≤◌, ◌≡◌, refl, arith, Bool, true, false, List, length, take, drop,
  length-drop, length-take, leb, ltb, leb-≤, leb->,
}
use jaris.Base.Outcome.{Outcome}
use jaris.Disk.Image.{Disk, Pen, sector_push_u8, sector_push_u16, sector_count, sector_size}
use jaris.Disk.FileChain.{
  new_sector, fread_sector, on_disk, push_link, start_file, full_sector, last_sector,
  encode_file_fuel, encode_file,
}
use jaris.Disk.Keeps.{
  Ends, ends, Ends->>=, Ends-require, Keeps, Keeps-refl, Keeps-trans, Keeps-from, Keeps-new,
  Keeps-weaken, store-Keeps, sector_push_u8-Keeps, sector_push_u16-Keeps,
}

pub new_sector-Keeps : (disk : Disk) → Keeps 0 0 disk (new_sector disk).disk
unfolding new_sector
new_sector-Keeps disk = record { grows = omega arith; keeps = λ s i z o lt. refl }

-- A step on the bytes of a sector that is new.
pub own_trans :
    (own from : ℕ) (a b c : Disk) → Keeps own 0 a b → Keeps own from b c → Keeps own 0 a c
own_trans own from a b c h k = Keeps-trans own 0 a b c h (Keeps-from own 0 from b c (omega arith) k)

pub push_link-Keeps :
    (ptr count : ℕ) (pen : Pen)
    → pen.at + 2 < 256
    → Keeps pen.sec 0 pen.disk (push_link ptr count pen).disk
unfolding sector_push_u16
push_link-Keeps ptr count pen h =
    own_trans pen.sec (pen.at + 2) _ (sector_push_u16 ptr pen).disk _
      (own_trans pen.sec pen.at pen.disk _ _ (Keeps-refl pen.sec 0 pen.disk)
        (sector_push_u16-Keeps ptr pen (omega (arith, h))))
      (sector_push_u8-Keeps count (sector_push_u16 ptr pen) h)

-- A file's sector, begun and filled, on the sectors that were there.
begun-Keeps :
    (bytes : List ℕ) (disk : Disk)
    → length bytes ≤ 252
    → Keeps disk.sectori 0 (new_sector disk).disk (fread_sector bytes (start_file disk)).disk
unfolding new_sector sector_push_u8
begun-Keeps bytes disk h =
    own_trans disk.sectori 4 _ (start_file disk).disk _
      (sector_push_u8-Keeps b'F' (new_sector disk) (omega arith))
      (store-Keeps bytes (start_file disk).disk disk.sectori 4 (omega (arith, h)))

last_sector-Ends :
    (bytes : List ℕ) (disk : Disk)
    → length bytes ≤ 252
    → Ends (λ r. Keeps 0 0 disk r.1) (last_sector bytes (start_file disk))
unfolding last_sector new_sector sector_push_u8
last_sector-Ends bytes disk h = ends _ (
    Keeps-new disk.sectori 0 disk _ _ (omega arith)
      (Keeps-trans disk.sectori 0 _ _ _ (begun-Keeps bytes disk h) (
        push_link-Keeps 0xffff (length bytes + 3) (fread_sector bytes (start_file disk))
          (omega arith)))
      (new_sector-Keeps disk))

full_sector-Ends :
    (rest : Disk → Outcome (ℕ × Disk)) (bytes : List ℕ) (disk : Disk)
    → length bytes ≤ 252
    → ((d : Disk) → Ends (λ r. Keeps 0 0 d r.1) (rest d))
    → Ends (λ r. Keeps 0 0 disk r.1) (full_sector rest bytes (start_file disk))
unfolding full_sector new_sector sector_push_u8
full_sector-Ends rest bytes disk le h =
    let pen = fread_sector bytes (start_file disk) in
    Ends->>= (λ r. Keeps 0 0 pen.disk r.1) (λ r. Keeps 0 0 disk r.1) (rest pen.disk) _ (h pen.disk)
      λ r k. ends _ (
        Keeps-new disk.sectori 0 disk (new_sector disk).disk _ (omega arith)
          (Keeps-trans disk.sectori 0 _ _ _ (begun-Keeps bytes disk le) (
            Keeps-trans disk.sectori 0 _ _ _ (Keeps-weaken disk.sectori 0 _ _ k)
              (push_link-Keeps r.0 0xff (on_disk r.1 pen) (omega arith))))
          (new_sector-Keeps disk))

encode_file_fuel-Ends :
    (fuel : ℕ) (bytes : List ℕ) (disk : Disk)
    → length bytes / 252 < fuel
    → Ends (λ r. Keeps 0 0 disk r.1) (encode_file_fuel fuel bytes disk)
unfolding encode_file_fuel
encode_file_fuel-Ends zero bytes disk h = absurd (omega (arith, h))
encode_file_fuel-Ends (suc fuel) bytes disk h = Ends-require _ (ltb disk.sectori sector_count) _ (
    sized (leb sector_size (length bytes + 4)) refl (λ le d.
      encode_file_fuel-Ends fuel (drop 252 bytes) d (omega (arith, h, length-drop 252 bytes, le))))
  where
    sized :
        (b : Bool)
        → leb 256 (length bytes + 4) ≡ b
        → (252 ≤ length bytes
            → (d : Disk) → Ends (λ r. Keeps 0 0 d r.1) (encode_file_fuel fuel (drop 252 bytes) d))
        → Ends
            (λ r. Keeps 0 0 disk r.1)
            (elim b as (λ _. Outcome (ℕ × Disk)) [
              | true ↦
                  full_sector
                    (encode_file_fuel fuel (drop 252 bytes))
                    (take 252 bytes)
                    (start_file disk)
              | false ↦ last_sector bytes (start_file disk)
            ])
    sized true e again =
        full_sector-Ends _ (take 252 bytes) disk
          (omega (arith, length-take 252 bytes (omega (arith, leb-≤ _ _ e))))
          (again (omega (arith, leb-≤ _ _ e)))
    sized false e again = last_sector-Ends bytes disk (omega (arith, leb-> _ _ e))

pub encode_file-Ends :
    (bytes : List ℕ) (disk : Disk) → Ends (λ r. Keeps 0 0 disk r.1) (encode_file bytes disk)
unfolding encode_file
encode_file-Ends bytes disk = encode_file_fuel-Ends (suc (length bytes)) bytes disk (omega arith)
