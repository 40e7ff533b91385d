-- ===== src/Disk/FileChain.antt =====
-- src/encodemem.c `encode_file` and src/decodemem.c `decode_file`: a file as a chain of sectors, each
-- with the next one's number and the count of its own bytes. The file is the bytes behind its offset.
use jaris.Base.{
  ℕ, zero, suc, ◌+◌, ◌-◌, true, false, List, ◌++◌, length, take, drop, ltb, leb, ◌==◌, bit_or,
  ◌<<<◌,
}
use jaris.Base.Outcome.{Outcome, ok, out_of_fuel, ◌>>=◌, ◌>>◌, require}
use jaris.Disk.Image.{
  sector_size, sector_count, Sectors, Disk, store, load, Pen, put_sectors, sector_push_u8,
  sector_push_u16,
}

-- `SECTORS[SECTORI++]`: a pen at the start of the next sector.
unfoldable pub new_sector : Disk → Pen
new_sector disk = record {
  disk = record disk { sectori = suc disk.sectori };
  sec = disk.sectori;
  at = 0;
}

-- `fread(sector_start + 4, ...)`
abbrev pub fread_sector : List ℕ → Pen → Pen
fread_sector bytes pen = record pen {
  disk = put_sectors pen.disk (store pen.disk.sectors pen.sec 4 bytes);
}

abbrev pub on_disk : Disk → Pen → Pen
on_disk disk pen = record pen { disk = disk }

-- The link to the next sector and the count.
abbrev pub push_link : ℕ → ℕ → Pen → Pen
push_link ptr count pen = sector_push_u8 count (sector_push_u16 ptr pen)

abbrev pub start_file : Disk → Pen
start_file disk = sector_push_u8 b'F' (new_sector disk)

-- The rest of a file behind a full sector, given how it is encoded.
unfoldable pub full_sector : (Disk → Outcome (ℕ × Disk)) → List ℕ → Pen → Outcome (ℕ × Disk)
full_sector rest bytes pen =
    let pen = fread_sector bytes pen in
    rest pen.disk >>= λ r. ok (pen.sec, (push_link r.0 0xff (on_disk r.1 pen)).disk)

unfoldable pub last_sector : List ℕ → Pen → Outcome (ℕ × Disk)
last_sector bytes pen =
    let pen = fread_sector bytes pen in ok (pen.sec, (push_link 0xffff (length bytes + 3) pen).disk)

-- There is no test for the end of the image: a sector beyond it ends in `failed`.
unfoldable pub encode_file_fuel : ℕ → List ℕ → Disk → Outcome (ℕ × Disk)
encode_file_fuel zero bytes disk = out_of_fuel
encode_file_fuel (suc fuel) bytes disk = do
  require (ltb disk.sectori sector_count)
  elim (leb sector_size (length bytes + 4)) [
    | true ↦ full_sector (encode_file_fuel fuel (drop 252 bytes)) (take 252 bytes) (start_file disk)
    | false ↦ last_sector bytes (start_file disk)
  ]

unfoldable pub encode_file : List ℕ → Disk → Outcome (ℕ × Disk)
encode_file bytes disk = encode_file_fuel (suc (length bytes)) bytes disk

abbrev pub link_of : Sectors → ℕ → ℕ
link_of d sec = bit_or (d sec 1) (d sec 2 <<< 8)

-- The loop of `decode_file`.
unfoldable pub decode_file_fuel : ℕ → Sectors → ℕ → Outcome (List ℕ)
decode_file_fuel zero d sec = out_of_fuel
decode_file_fuel (suc fuel) d sec = do
  require (ltb sec sector_count)
  require (leb 3 (d sec 3))
  elim (link_of d sec == 0xffff) [
    | true ↦ ok (load d sec 4 (d sec 3 - 3))
    | false ↦
        (decode_file_fuel fuel d (link_of d sec) >>= λ rest.
        ok (load d sec 4 (d sec 3 - 3) ++ rest))
  ]

-- A chain of more than 2048 sectors is a cycle, on which the loop does not end.
unfoldable pub decode_file : Sectors → ℕ → Outcome (List ℕ)
decode_file d sec = decode_file_fuel sector_count d sec
