-- ===== src/Disk/Tests.antt =====
-- A file of two sectors on an image.
use jaris.Base.{
  ℕ, zero, suc, ◌+◌, ◌/◌, ◌<◌, ◌≤◌, ◌≡◌, arith, List, [], ◌∷◌, length, ◌==◌, if◌then◌else◌,
}
use jaris.Base.{◌≢◌, ◌⊎◌, refl, true, some}
use jaris.Disk.FileEntry.{FileEntry, new_file-FileEntry}
use jaris.Disk.TextFile.{TextMade, decode_file-encode_text}
use jaris.Base.Outcome.{Outcome, ok, failed, out_of_fuel}
use jaris.Files.Types.{str_eq}
use jaris.Assemble.Lex.{codes, span}
use jaris.Disk.Image.{sector_push, sector_push_u8, sector_push_u16}
use jaris.Disk.FileChain.{encode_file_fuel, full_sector, last_sector, new_sector}
use jaris.Disk.Directory.{
  end_word, next_token, given_word, encode_bootloader, starts_with, text_lines, encode_text,
  encode_entry, push_name, push_ptr, new_file, start_dir, set_bootloader, new_dir, command,
}
use jaris.Disk.Build.{Files, on_word, entries_fuel, encode_dir_from_file}
use jaris.Disk.Keeps.{Keeps}
use jaris.Disk.Commands.{
  encode_dir_from_file-≢-out_of_fuel, encode_dir_from_file-Keeps, entries_fuel-Keeps, dir_header,
  head_or,
}
use jaris.Disk.Intact.{decode_file-intact}
use jaris.Disk.Image.{Sectors, Disk, Pen, load}
use jaris.Disk.FileChain.{encode_file, decode_file}
use jaris.Disk.RoundTrip.{decode_file-encode_file}

abbrev blank : Disk
blank = record { sectors = λ s i. 0; sectori = 1; os_sec = 0; stdlib_sec = 0 }

abbrev letters : ℕ → List ℕ
letters zero = []
letters (suc n) = 65 ∷ letters n

decode_file-encode_file_example :
    (disk' : Disk) × (encode_file (letters 300) blank ≡ ok (1, disk'))
    × (disk'.sectori ≡ suc (1 + length (letters 300) / 252))
    × ((s i : ℕ) → s < 1 → disk'.sectors s i ≡ 0)
    × ((d : Sectors)
        → ((s i : ℕ) → 1 ≤ s → s < disk'.sectori → d s i ≡ disk'.sectors s i)
        → decode_file d 1 ≡ ok (letters 300))
decode_file-encode_file_example = decode_file-encode_file (letters 300) blank (omega arith)

-- A directory with a text, a directory with the operating system, and the boot sector.
abbrev description : List ℕ
description =
    codes
      "newfile a fromtext\nhi\n__endtext newdir d newos os fromfile x enddir newstdlib l fromfile x setbootloader x enddir\n"

-- Every path names the same two bytes.
abbrev files : Files
files path = some (7 ∷ 8 ∷ [])

abbrev built_or : Disk → Outcome (ℕ × List ℕ × Disk) → Disk
built_or disk (ok (ptr, rest, disk')) = disk'
built_or disk failed = disk
built_or disk out_of_fuel = disk

abbrev written_or : Disk → Outcome (ℕ × Disk) → Disk
written_or disk (ok (ptr, disk')) = disk'
written_or disk failed = disk
written_or disk out_of_fuel = disk

written : Disk
unfolding encode_file encode_file_fuel full_sector last_sector new_sector sector_push_u8
    sector_push_u16
written = written_or blank (encode_file (letters 2) blank)

writing : encode_file (letters 2) blank ≡ ok (1, written)
unfolding encode_file encode_file_fuel full_sector last_sector new_sector sector_push_u8
    sector_push_u16 written
writing = refl

built : Disk
built = built_or written (encode_dir_from_file files description 0xffff 0xffff written)

in_use : 0 < written.sectori
unfolding written
in_use = omega arith

-- The root is in sector 2 and the directory inside in sector 4.
building : encode_dir_from_file files description 0xffff 0xffff written ≡ ok (2, 10 ∷ [], built)
unfolding encode_dir_from_file entries_fuel on_word command new_dir new_file set_bootloader
    push_name push_ptr start_dir encode_entry encode_text text_lines starts_with given_word
    next_token end_word encode_bootloader encode_file encode_file_fuel full_sector last_sector
    new_sector sector_push sector_push_u8 sector_push_u16 written built str_eq span
building = refl

encode_dir_from_file-≢-out_of_fuel_example :
    encode_dir_from_file files description 0xffff 0xffff blank ≢ out_of_fuel
encode_dir_from_file-≢-out_of_fuel_example =
    encode_dir_from_file-≢-out_of_fuel files description 0xffff 0xffff blank

encode_dir_from_file-Keeps_example :
    Keeps 0 0 written built
    × (written.sectori < built.sectori)
    × (load built.sectors written.sectori 0 12 ≡ dir_header 0xffff (head_or 0xffff written.sectori))
encode_dir_from_file-Keeps_example =
    encode_dir_from_file-Keeps files description 0xffff 0xffff written 2 (10 ∷ []) built building
      in_use

-- A directory in sector 2 with the entry `a`, whose text is in sector 3, is gone on with.
abbrev half_built : Pen
half_built = record {
  disk = record written {
    sectors = λ s i. if s == 2 then i else if s == 3 then 5 else written.sectors s i;
    sectori = 4;
  };
  sec = 2;
  at = 16;
}

abbrev more : List ℕ
more = codes "newfile b fromfile x newdir d newfile c fromtext\nhi\n__endtext enddir enddir\n"

more_built : Disk
more_built = built_or written (entries_fuel 80 files more half_built)

going_on : entries_fuel 80 files more half_built ≡ ok (2, 10 ∷ [], more_built)
unfolding encode_dir_from_file entries_fuel on_word command new_dir new_file set_bootloader
    push_name push_ptr start_dir encode_entry encode_text text_lines starts_with given_word
    next_token end_word encode_bootloader encode_file encode_file_fuel full_sector last_sector
    new_sector sector_push sector_push_u8 sector_push_u16 written more_built str_eq span
going_on = refl

entries_fuel-Keeps_example : Keeps 2 16 half_built.disk more_built × (1 ≤ length more)
entries_fuel-Keeps_example =
    entries_fuel-Keeps 80 files more half_built 2 (10 ∷ []) more_built (omega arith) going_on

decode_file-intact_example : decode_file built.sectors 1 ≡ ok (letters 2)
unfolding written
decode_file-intact_example =
    decode_file-intact (letters 2) blank written files description 0xffff 0xffff 2 (10 ∷ []) built
      (omega arith) (omega arith) writing building

abbrev lines : List ℕ
lines = codes "hi\n"

lines-read : text_lines true (codes "hi\n__endtext x") ≡ some (lines, codes " x")
unfolding text_lines starts_with
lines-read = refl

decode_file-encode_text_example :
    ((7 < 256) × TextMade (codes "hi\n__endtext x") lines (codes " x") blank)
    ⊎ ((256 ≤ 7) × (encode_text (10 ∷ codes "hi\n__endtext x") blank ≡ failed))
decode_file-encode_text_example =
    decode_file-encode_text (codes "hi\n__endtext x") lines (codes " x") blank lines-read
      (omega arith)

-- The entry `b` with the file of path `x`, on the half built directory.
b-read : given_word (codes "b fromfile x\n") ≡ ok (codes "b", codes " fromfile x\n")
unfolding given_word next_token end_word span
b-read = refl

fromfile-read : given_word (codes " fromfile x\n") ≡ ok (codes "fromfile", codes " x\n")
unfolding given_word next_token end_word span
fromfile-read = refl

x-read : given_word (codes " x\n") ≡ ok (codes "x", codes "\n")
unfolding given_word next_token end_word span
x-read = refl

new_file-FileEntry_example :
    (pen' : Pen) × (new_file files (codes "newfile") (codes "b fromfile x\n") half_built
      ≡ ok (pen', 10 ∷ []))
    × FileEntry (codes "b") (7 ∷ 8 ∷ []) half_built pen'
new_file-FileEntry_example =
    new_file-FileEntry files (codes "newfile") (codes "b") (codes "x") (7 ∷ 8 ∷ [])
      (codes "b fromfile x\n") (codes " fromfile x\n") (codes " x\n") (10 ∷ []) half_built b-read
      fromfile-read x-read refl (omega arith) (omega arith) (omega arith)
