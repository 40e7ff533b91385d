-- ===== src/Disk/FileEntry.antt =====
-- `newfile`, `newos` and `newstdlib` of src/encodemem.c `encode_dir_from_file` with `fromfile`: the
-- entry that a directory gets, and the file behind it.
use jaris.Base.{
  ℕ, ◌+◌, ◌/◌, ◌%◌, ◌<◌, ◌≡◌, refl, ◌∙◌, arith, true, false, List, length, ltb, ◌==◌, some, u8,
  low_bits, ◌>>>◌,
}
use jaris.Base.Outcome.{ok}
use jaris.Files.Types.{str_eq}
use jaris.Assemble.Lex.{codes}
use jaris.Disk.Image.{
  Sectors, Disk, Pen, poke, store, load, put_sectors, poke-place, poke-there, poke-else, store-else,
  load-store, load-agrees, sector_push, sector_push_u16,
}
use jaris.Disk.FileChain.{on_disk, decode_file}
use jaris.Disk.FileSector.{Agree}
use jaris.Disk.RoundTrip.{decode_file-encode_file}
use jaris.Disk.Directory.{
  given_word, encode_entry, push_name, push_ptr, set_os, set_stdlib, new_file,
}
use jaris.Disk.Build.{Files}

-- The sectors behind an entry at a place, before its number is written: those of the file.
abbrev named : List ℕ → Pen → Pen
named name pen = record {
  disk = put_sectors pen.disk (store pen.disk.sectors pen.sec pen.at name);
  sec = pen.sec;
  at = pen.at + length name + 1;
}

-- The number of a sector at a place.
abbrev numbered : Sectors → ℕ → ℕ → ℕ → Sectors
numbered d sec at ptr = poke (poke d sec at (low_bits ptr 8)) sec (at + 1) (u8 (ptr >>> 8))

numbered-low :
    (d : Sectors) (sec at ptr : ℕ) → at + 1 < 256 → numbered d sec at ptr sec at ≡ ptr % 256
numbered-low d sec at ptr h =
    poke-place _ sec (at + 1) _ sec at h (omega arith) ∙ poke-there d sec at _ (omega (arith, h))

numbered-high :
    (d : Sectors) (sec at ptr : ℕ)
    → at + 1 < 256
    → ptr < 65536
    → numbered d sec at ptr sec (at + 1) ≡ ptr / 256
numbered-high d sec at ptr h k = poke-there _ sec (at + 1) _ h ∙ omega (arith, k)

numbered-else :
    (d : Sectors) (sec at ptr s i : ℕ)
    → at + 1 < 256
    → (s ≡ sec → i < at)
    → numbered d sec at ptr s i ≡ d s i
numbered-else d sec at ptr s i h o =
    poke-else _ sec (at + 1) _ s i h (λ e. let l = o e in omega (arith, l))
    ∙ poke-else d sec at _ s i (omega (arith, h)) o

-- What an entry has left: the pen behind it, its name and its number, the file, and what was there.
pub record FileEntry (name bytes : List ℕ) (pen pen' : Pen) : Type 0 where
  pub same : pen'.sec ≡ pen.sec
  pub behind : pen'.at ≡ pen.at + length name + 3
  pub name_there : load pen'.disk.sectors pen.sec pen.at (length name) ≡ name
  pub low_there : pen'.disk.sectors pen.sec (pen.at + length name + 1) ≡ pen.disk.sectori % 256
  pub high_there : pen'.disk.sectors pen.sec (pen.at + length name + 1 + 1) ≡ pen.disk.sectori / 256
  pub file_there : decode_file pen'.disk.sectors pen.disk.sectori ≡ ok bytes
  pub keeps :
      (s i : ℕ)
      → s < pen.disk.sectori
      → (s ≡ pen.sec → i < pen.at)
      → pen'.disk.sectors s i ≡ pen.disk.sectors s i

module _ (name bytes : List ℕ) (pen : Pen) (made : Disk) (fits : pen.at + length name + 4 < 256)
    (in_use : pen.sec < pen.disk.sectori) (few : pen.disk.sectori < 65536)
    (before : (s i : ℕ)
      → s < pen.disk.sectori
      → made.sectors s i ≡ store pen.disk.sectors pen.sec pen.at name s i)
    (decodes : (d : Sectors)
      → Agree pen.disk.sectori made.sectori d made.sectors
      → decode_file d pen.disk.sectori ≡ ok bytes) where
  entry-FileEntry :
      (a b : ℕ)
      → FileEntry name bytes pen (record {
        disk = record made {
          sectors = numbered made.sectors pen.sec (pen.at + length name + 1) pen.disk.sectori;
          os_sec = a;
          stdlib_sec = b;
        };
        sec = pen.sec;
        at = pen.at + length name + 1 + 2;
      })
  entry-FileEntry a b =
      let place = pen.at + length name + 1 in
      let room : place + 1 < 256 = omega (arith, fits) in
      record {
        same = refl;
        behind = omega arith;
        name_there =
            load-agrees _ (store pen.disk.sectors pen.sec pen.at name) pen.sec pen.at (length name)
              (λ i le lt.
                numbered-else made.sectors pen.sec place pen.disk.sectori pen.sec i room
                  (λ e. omega (arith, lt))
                ∙ before pen.sec i in_use)
            ∙ load-store pen.disk.sectors pen.sec pen.at name (omega (arith, fits));
        low_there = numbered-low made.sectors pen.sec place pen.disk.sectori room;
        high_there = numbered-high made.sectors pen.sec place pen.disk.sectori room few;
        file_there = decodes _ (λ s i le lt.
            numbered-else made.sectors pen.sec place pen.disk.sectori s i room
              (λ e. absurd (omega (arith, le, in_use, e))));
        keeps = λ s i lt o.
            numbered-else made.sectors pen.sec place pen.disk.sectori s i room
              (λ e. let l = o e in omega (arith, l))
            ∙ before s i lt
            ∙ store-else pen.disk.sectors pen.sec pen.at name s i (omega (arith, fits)) o;
      }

ltb-true : (a b : ℕ) → a < b → ltb a b ≡ true
ltb-true a b h = ground (arith, h)

==-positive : (a : ℕ) → 0 < a → (a == 0) ≡ false
==-positive a h = ground (arith, h)

-- A command with a name, `fromfile` and a path at which there is a file: when the name fits the
-- sector of the directory and the file the image, the command succeeds. The name and the number of a
-- sector stand behind the entries before, the file is decoded whole from that sector, and what was in
-- use keeps its bytes.
pub new_file-FileEntry :
    (files : Files) (word name path bytes buffer buffer₁ buffer₂ rest : List ℕ) (pen : Pen)
    → given_word buffer ≡ ok (name, buffer₁)
    → given_word buffer₁ ≡ ok (codes "fromfile", buffer₂)
    → given_word buffer₂ ≡ ok (path, rest)
    → files path ≡ some bytes
    → pen.at + length name + 4 < 256
    → pen.sec < pen.disk.sectori
    → pen.disk.sectori + length bytes / 252 < 2048
    → (pen' : Pen) × (new_file files word buffer pen ≡ ok (pen', rest))
      × FileEntry name bytes pen pen'
unfolding new_file push_name sector_push encode_entry push_ptr sector_push_u16 str_eq
new_file-FileEntry files word name path bytes buffer buffer₁ buffer₂ rest pen e₁ e₂ e₃ e₄ fits
      in_use room =
    let n = named name pen in
    let (made, e, next, before, decodes) = decode_file-encode_file bytes n.disk room in
    let set =
      set_stdlib (str_eq word (codes "newstdlib")) pen.disk.sectori
        (set_os (str_eq word (codes "newos")) pen.disk.sectori made) in
    let guard : ltb (pen.at + length name + 1 + 3) 256 ≡ true =
      ltb-true _ 256 (omega (arith, fits)) in
    (
      sector_push_u16 pen.disk.sectori (on_disk set n),
      rw e₁ (
          rw guard (
            rw e₂ (
              rw e₃
                (rw e₄ (rw e (rw (==-positive pen.disk.sectori (omega (arith, in_use))) refl)))))),
      entry-FileEntry name bytes pen made fits in_use (omega (arith, room)) before decodes
          set.os_sec set.stdlib_sec,
    )
