-- ===== src/Disk/BuildKeeps.antt =====
-- What the commands of src/encodemem.c `encode_dir_from_file` take from the text and spare on the
-- image.
use jaris.Base.{
  ℕ, suc, ◌+◌, ◌<◌, ◌≤◌, ◌≡◌, refl, arith, Bool, true, false, not, List, [], ◌∷◌, length, leb, ltb,
  leb-≤, ltb-<, ◌==◌,
}
use jaris.Base.Outcome.{ok, ◌>>=◌, ◌>>◌, require, lift}
use jaris.Files.Types.{str_eq}
use jaris.Assemble.Lex.{codes}
use jaris.Disk.Image.{Disk, Pen, store, sector_push, sector_push_u8, sector_push_u16}
use jaris.Disk.FileChain.{new_sector, on_disk, push_link, encode_file}
use jaris.Disk.Directory.{
  given_word, encode_bootloader, text_lines, encode_text, encode_entry, set_os, set_stdlib,
  push_name, push_ptr, Built,
}
use jaris.Disk.Build.{Files}
use jaris.Disk.Words.{given_word-Ends, text_lines-length}
use jaris.Disk.Keeps.{
  Ends, ends, ends_failed, Ends->>=, Ends-require, Ends-lift, Ends-mono, Keeps, Keeps-trans,
  Keeps-from, Keeps-new, Ends-guard, store-Keeps, sector_push-Keeps, sector_push_u8-Keeps,
  sector_push_u16-Keeps,
}
use jaris.Disk.FileKeeps.{encode_file-Ends, new_sector-Keeps, push_link-Keeps, own_trans}

-- What a command has left: less text, the pen further in its sector, and the sectors in use with what
-- was in front of the pen.
pub record Done (buffer : List ℕ) (pen : Pen) (r : Pen × List ℕ) : Type 0 where
  pub shorter : length r.1 ≤ length buffer
  pub same : r.0.sec ≡ pen.sec
  pub further : pen.at ≤ r.0.at
  pub spares : Keeps pen.sec pen.at pen.disk r.0.disk

-- The same for the disk behind an entry's bytes or directory.
pub record Made (buffer : List ℕ) (disk : Disk) (r : ℕ × List ℕ × Disk) : Type 0 where
  pub shorter : length r.1 ≤ length buffer
  pub spares : Keeps 0 0 disk r.2

pub encode_bootloader-Ends :
    (bytes : List ℕ) (disk : Disk) → Ends (λ d. Keeps 0 0 disk d) (encode_bootloader bytes disk)
unfolding encode_bootloader sector_push_u16
encode_bootloader-Ends bytes disk =
    let stored = record disk { sectors = store disk.sectors 0 0 bytes } in
    let pen : Pen = record { disk = stored; sec = 0; at = 252 } in
    let with_os = sector_push_u16 disk.os_sec pen in
    let with_both = sector_push_u16 disk.stdlib_sec with_os in
    Ends-guard _ (leb (length bytes) 252) _ λ small. Ends-require _ (not (disk.os_sec == 0)) _ (
      Ends-require _ (not (disk.stdlib_sec == 0)) _ (
        ends (record with_both.disk { sectori = suc disk.sectori })
          (Keeps-trans 0 0 disk stored _
            (store-Keeps bytes disk 0 0 (omega (arith, leb-≤ _ _ small)))
            (Keeps-trans 0 0 stored with_os.disk _
              (Keeps-from 0 0 252 _ _ (omega arith)
                (sector_push_u16-Keeps disk.os_sec pen (omega arith)))
              (Keeps-trans 0 0 with_os.disk with_both.disk _
                (Keeps-from 0 0 254 _ _ (omega arith)
                  (sector_push_u16-Keeps disk.stdlib_sec with_os (omega arith)))
                (record { grows = omega arith; keeps = λ s i z o lt. refl }))))))

encode_text-Ends :
    (buffer : List ℕ) (disk : Disk) → Ends (Made buffer disk) (encode_text buffer disk)
unfolding encode_text new_sector sector_push_u8 sector_push_u16 sector_push
encode_text-Ends [] disk = ends_failed
encode_text-Ends (c ∷ buffer) disk = Ends-require _ _ _ (
    Ends-lift _ (text_lines true buffer) _ λ r e. Ends-require _ _ _ (
      Ends-guard _ (ltb (length r.0 + 4) 256) _ λ small.
        let started = sector_push_u8 b'F' (new_sector disk) in
        let linked = push_link 0xffff (length r.0 + 3) started in
        ends _ (record {
          shorter = omega (arith, text_lines-length true buffer r.0 r.1 e);
          spares =
              Keeps-new disk.sectori 0 disk (new_sector disk).disk _ (omega arith)
                (Keeps-trans disk.sectori 0 _ started.disk _
                  (sector_push_u8-Keeps b'F' (new_sector disk) (omega arith))
                  (own_trans disk.sectori 4 _ linked.disk _
                    (push_link-Keeps 0xffff (length r.0 + 3) started (omega arith))
                    (sector_push-Keeps r.0 linked (omega (arith, ltb-< _ _ small)))))
                (new_sector-Keeps disk);
        })))

pub encode_entry-Ends :
    (files : Files) (buffer : List ℕ) (disk : Disk)
    → Ends (Made buffer disk) (encode_entry files buffer disk)
unfolding encode_entry
encode_entry-Ends files buffer disk =
    Ends->>= (λ r. length r.1 < length buffer) (Made buffer disk) (given_word buffer) _
      (given_word-Ends buffer) λ r less. said r.0 r.1 less (str_eq r.0 (codes "fromfile"))
  where
    said :
        (word rest : List ℕ)
        → length rest < length buffer
        → (b : Bool)
        → Ends (Made buffer disk) (elim b as (λ _. Built) [
          | true ↦
              (given_word rest >>= λ p.
              lift (files p.0) >>= λ bytes. encode_file bytes disk >>= λ r. ok (r.0, p.1, r.1))
          | false ↦ (require (str_eq word (codes "fromtext")) >> encode_text rest disk)
        ])
    said word rest less true =
        Ends->>= (λ (r : List ℕ × List ℕ). length r.1 < length rest) (Made buffer disk)
          (given_word rest) _ (given_word-Ends rest)
          λ p less'. Ends-lift (Made buffer disk) (files p.0) _ λ bytes e.
            Ends->>= (λ (r : ℕ × Disk). Keeps 0 0 disk r.1) (Made buffer disk)
              (encode_file bytes disk) _ (encode_file-Ends bytes disk)
              λ r k. ends _ (record { shorter = omega (arith, less, less'); spares = k })
    said word rest less false = Ends-require (Made buffer disk) (str_eq word (codes "fromtext")) _ (
        Ends-mono (Made rest disk) (Made buffer disk) _
          (λ r m. record { shorter = omega (arith, less, m.shorter); spares = m.spares })
          (encode_text-Ends rest disk))

pub set-Keeps :
    (a b : Bool) (own from ptr : ℕ) (disk disk' : Disk)
    → Keeps own from disk disk'
    → Keeps own from disk (set_stdlib a ptr (set_os b ptr disk'))
set-Keeps a b own from ptr disk disk' k = record { grows = k.grows; keeps = k.keeps }

-- The pen behind a name has room for the number of the entry's sector.
pub record Named (pen p : Pen) : Type 0 where
  pub same : p.sec ≡ pen.sec
  pub further : pen.at ≤ p.at
  pub room : p.at + 3 < 256
  pub spares : Keeps pen.sec pen.at pen.disk p.disk

pub push_name-Ends : (name : List ℕ) (pen : Pen) → Ends (Named pen) (push_name name pen)
unfolding push_name sector_push
push_name-Ends name pen = Ends-guard _ (ltb (pen.at + length name + 1 + 3) 256) _ λ small.
    ends _ (record {
      same = refl;
      further = omega arith;
      room = omega (arith, ltb-< _ _ small);
      spares = sector_push-Keeps name pen (omega (arith, ltb-< _ _ small));
    })

pub push_ptr-Ends :
    (ptr : ℕ) (disk : Disk) (pen : Pen)
    → pen.at + 3 < 256
    → Ends
        (λ (p : Pen). (p.sec ≡ pen.sec) × (pen.at ≤ p.at) × Keeps pen.sec pen.at disk p.disk)
        (push_ptr ptr disk pen)
unfolding push_ptr sector_push_u16
push_ptr-Ends ptr disk pen h =
    Ends-require _ _ _
      (ends _ (refl, omega arith, sector_push_u16-Keeps ptr (on_disk disk pen) (omega (arith, h))))
