-- ===== src/Disk/Commands.antt =====
-- The loop of src/encodemem.c `encode_dir_from_file` returns, and what it leaves on the image: the
-- sectors that were in use, and the first entries of the directory.
use jaris.Base.{
  ℕ, zero, suc, ◌/◌, ◌%◌, ◌<◌, ◌≤◌, ◌≡◌, ◌≢◌, refl, subst, ◌∙◌, arith, Bool, true, false, List, [],
  ◌∷◌, length, ltb, ◌==◌, if◌then◌else◌, Option, none, some,
}
use jaris.Base.Outcome.{ok, out_of_fuel, ok_injective, ◌>>=◌}
use jaris.Files.Types.{str_eq}
use jaris.Assemble.Lex.{codes}
use jaris.Disk.Image.{
  Disk, Pen, put_sectors, store, load, load-store, load-agrees, sector_push, sector_push_u8,
  sector_push_u16, sector_count,
}
use jaris.Disk.FileChain.{new_sector}
use jaris.Disk.Directory.{next_token, Built, command, start_dir}
use jaris.Disk.Build.{Files, build_dir, on_word, entries_fuel, encode_dir_from_file}
use jaris.Disk.Words.{Shortens, next_token-Ends}
use jaris.Disk.Keeps.{
  Ends, ends, ends_failed, Ends->>=, Ends-require, Ends-mono, Ends-≢-out_of_fuel, Keeps, Keeps-refl,
  Keeps-trans, Keeps-from, Keeps-new, store-Keeps,
}
use jaris.Disk.FileKeeps.{new_sector-Keeps}
use jaris.Disk.BuildKeeps.{Done, Made}
use jaris.Disk.Steps.{command-Ends}

-- What the commands of a directory have left.
record Listed (buffer : List ℕ) (pen : Pen) (r : ℕ × List ℕ × Disk) : Type 0 where
  shorter : length r.1 ≤ length buffer
  spares : Keeps pen.sec pen.at pen.disk r.2

-- The first bytes of a directory: its kind, its link, and the entries `..` and `.`.
abbrev pub dir_header : ℕ → ℕ → List ℕ
dir_header parent head =
    b'D'
    ∷ 255
    ∷ 255
    ∷ b'.'
    ∷ b'.'
    ∷ 0
    ∷ (parent % 256)
    ∷ (parent / 256 % 256)
    ∷ b'.'
    ∷ 0
    ∷ (head % 256)
    ∷ (head / 256 % 256)
    ∷ []

abbrev pub head_or : ℕ → ℕ → ℕ
head_or head own = if head == 0xffff then own else head

-- The pen of a new directory, behind its header.
abbrev begun : ℕ → ℕ → Disk → Pen
begun parent head disk =
    let new = (new_sector disk).disk in
    record {
      disk =
          put_sectors new
            (store new.sectors disk.sectori 0 (dir_header parent (head_or head disk.sectori)));
      sec = disk.sectori;
      at = 12;
    }

start_dir-begun :
    (parent head : ℕ) (disk : Disk) → start_dir parent head disk ≡ begun parent head disk
unfolding start_dir new_sector sector_push sector_push_u8 sector_push_u16 store
start_dir-begun parent head disk = refl

-- What a directory that is built has put on the image.
record MadeDir (buffer : List ℕ) (parent head : ℕ) (disk : Disk) (r : ℕ × List ℕ × Disk)
    : Type 0 where
  made : Made buffer disk r
  grown : disk.sectori < r.2.sectori
  headed :
      0 < disk.sectori
      → load r.2.sectors disk.sectori 0 12 ≡ dir_header parent (head_or head disk.sectori)

Listed-MadeDir :
    (buffer : List ℕ) (parent head : ℕ) (disk : Disk) (r : ℕ × List ℕ × Disk)
    → Listed buffer (begun parent head disk) r
    → MadeDir buffer parent head disk r
unfolding new_sector
Listed-MadeDir buffer parent head disk r l =
    let own = disk.sectori in
    let header = dir_header parent (head_or head own) in
    let pen = begun parent head disk in
    record {
      made = record {
        shorter = l.shorter;
        spares =
            Keeps-new own 0 disk (new_sector disk).disk r.2 (omega arith)
              (Keeps-trans own 0 _ pen.disk _
                (store-Keeps header (new_sector disk).disk own 0 (omega arith))
                (Keeps-from own 0 12 _ _ (omega arith) l.spares))
              (new_sector-Keeps disk);
      };
      grown = omega (arith, l.spares.grows);
      headed = λ pos.
          load-agrees r.2.sectors pen.disk.sectors own 0 12
            (λ i le lt. l.spares.keeps own i (λ e. omega (arith, e, pos)) (λ e. lt) (omega arith))
          ∙ load-store disk.sectors own 0 header (omega arith);
    }

build_dir-Ends :
    (entries : List ℕ → Pen → Built) (buffer : List ℕ) (parent head : ℕ) (disk : Disk)
    → ((pen : Pen) → Ends (Listed buffer pen) (entries buffer pen))
    → Ends (MadeDir buffer parent head disk) (build_dir entries buffer parent head disk)
build_dir-Ends entries buffer parent head disk h =
    let pen = start_dir parent head disk in
    Ends-require _ (ltb disk.sectori sector_count) _ (
      Ends-mono (Listed buffer pen) (MadeDir buffer parent head disk) _
        (λ r l.
          Listed-MadeDir buffer parent head disk r
            (subst (λ p. Listed buffer p r) (start_dir-begun parent head disk) l))
        (h pen))

on_word-Ends :
    (n : ℕ) (files : Files) (entries : List ℕ → Pen → Built) (pen : Pen) (buffer : List ℕ)
    (r : Option (List ℕ) × List ℕ)
    → length buffer ≤ n
    → ((buffer : List ℕ) (pen : Pen)
        → length buffer < n
        → Ends (Listed buffer pen) (entries buffer pen))
    → Shortens (length buffer) r
    → Ends (Listed buffer pen) (on_word files entries pen r)
unfolding on_word Shortens
on_word-Ends n files entries pen buffer (none, rest) h again s =
    ends _ (record { shorter = s; spares = Keeps-refl pen.sec pen.at pen.disk })
on_word-Ends n files entries pen buffer (some word, rest) h again s =
    found (str_eq word (codes "enddir"))
  where
    found :
        (b : Bool)
        → Ends (Listed buffer pen) (elim b as (λ _. Built) [
          | true ↦ ok (pen.sec, rest, pen.disk)
          | false ↦ (command files (build_dir entries) word rest pen >>= λ r. entries r.1 r.0)
        ])
    found true =
        ends _ (record { shorter = omega (arith, s); spares = Keeps-refl pen.sec pen.at pen.disk })
    found false =
        Ends->>= (Done rest pen) (Listed buffer pen)
          (command files (build_dir entries) word rest pen) _
          (command-Ends n (build_dir entries)
            (λ b parent head disk lt.
              Ends-mono (MadeDir b parent head disk) (Made b disk) _ (λ q m. m.made)
                (build_dir-Ends entries b parent head disk (λ p. again b p lt)))
            files word rest pen (omega (arith, h, s)))
          λ r d.
            Ends-mono (Listed r.1 r.0) (Listed buffer pen) _
              (λ q l. record {
                shorter = omega (arith, l.shorter, d.shorter, s);
                spares = Keeps-trans pen.sec pen.at _ _ _ d.spares (
                    Keeps-from pen.sec pen.at r.0.at _ _ d.further
                      (subst (λ o. Keeps o r.0.at r.0.disk q.2) d.same l.spares));
              })
              (again r.1 r.0 (omega (arith, d.shorter, s, h)))

entries_fuel-Ends :
    (fuel : ℕ) (files : Files) (buffer : List ℕ) (pen : Pen)
    → length buffer < fuel
    → Ends (Listed buffer pen) (entries_fuel fuel files buffer pen)
unfolding entries_fuel
entries_fuel-Ends zero files buffer pen h = absurd (omega (arith, h))
entries_fuel-Ends (suc fuel) files buffer pen h =
    Ends->>= (Shortens (length buffer)) (Listed buffer pen) (next_token buffer) _
      (next_token-Ends buffer)
      λ r s.
        on_word-Ends fuel files (entries_fuel fuel files) pen buffer r (omega (arith, h))
          (λ b p lt. entries_fuel-Ends fuel files b p lt) s

-- A directory in the making, of which the entries up to the pen are written and which has files,
-- texts and directories already: the commands that are left, on enough fuel, keep the bytes of every
-- sector in use, but for the boot sector and what is behind the pen in its own sector. The text
-- that is left is no longer than before.
pub entries_fuel-Keeps :
    (fuel : ℕ) (files : Files) (buffer : List ℕ) (pen : Pen) (ptr : ℕ) (rest : List ℕ)
    (disk' : Disk)
    → length buffer < fuel
    → entries_fuel fuel files buffer pen ≡ ok (ptr, rest, disk')
    → Keeps pen.sec pen.at pen.disk disk' × (length rest ≤ length buffer)
entries_fuel-Keeps fuel files buffer pen ptr rest disk' h e =
    left (entries_fuel-Ends fuel files buffer pen h) e
  where
    left :
        {o : Built}
        → Ends (Listed buffer pen) o
        → o ≡ ok (ptr, rest, disk')
        → Keeps pen.sec pen.at pen.disk disk' × (length rest ≤ length buffer)
    left ends_failed e = cc
    left (ends r l) e =
        subst
          (λ (r : ℕ × List ℕ × Disk).
            Keeps pen.sec pen.at pen.disk r.2 × (length r.1 ≤ length buffer))
          (ok_injective e) (l.spares, l.shorter)

encode_dir_from_file-MadeDir :
    (files : Files) (buffer : List ℕ) (parent head : ℕ) (disk : Disk)
    → Ends (MadeDir buffer parent head disk) (encode_dir_from_file files buffer parent head disk)
unfolding encode_dir_from_file
encode_dir_from_file-MadeDir files buffer parent head disk =
    build_dir-Ends (entries_fuel (suc (length buffer)) files) buffer parent head disk
      (λ pen. entries_fuel-Ends (suc (length buffer)) files buffer pen (omega arith))

-- The description of a disk is worked through to an end, in a directory or in an error.
pub encode_dir_from_file-≢-out_of_fuel :
    (files : Files) (buffer : List ℕ) (parent head : ℕ) (disk : Disk)
    → encode_dir_from_file files buffer parent head disk ≢ out_of_fuel
encode_dir_from_file-≢-out_of_fuel files buffer parent head disk =
    Ends-≢-out_of_fuel (MadeDir buffer parent head disk) _
      (encode_dir_from_file-MadeDir files buffer parent head disk)

-- A directory that is built, with all that is in it, takes new sectors: those in use before keep
-- their bytes, but for the boot sector. Its own sector, when it is not the boot sector, still starts
-- with the kind, the link and the two first entries when everything in it is built: nothing that is
-- written to another sector, or further on in this one, runs over them.
pub encode_dir_from_file-Keeps :
    (files : Files) (buffer : List ℕ) (parent head : ℕ) (disk : Disk) (ptr : ℕ) (rest : List ℕ)
    (disk' : Disk)
    → encode_dir_from_file files buffer parent head disk ≡ ok (ptr, rest, disk')
    → 0 < disk.sectori
    → Keeps 0 0 disk disk'
      × (disk.sectori < disk'.sectori)
      × (load disk'.sectors disk.sectori 0 12 ≡ dir_header parent (head_or head disk.sectori))
encode_dir_from_file-Keeps files buffer parent head disk ptr rest disk' e pos =
    made (encode_dir_from_file-MadeDir files buffer parent head disk) e
  where
    Left : Disk → Type 0
    Left d =
        Keeps 0 0 disk d
        × (disk.sectori < d.sectori)
        × (load d.sectors disk.sectori 0 12 ≡ dir_header parent (head_or head disk.sectori))

    made :
        {o : Built}
        → Ends (MadeDir buffer parent head disk) o
        → o ≡ ok (ptr, rest, disk')
        → Left disk'
    made ends_failed e = cc
    made (ends r m) e =
        subst (λ (r : ℕ × List ℕ × Disk). Left r.2) (ok_injective e)
          (m.made.spares, m.grown, m.headed pos)
