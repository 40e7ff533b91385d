-- ===== src/Disk/Directory.antt =====
-- src/encodemem.c `next_token`, `encode_bootloader` and `encode_dir_from_file`: the description of a
-- disk, as a text, and the directories, files and boot sector that it puts on the image. What `fopen`
-- finds at a path is the parameter `files`. The end of the text's list is its terminating zero.
use jaris.Base.{
  ℕ, suc, ◌+◌, Bool, true, false, not, ◌||◌, List, [], ◌∷◌, length, drop, ltb, leb, ◌==◌, Option,
  none, some, if◌then◌else◌,
}
use jaris.Base.Outcome.{Outcome, ok, failed, ◌>>=◌, ◌>>◌, require, lift}
use jaris.Files.Types.{str_eq}
use jaris.Assemble.Lex.{isspace, span, codes}
use jaris.Disk.Image.{
  sector_size, sector_count, Disk, store, Pen, put_sectors, sector_push, sector_push_u8,
  sector_push_u16,
}
use jaris.Disk.FileChain.{new_sector, on_disk, push_link, encode_file}

-- A word and the text behind it; a word at the very end of the text is read beyond it.
abbrev pub Word : Type 0
Word = Outcome (Option (List ℕ) × List ℕ)

unfoldable pub end_word : List ℕ × List ℕ → Word
end_word (image, []) = failed
end_word (image, c ∷ rest) = ok (some image, c ∷ rest)

unfoldable pub next_token : List ℕ → Word
next_token [] = ok (none, [])
next_token (c ∷ buffer) =
    let later = next_token buffer in
    if isspace c then later else end_word (span (λ c. not (isspace c)) (c ∷ buffer))

-- A word that must be there.
unfoldable pub given_word : List ℕ → Outcome (List ℕ × List ℕ)
given_word buffer = do (word, buffer) ← next_token buffer; word ← lift word; ok (word, buffer)

unfoldable pub encode_bootloader : List ℕ → Disk → Outcome Disk
encode_bootloader bytes disk = do
  require (leb (length bytes) 252)
  require (not (disk.os_sec == 0))
  require (not (disk.stdlib_sec == 0))
  let sectors = store disk.sectors 0 0 bytes
  let pen =
      sector_push_u16 disk.os_sec (record { disk = put_sectors disk sectors; sec = 0; at = 252 })
  let pen = sector_push_u16 disk.stdlib_sec pen
  ok (record pen.disk { sectori = suc pen.disk.sectori })

-- Whether a text starts with another.
unfoldable pub starts_with : List ℕ → List ℕ → Bool
starts_with [] l = true
starts_with (c ∷ p) [] = false
starts_with (c ∷ p) (d ∷ l) = let rest = starts_with p l in if c == d then rest else false

abbrev pub cons_text : ℕ → Option (List ℕ × List ℕ) → Option (List ℕ × List ℕ)
cons_text c none = none
cons_text c (some (text, rest)) = some (c ∷ text, rest)

-- The lines up to one that starts with `__endtext`, and what is behind that word.
unfoldable pub text_lines : Bool → List ℕ → Option (List ℕ × List ℕ)
text_lines line_start [] = none
text_lines line_start (c ∷ buffer) =
    let more = text_lines (c == 10) buffer in
    elim line_start [
      | false ↦ cons_text c more
      | true ↦ elim (starts_with (codes "__endtext") (c ∷ buffer)) [
        | true ↦ some ([], drop 8 buffer)
        | false ↦ cons_text c more
      ]
    ]

-- `fromtext`: a file of one sector with the lines that follow.
unfoldable pub encode_text : List ℕ → Disk → Outcome (ℕ × List ℕ × Disk)
encode_text [] disk = failed
encode_text (c ∷ buffer) disk = do
  require (c == 10)
  (text, rest) ← lift (text_lines true buffer)
  require (ltb disk.sectori sector_count)
  require (ltb (length text + 4) sector_size)
  let pen = push_link 0xffff (length text + 3) (sector_push_u8 b'F' (new_sector disk))
  ok (disk.sectori, rest, (sector_push text pen).disk)

-- What the word behind a file's name says of its bytes.
unfoldable pub encode_entry :
    (List ℕ → Option (List ℕ)) → List ℕ → Disk → Outcome (ℕ × List ℕ × Disk)
encode_entry files buffer disk = do
  (word, buffer) ← given_word buffer
  elim (str_eq word (codes "fromfile")) [
    | true ↦ do
      (path, buffer) ← given_word buffer
      bytes ← lift (files path)
      (ptr, disk) ← encode_file bytes disk
      ok (ptr, buffer, disk)
    | false ↦ (require (str_eq word (codes "fromtext")) >> encode_text buffer disk)
  ]

abbrev pub set_os : Bool → ℕ → Disk → Disk
set_os b ptr disk = record disk { os_sec = if b then ptr else disk.os_sec }

abbrev pub set_stdlib : Bool → ℕ → Disk → Disk
set_stdlib b ptr disk = record disk { stdlib_sec = if b then ptr else disk.stdlib_sec }

-- The name of an entry and its zero, when they and the number behind them fit the sector.
unfoldable pub push_name : List ℕ → Pen → Outcome Pen
push_name name pen = do
  require (ltb (pen.at + length name + 1 + 3) sector_size)
  let pen = sector_push name pen
  ok (record pen { at = pen.at + 1 })

-- The number of an entry's sector.
unfoldable pub push_ptr : ℕ → Disk → Pen → Outcome Pen
push_ptr ptr disk pen = require (not (ptr == 0)) >> ok (sector_push_u16 ptr (on_disk disk pen))

abbrev pub Placed : Type 0
Placed = Outcome (Pen × List ℕ)

-- `newfile`, `newos` and `newstdlib`
unfoldable pub new_file : (List ℕ → Option (List ℕ)) → List ℕ → List ℕ → Pen → Placed
new_file files command buffer pen = do
  (name, buffer) ← given_word buffer
  pen ← push_name name pen
  (ptr, buffer, disk) ← encode_entry files buffer pen.disk
  let disk =
      set_stdlib (str_eq command (codes "newstdlib")) ptr
        (set_os (str_eq command (codes "newos")) ptr disk)
  pen ← push_ptr ptr disk pen
  ok (pen, buffer)

abbrev pub is_file : List ℕ → Bool
is_file word =
    (str_eq word (codes "newfile") || str_eq word (codes "newos"))
    || str_eq word (codes "newstdlib")

-- The first entries of a directory: its parent and its head, which is itself for 0xFFFF.
unfoldable pub start_dir : ℕ → ℕ → Disk → Pen
start_dir parent head disk =
    let head = if head == 0xffff then disk.sectori else head in
    let pen = sector_push_u16 0xffff (sector_push_u8 b'D' (new_sector disk)) in
    let pen = sector_push_u16 parent (sector_push (b'.' ∷ b'.' ∷ 0 ∷ []) pen) in
    sector_push_u16 head (sector_push (b'.' ∷ 0 ∷ []) pen)

-- `setbootloader`
unfoldable pub set_bootloader : (List ℕ → Option (List ℕ)) → List ℕ → Pen → Placed
set_bootloader files buffer pen = do
  (path, buffer) ← given_word buffer
  bytes ← lift (files path)
  disk ← encode_bootloader bytes pen.disk
  ok (on_disk disk pen, buffer)

abbrev pub Built : Type 0
Built = Outcome (ℕ × List ℕ × Disk)

-- `newdir`, given how a directory is built.
unfoldable pub new_dir : (List ℕ → ℕ → ℕ → Disk → Built) → List ℕ → Pen → Placed
new_dir build buffer pen = do
  (name, buffer) ← given_word buffer
  pen ← push_name name pen
  (ptr, buffer, disk) ← build buffer pen.sec 0xffff pen.disk
  pen ← push_ptr ptr disk pen
  ok (pen, buffer)

-- One command of a directory that is not its end.
unfoldable pub command :
    (List ℕ → Option (List ℕ)) → (List ℕ → ℕ → ℕ → Disk → Built) → List ℕ → List ℕ → Pen → Placed
command files build word buffer pen =
    if is_file word
    then new_file files word buffer pen
    else if str_eq word (codes "newdir")
    then new_dir build buffer pen
    else if str_eq word (codes "setbootloader")
    then set_bootloader files buffer pen
    else failed
