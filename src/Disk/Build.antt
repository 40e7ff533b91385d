-- ===== src/Disk/Build.antt =====
-- src/encodemem.c `encode_dir_from_file`: the loop over the commands of a directory. A directory
-- inside is built by the same loop, on less text.
use jaris.Base.{ℕ, zero, suc, true, false, List, length, ltb, Option, none, some}
use jaris.Base.Outcome.{ok, out_of_fuel, ◌>>=◌, ◌>>◌, require}
use jaris.Files.Types.{str_eq}
use jaris.Assemble.Lex.{codes}
use jaris.Disk.Image.{sector_count, Disk, Pen}
use jaris.Disk.Directory.{next_token, start_dir, command, Built}

abbrev pub Files : Type 0
Files = List ℕ → Option (List ℕ)

-- A directory in the next sector, given how its commands are carried out.
abbrev pub build_dir : (List ℕ → Pen → Built) → List ℕ → ℕ → ℕ → Disk → Built
build_dir entries buffer parent head disk =
    require (ltb disk.sectori sector_count) >> entries buffer (start_dir parent head disk)

-- A word: the end of the text, the end of the directory, or a command with the commands behind it.
unfoldable pub on_word : Files → (List ℕ → Pen → Built) → Pen → Option (List ℕ) × List ℕ → Built
on_word files entries pen (none, buffer) = ok (1, buffer, pen.disk)
on_word files entries pen (some word, buffer) = elim (str_eq word (codes "enddir")) [
  | true ↦ ok (pen.sec, buffer, pen.disk)
  | false ↦ (command files (build_dir entries) word buffer pen >>= λ r. entries r.1 r.0)
]

unfoldable pub entries_fuel : ℕ → Files → List ℕ → Pen → Built
entries_fuel zero files buffer pen = out_of_fuel
entries_fuel (suc fuel) files buffer pen =
    next_token buffer >>= on_word files (entries_fuel fuel files) pen

unfoldable pub encode_dir_from_file : Files → List ℕ → ℕ → ℕ → Disk → Built
encode_dir_from_file files buffer parent head disk =
    build_dir (entries_fuel (suc (length buffer)) files) buffer parent head disk
