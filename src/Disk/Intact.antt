-- ===== src/Disk/Intact.antt =====
-- Files of src/encodemem.c on an image that grows.
use jaris.Base.{ℕ, ◌+◌, ◌/◌, ◌<◌, ◌≡◌, sym, ap, ◌∙◌, subst, arith, List, length}
use jaris.Base.Outcome.{ok, ok_injective}
use jaris.Disk.Image.{Disk}
use jaris.Disk.FileChain.{encode_file, decode_file}
use jaris.Disk.RoundTrip.{decode_file-encode_file}
use jaris.Disk.Build.{Files, encode_dir_from_file}
use jaris.Disk.Commands.{encode_dir_from_file-Keeps}

-- A file that is on the image is still decoded whole when a directory, with all that its description
-- puts in it, has been built behind it.
pub decode_file-intact :
    (bytes : List ℕ) (disk disk' : Disk) (files : Files) (buffer : List ℕ) (parent head ptr : ℕ)
    (rest : List ℕ) (disk'' : Disk)
    → 0 < disk.sectori
    → disk.sectori + length bytes / 252 < 2048
    → encode_file bytes disk ≡ ok (disk.sectori, disk')
    → encode_dir_from_file files buffer parent head disk' ≡ ok (ptr, rest, disk'')
    → decode_file disk''.sectors disk.sectori ≡ ok bytes
decode_file-intact bytes disk disk' files buffer parent head ptr rest disk'' pos room e b =
    let (made, e', next, before, decodes) = decode_file-encode_file bytes disk room in
    let same : made ≡ disk' = ap (λ (r : ℕ × Disk). r.1) (ok_injective (sym e' ∙ e)) in
    let grown : 0 < disk'.sectori =
      subst (λ (d : Disk). 0 < d.sectori) same (omega (arith, next)) in
    let kept =
      (encode_dir_from_file-Keeps files buffer parent head disk' ptr rest disk'' b grown).0 in
    decodes disk''.sectors (λ s i le lt.
      kept.keeps s i (omega (arith, le, pos)) (λ z. absurd (omega (arith, le, pos, z)))
        (subst (λ (d : Disk). s < d.sectori) same lt)
      ∙ ap (λ (d : Disk). d.sectors s i) (sym same))
