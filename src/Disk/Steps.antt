-- ===== src/Disk/Steps.antt =====
-- Each command of src/encodemem.c `encode_dir_from_file` returns, takes text and spares the sectors in
-- use and what is in front of the pen.
use jaris.Base.{
  ℕ, ◌<◌, ◌≤◌, ◌≡◌, refl, subst, ◌∙◌, arith, Bool, true, false, List, length, if◌then◌else◌,
}
use jaris.Base.Outcome.{Outcome, ok, ◌>>=◌}
use jaris.Files.Types.{str_eq}
use jaris.Assemble.Lex.{codes}
use jaris.Disk.Image.{Disk, Pen}
use jaris.Disk.Directory.{
  given_word, encode_bootloader, encode_entry, push_name, push_ptr, Built, new_file, is_file,
  set_bootloader, new_dir, command,
}
use jaris.Disk.Build.{Files}
use jaris.Disk.Words.{given_word-Ends}
use jaris.Disk.Keeps.{
  Ends, ends, ends_failed, Ends->>=, Ends-lift, Keeps, Keeps-trans, Keeps-from, Keeps-weaken,
}
use jaris.Disk.BuildKeeps.{
  Done, Made, Named, encode_bootloader-Ends, encode_entry-Ends, set-Keeps, push_name-Ends,
  push_ptr-Ends,
}

-- The last step of an entry, on the pen with its name.
entry-Done :
    (buffer rest : List ℕ) (pen named : Pen) (ptr : ℕ) (disk : Disk)
    → length rest ≤ length buffer
    → Named pen named
    → Keeps 0 0 named.disk disk
    → Ends (Done buffer pen) (push_ptr ptr disk named >>= λ p. ok (p, rest))
entry-Done buffer rest pen named ptr disk h n k =
    Ends->>=
      (λ (p : Pen). (p.sec ≡ named.sec) × (named.at ≤ p.at) × Keeps named.sec named.at disk p.disk)
      (Done buffer pen) (push_ptr ptr disk named) _ (push_ptr-Ends ptr disk named n.room)
      λ p q. ends _ (record {
        shorter = h;
        same = q.0 ∙ n.same;
        further = omega (arith, n.further, q.1);
        spares =
            Keeps-trans pen.sec pen.at pen.disk disk p.disk
              (Keeps-trans pen.sec pen.at pen.disk named.disk disk n.spares
                (Keeps-weaken pen.sec pen.at _ _ k))
              (Keeps-from pen.sec pen.at named.at disk p.disk n.further
                (subst (λ o. Keeps o named.at disk p.disk) n.same q.2));
      })

new_file-Ends :
    (files : Files) (word buffer : List ℕ) (pen : Pen)
    → Ends (Done buffer pen) (new_file files word buffer pen)
unfolding new_file
new_file-Ends files word buffer pen =
    Ends->>= (λ (r : List ℕ × List ℕ). length r.1 < length buffer) (Done buffer pen)
      (given_word buffer) _ (given_word-Ends buffer)
      λ r less.
        Ends->>= (Named pen) (Done buffer pen) (push_name r.0 pen) _ (push_name-Ends r.0 pen)
          λ named n.
            Ends->>= (Made r.1 named.disk) (Done buffer pen) (encode_entry files r.1 named.disk) _
              (encode_entry-Ends files r.1 named.disk)
              λ made m.
                entry-Done buffer made.1 pen named made.0 _ (omega (arith, less, m.shorter)) n
                  (set-Keeps _ _ 0 0 made.0 named.disk made.2 m.spares)

set_bootloader-Ends :
    (files : Files) (buffer : List ℕ) (pen : Pen)
    → Ends (Done buffer pen) (set_bootloader files buffer pen)
unfolding set_bootloader
set_bootloader-Ends files buffer pen =
    Ends->>= (λ (r : List ℕ × List ℕ). length r.1 < length buffer) (Done buffer pen)
      (given_word buffer) _ (given_word-Ends buffer)
      λ r less. Ends-lift (Done buffer pen) (files r.0) _ λ bytes e.
        Ends->>= (λ (d : Disk). Keeps 0 0 pen.disk d) (Done buffer pen)
          (encode_bootloader bytes pen.disk) _ (encode_bootloader-Ends bytes pen.disk)
          λ d k. ends _ (record {
            shorter = omega (arith, less);
            same = refl;
            further = omega arith;
            spares = Keeps-weaken pen.sec pen.at _ _ k;
          })

if-Ends :
    {A : Type 0} (P : A → Type 0) (b : Bool) (x y : Outcome A)
    → Ends P x
    → Ends P y
    → Ends P (if b then x else y)
if-Ends P true x y h k = h
if-Ends P false x y h k = k

-- A way to build directories that returns on every text of fewer than `n` characters.
module _ (n : ℕ) (build : List ℕ → ℕ → ℕ → Disk → Built)
    (builds : (buffer : List ℕ) (parent head : ℕ) (disk : Disk)
      → length buffer < n
      → Ends (Made buffer disk) (build buffer parent head disk)) where
  new_dir-Ends :
      (buffer : List ℕ) (pen : Pen)
      → length buffer ≤ n
      → Ends (Done buffer pen) (new_dir build buffer pen)
  unfolding new_dir
  new_dir-Ends buffer pen h =
      Ends->>= (λ (r : List ℕ × List ℕ). length r.1 < length buffer) (Done buffer pen)
        (given_word buffer) _ (given_word-Ends buffer)
        λ r less.
          Ends->>= (Named pen) (Done buffer pen) (push_name r.0 pen) _ (push_name-Ends r.0 pen)
            λ named n.
              Ends->>= (Made r.1 named.disk) (Done buffer pen)
                (build r.1 named.sec 0xffff named.disk) _
                (builds r.1 named.sec 0xffff named.disk (omega (arith, less, h)))
                λ made m.
                  entry-Done buffer made.1 pen named made.0 made.2 (omega (arith, less, m.shorter))
                    n m.spares

  pub command-Ends :
      (files : Files) (word buffer : List ℕ) (pen : Pen)
      → length buffer ≤ n
      → Ends (Done buffer pen) (command files build word buffer pen)
  unfolding command
  command-Ends files word buffer pen h =
      if-Ends (Done buffer pen) (is_file word) _ _ (new_file-Ends files word buffer pen) (
        if-Ends (Done buffer pen) (str_eq word (codes "newdir")) _ _ (new_dir-Ends buffer pen h) (
          if-Ends (Done buffer pen) (str_eq word (codes "setbootloader")) _ _
            (set_bootloader-Ends files buffer pen) ends_failed))
