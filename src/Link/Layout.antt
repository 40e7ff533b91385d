-- ===== src/Link/Layout.antt =====
-- Where src/link.c `exe_link_obj` puts the code and the relocations of an object.
use jaris.Base.{
  ℕ, ◌+◌, ◌%◌, ◌^◌, ◌<◌, ◌≡◌, arith, sym, ◌∙◌, ap, Bool, List, [], ◌∷◌, ◌++◌, map, length,
}
use jaris.Base.{
  some, ltb, leb, if◌then◌else◌, ◌&&◌, ◌-◌, u16, ensure->>, ◌>>=◌, >>=-some, some_injective,
  append_assoc, append-nil,
}
use jaris.Files.Types.{Exe, Obj, RelocEntry, reloc_max_count}
use jaris.Link.State.{ExeState}
use jaris.Link.Objects.{link_code, link_relocs, place_obj, link_symbols, exe_link_obj}
use jaris.Link.Keeps.{link_symbols-Same}

abbrev pub moved_reloc : ℕ → RelocEntry → RelocEntry
moved_reloc offset r = record { place = u16 (r.place + offset); what = u16 (r.what + offset) }

-- An object's part of an executable.
pub record Placed (obj : Obj) (exe exe' : Exe) : Type 0 where
  pub own : (i : ℕ) → i < obj.code_size → exe'.code (exe.code_size + i) ≡ obj.code i
  pub kept : (i : ℕ) → i < exe.code_size → exe'.code i ≡ exe.code i
  pub size : exe'.code_size ≡ (exe.code_size + (obj.code_size + obj.code_size % 2)) % 2 ^ 16
  pub relocs : exe'.relocs ≡ exe.relocs ++ map (moved_reloc exe.code_size) obj.relocs

link_relocs_lem :
    (offset : ℕ) (l relocs relocs' : List RelocEntry)
    → link_relocs offset l relocs ≡ some relocs'
    → relocs' ≡ relocs ++ map (moved_reloc offset) l
unfolding link_relocs
link_relocs_lem offset [] relocs relocs' e = sym (some_injective e) ∙ sym (append-nil relocs)
link_relocs_lem offset (r ∷ l) relocs relocs' e =
    let new = moved_reloc offset r ∷ [] in
    let (_, e') =
      ensure->> (ltb (length relocs + 1) reloc_max_count) (link_relocs offset l (relocs ++ new))
        relocs' e in
    link_relocs_lem offset l (relocs ++ new) relocs' e'
    ∙ append_assoc relocs new (map (moved_reloc offset) l)

link_code_parts :
    (obj : Obj) (exe exe' : Exe)
    → link_code obj exe ≡ some exe'
    → ((i : ℕ) → i < obj.code_size → exe'.code (exe.code_size + i) ≡ obj.code i)
      × ((i : ℕ) → i < exe.code_size → exe'.code i ≡ exe.code i)
      × (exe'.code_size ≡ (exe.code_size + (obj.code_size + obj.code_size % 2)) % 2 ^ 16)
      × (exe'.relocs ≡ exe.relocs)
unfolding link_code
link_code_parts obj exe exe' e =
    let code = λ (i : ℕ).
      if leb exe.code_size i && ltb i (exe.code_size + obj.code_size)
      then obj.code (i - exe.code_size)
      else exe.code i in
    let (_, out) =
      ensure->> _
        (some (record exe {
          code = code;
          code_size = u16 (exe.code_size + (obj.code_size + obj.code_size % 2));
        }))
        exe' e in
    let same : record exe {
      code = code;
      code_size = u16 (exe.code_size + (obj.code_size + obj.code_size % 2));
    }
        ≡ exe' =
      some_injective out in
    let same_code : exe'.code ≡ code = sym (ap (λ (x : Exe). x.code) same) in
    let back : (i : ℕ) → exe.code_size + i - exe.code_size ≡ i = λ i. omega arith in
    (
      (λ i h. ap (λ f. f (exe.code_size + i)) same_code ∙ ground (arith, back i)),
      (λ i h. ap (λ f. f i) same_code ∙ ground arith),
      sym (ap (λ (x : Exe). x.code_size) same),
      sym (ap (λ (x : Exe). x.relocs) same),
    )

-- A link that succeeds puts the object's code behind what is there, which stays, brings the size to
-- an even number modulo 2^16 as long as it was even, and adds the object's relocations, each moved
-- with the code.
pub exe_link_obj-Placed :
    (obj : Obj) (debug_info : Bool) (state state' : ExeState)
    → exe_link_obj obj debug_info state ≡ some state'
    → Placed obj state.exe state'.exe
unfolding exe_link_obj place_obj
exe_link_obj-Placed obj debug_info state state' e =
    let offset = state.exe.code_size in
    let write = λ (exe : Exe) (relocs : List RelocEntry).
      some (record state { exe = record exe { relocs = relocs } }) in
    let (mid, placed, linked) =
      >>=-some (place_obj obj state) (link_symbols obj debug_info offset) state' e in
    let (exe, coded, e₁) =
      >>=-some (link_code obj state.exe)
        (λ exe. link_relocs offset obj.relocs exe.relocs >>= write exe) mid placed in
    let (relocs, moved, e₂) =
      >>=-some (link_relocs offset obj.relocs exe.relocs) (write exe) mid e₁ in
    let same : record state { exe = record exe { relocs = relocs } } ≡ mid = some_injective e₂ in
    let (own, kept, size, table) = link_code_parts obj state.exe exe coded in
    let k = link_symbols-Same obj debug_info offset mid state' linked in
    let code : state'.exe.code ≡ exe.code = k.code ∙ sym (ap (λ (s : ExeState). s.exe.code) same) in
    record {
      own = λ i h. ap (λ f. f (offset + i)) code ∙ own i h;
      kept = λ i h. ap (λ f. f i) code ∙ kept i h;
      size = k.size ∙ (sym (ap (λ (s : ExeState). s.exe.code_size) same) ∙ size);
      relocs =
          k.relocs
          ∙ (sym (ap (λ (s : ExeState). s.exe.relocs) same)
              ∙ (link_relocs_lem offset obj.relocs exe.relocs relocs moved
                  ∙ ap (λ l. l ++ map (moved_reloc offset) obj.relocs) table));
    }
