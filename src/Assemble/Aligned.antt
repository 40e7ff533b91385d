-- ===== src/Assemble/Aligned.antt =====
-- The uses of labels that src/assemble.c `obj_compile_bytecode` notes are at even addresses.
use jaris.Base.{
  ℕ, zero, suc, ◌+◌, ◌%◌, ◌≡◌, arith, subst, List, [], ◌∷◌, ◌++◌, length, set, All, All-append,
}
use jaris.Base.{Bool, true, false, ltb, ◌==◌, when, Option, none, some, ensure->>, some_injective}
use jaris.Instructions.{Instruction, opcode}
use jaris.Files.Types.{Symbol, Obj, no_pos, symbol_max_count, intern_reloc_max_count}
use jaris.Link.State.{symbol_at, find_symbol}
use jaris.Assemble.Object.{emit, obj_find_symbol, obj_add_symbol}
use jaris.Assemble.Object.{place_symbol, new_symbol, find_or_add, add_reloc, add_relreloc}
use jaris.Assemble.Compile.{emit_aligned, emit_string}

abbrev pub AllEven : List ℕ → Type 0
AllEven l = All (λ r. r % 2 ≡ 0) l

abbrev pub EvenUses : Symbol → Type 0
EvenUses s = AllEven s.relocs × AllEven s.relrelocs

-- Every use of every symbol of the object is at an even address.
unfoldable pub IsAligned : Obj → Type 0
IsAligned obj = All EvenUses obj.symbols

set-EvenUses :
    (l : List Symbol) (i : ℕ) (s : Symbol) → All EvenUses l → EvenUses s → All EvenUses (set l i s)
set-EvenUses [] i s h k = tt
set-EvenUses (x ∷ l) zero s h k = (k, h.1)
set-EvenUses (x ∷ l) (suc i) s h k = (h.0, set-EvenUses l i s h.1 k)

symbol_at-EvenUses : (l : List Symbol) (i : ℕ) → All EvenUses l → EvenUses (symbol_at l i)
unfolding symbol_at
symbol_at-EvenUses [] i h = (tt, tt)
symbol_at-EvenUses (x ∷ l) zero h = h.0
symbol_at-EvenUses (x ∷ l) (suc i) h = symbol_at-EvenUses l i h.1

pub emit-IsAligned : (v : ℕ) (obj : Obj) → IsAligned obj → IsAligned (emit v obj)
unfolding emit IsAligned
emit-IsAligned v obj h = h

pub when-IsAligned :
    (t : Bool) (f : Obj → Obj) (obj : Obj)
    → ((o : Obj) → IsAligned o → IsAligned (f o))
    → IsAligned obj
    → IsAligned (when t f obj)
when-IsAligned true f obj k h = k obj h
when-IsAligned false f obj k h = h

pub emit_aligned-IsAligned :
    (i : Instruction) (obj : Obj) → IsAligned obj → IsAligned (emit_aligned i obj)
unfolding emit_aligned
emit_aligned-IsAligned i obj h =
    emit-IsAligned (opcode i) _ (when-IsAligned _ _ obj (emit-IsAligned _) h)

-- The argument of an instruction that is emitted so starts at an even address.
pub emit_aligned-even : (i : Instruction) (obj : Obj) → (emit_aligned i obj).code_size % 2 ≡ 0
unfolding emit_aligned emit
emit_aligned-even i obj = ground arith

pub emit_string-IsAligned :
    (string : List ℕ) (obj : Obj) → IsAligned obj → IsAligned (emit_string string obj)
unfolding emit_string
emit_string-IsAligned [] obj h = h
emit_string-IsAligned (c ∷ string) obj h =
    emit_string-IsAligned string (emit c obj) (emit-IsAligned c obj h)

new_symbol-IsAligned :
    (name : List ℕ) (pos : ℕ) (obj : Obj) (p : ℕ × Obj)
    → IsAligned obj
    → new_symbol name pos obj ≡ some p
    → IsAligned p.1
unfolding new_symbol IsAligned
new_symbol-IsAligned name pos obj p h e =
    let s : Symbol = record { image = name; pos = pos; relocs = []; relrelocs = [] } in
    let out : ℕ × Obj = (length obj.symbols, record obj { symbols = obj.symbols ++ (s ∷ []) }) in
    let (_, made) = ensure->> (ltb (length obj.symbols + 1) symbol_max_count) (some out) p e in
    subst (λ (q : ℕ × Obj). All EvenUses q.1.symbols) (some_injective made)
      (All-append EvenUses obj.symbols (s ∷ []) h ((tt, tt), tt))

place_symbol-IsAligned :
    (index pos : ℕ) (obj : Obj) (p : ℕ × Obj)
    → IsAligned obj
    → place_symbol index pos obj ≡ some p
    → IsAligned p.1
unfolding place_symbol IsAligned
place_symbol-IsAligned index pos obj p h e =
    let s = symbol_at obj.symbols index in
    let out : ℕ × Obj =
      (index, record obj { symbols = set obj.symbols index (record s { pos = pos }) }) in
    let (_, made) = ensure->> (s.pos == no_pos) (some out) p e in
    subst (λ (q : ℕ × Obj). All EvenUses q.1.symbols) (some_injective made)
      (set-EvenUses obj.symbols index (record s { pos = pos }) h
        (symbol_at-EvenUses obj.symbols index h))

pub obj_add_symbol-IsAligned :
    (name : List ℕ) (pos : ℕ) (obj : Obj) (p : ℕ × Obj)
    → IsAligned obj
    → obj_add_symbol name pos obj ≡ some p
    → IsAligned p.1
unfolding obj_add_symbol
obj_add_symbol-IsAligned name pos obj p h e = after (find_symbol obj.symbols name) e
  where
    after :
        (o : Option ℕ)
        → elim o as (λ _. Option (ℕ × Obj)) [
          | none ↦ new_symbol name pos obj
          | some i ↦ place_symbol i pos obj
        ]
          ≡ some p
        → IsAligned p.1
    after none k = new_symbol-IsAligned name pos obj p h k
    after (some i) k = place_symbol-IsAligned i pos obj p h k

pub find_or_add-IsAligned :
    (name : List ℕ) (obj : Obj) (p : ℕ × Obj)
    → IsAligned obj
    → find_or_add name obj ≡ some p
    → IsAligned p.1
unfolding find_or_add
find_or_add-IsAligned name obj p h e = after (obj_find_symbol obj name) e
  where
    after :
        (o : Option ℕ)
        → elim o as (λ _. Option (ℕ × Obj)) [
          | none ↦ obj_add_symbol name no_pos obj
          | some i ↦ (some (i, obj))
        ]
          ≡ some p
        → IsAligned p.1
    after none k = obj_add_symbol-IsAligned name no_pos obj p h k
    after (some i) k = subst (λ (q : ℕ × Obj). IsAligned q.1) (some_injective k) h

pub add_reloc-IsAligned :
    (place : ℕ) (p : ℕ × Obj) (obj' : Obj)
    → place % 2 ≡ 0
    → IsAligned p.1
    → add_reloc place p ≡ some obj'
    → IsAligned obj'
unfolding add_reloc IsAligned
add_reloc-IsAligned place (index, obj) obj' even h e =
    let s = symbol_at obj.symbols index in
    let s' : Symbol = record s { relocs = s.relocs ++ (place ∷ []) } in
    let uses = symbol_at-EvenUses obj.symbols index h in
    let (_, made) =
      ensure->> (ltb (length s.relocs + 1) intern_reloc_max_count)
        (some (record obj { symbols = set obj.symbols index s' })) obj' e in
    subst (λ (o : Obj). All EvenUses o.symbols) (some_injective made)
      (set-EvenUses obj.symbols index s' h
        (All-append _ s.relocs (place ∷ []) uses.0 (even, tt), uses.1))

pub add_relreloc-IsAligned :
    (place : ℕ) (p : ℕ × Obj) (obj' : Obj)
    → place % 2 ≡ 0
    → IsAligned p.1
    → add_relreloc place p ≡ some obj'
    → IsAligned obj'
unfolding add_relreloc IsAligned
add_relreloc-IsAligned place (index, obj) obj' even h e =
    let s = symbol_at obj.symbols index in
    let s' : Symbol = record s { relrelocs = s.relrelocs ++ (place ∷ []) } in
    let uses = symbol_at-EvenUses obj.symbols index h in
    let (_, made) =
      ensure->> (ltb (length s.relrelocs + 1) intern_reloc_max_count)
        (some (record obj { symbols = set obj.symbols index s' })) obj' e in
    subst (λ (o : Obj). All EvenUses o.symbols) (some_injective made)
      (set-EvenUses obj.symbols index s' h
        (uses.0, All-append _ s.relrelocs (place ∷ []) uses.1 (even, tt)))
