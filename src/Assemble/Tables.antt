-- ===== src/Assemble/Tables.antt =====
-- src/assemble.c `obj_check` leaves the symbols, the globals and the externs until its last part.
use jaris.Base.{
  ℕ, suc, ◌+◌, ◌-◌, ◌%◌, ◌^◌, ◌≡◌, refl, ◌∙◌, ap₂, subst, false, not, List, [], ◌∷◌, ◌++◌, length,
  ltb, ◌==◌, u16,
}
use jaris.Base.{
  Option, some, ◌>>=◌, ◌>>◌, ensure, >>=-some, ensure->>, some_injective, Bool-cases, inl, inr,
  if◌then◌else◌,
}
use jaris.Files.Types.{Symbol, Obj, no_pos, reloc_max_count}
use jaris.Link.State.{symbol_at}
use jaris.Link.Objects.{mem}
use jaris.Link.Check.{write_word}
use jaris.Assemble.Check.{
  fill, fill_extern, check_externs, fill_relative, fill_absolute, check_symbol, check_symbols,
  strip, obj_check,
}
use jaris.Assemble.Strip.{Stripped, names, strip-Stripped}

record SameTables (obj obj' : Obj) : Type 0 where
  symbols : obj'.symbols ≡ obj.symbols
  globals : obj'.globals ≡ obj.globals
  externs : obj'.externs ≡ obj.externs

SameTables-refl : (o : Obj) → SameTables o o
SameTables-refl o = record { symbols = refl; globals = refl; externs = refl }

SameTables-trans : (a b c : Obj) → SameTables a b → SameTables b c → SameTables a c
SameTables-trans a b c h k = record {
  symbols = k.symbols ∙ h.symbols;
  globals = k.globals ∙ h.globals;
  externs = k.externs ∙ h.externs;
}

-- Two steps one after the other.
chain :
    (o : Option Obj) (f : Obj → Option Obj) (obj obj' : Obj)
    → ((m : Obj) → o ≡ some m → SameTables obj m)
    → ((m : Obj) → f m ≡ some obj' → SameTables m obj')
    → (o >>= f) ≡ some obj'
    → SameTables obj obj'
chain o f obj obj' h k e =
    let (m, made, rest) = >>=-some o f obj' e in SameTables-trans obj m obj' (h m made) (k m rest)

fill-SameTables :
    (place what : ℕ) (obj obj' : Obj) → fill place what obj ≡ some obj' → SameTables obj obj'
unfolding fill
fill-SameTables place what obj obj' e =
    let (_, made) =
      ensure->> (ltb (place + 1) (2 ^ 16))
        (some (record obj { code = write_word place what obj.code })) obj' e in
    subst (SameTables obj) (some_injective made)
      (record { symbols = refl; globals = refl; externs = refl })

fill_extern-SameTables :
    (uses : List ℕ) (obj obj' : Obj) → fill_extern uses obj ≡ some obj' → SameTables obj obj'
unfolding fill_extern
fill_extern-SameTables [] obj obj' e =
    subst (SameTables obj) (some_injective e) (SameTables-refl obj)
fill_extern-SameTables (r ∷ uses) obj obj' e =
    let (_, e') = ensure->> (r % 2 == 0) (fill r 0xffff obj >>= fill_extern uses) obj' e in
    chain (fill r 0xffff obj) (fill_extern uses) obj obj' (fill-SameTables r 0xffff obj)
      (λ m. fill_extern-SameTables uses m obj') e'

check_externs-SameTables :
    (externs : List ℕ) (obj obj' : Obj)
    → check_externs externs obj ≡ some obj'
    → SameTables obj obj'
unfolding check_externs
check_externs-SameTables [] obj obj' e =
    subst (SameTables obj) (some_injective e) (SameTables-refl obj)
check_externs-SameTables (x ∷ externs) obj obj' e =
    let s = symbol_at obj.symbols x in
    let go = fill_extern s.relocs obj >>= check_externs externs in
    let (_, e₁) = ensure->> (s.pos == no_pos) (ensure (length s.relrelocs == 0) >> go) obj' e in
    let (_, e₂) = ensure->> (length s.relrelocs == 0) go obj' e₁ in
    chain (fill_extern s.relocs obj) (check_externs externs) obj obj'
      (fill_extern-SameTables s.relocs obj) (λ m. check_externs-SameTables externs m obj') e₂

fill_relative-SameTables :
    (pos : ℕ) (uses : List ℕ) (obj obj' : Obj)
    → fill_relative pos uses obj ≡ some obj'
    → SameTables obj obj'
unfolding fill_relative
fill_relative-SameTables pos [] obj obj' e =
    subst (SameTables obj) (some_injective e) (SameTables-refl obj)
fill_relative-SameTables pos (r ∷ uses) obj obj' e =
    chain (fill r (u16 (pos + 2 ^ 16 - r)) obj) (fill_relative pos uses) obj obj'
      (fill-SameTables r _ obj) (λ m. fill_relative-SameTables pos uses m obj') e

fill_absolute-SameTables :
    (pos : ℕ) (uses : List ℕ) (obj obj' : Obj)
    → fill_absolute pos uses obj ≡ some obj'
    → SameTables obj obj'
unfolding fill_absolute
fill_absolute-SameTables pos [] obj obj' e =
    subst (SameTables obj) (some_injective e) (SameTables-refl obj)
fill_absolute-SameTables pos (r ∷ uses) obj obj' e =
    let grown : Obj = record obj {
      relocs = obj.relocs ++ (record { place = r; what = pos } ∷ []);
    } in
    let go = fill r pos grown >>= fill_absolute pos uses in
    let (_, e₁) =
      ensure->> (ltb (length obj.relocs + 1) reloc_max_count) (ensure (r % 2 == 0) >> go) obj' e in
    let (_, e₂) = ensure->> (r % 2 == 0) go obj' e₁ in
    let k =
      chain (fill r pos grown) (fill_absolute pos uses) grown obj' (fill-SameTables r pos grown)
        (λ m. fill_absolute-SameTables pos uses m obj') e₂ in
    record { symbols = k.symbols; globals = k.globals; externs = k.externs }

-- The second half of the round for one symbol.
absolute_part : ℕ → Symbol → Obj → Option Obj
absolute_part i s obj =
    if mem i obj.externs
    then some obj
    else (ensure (not (s.pos == no_pos)) >> fill_absolute s.pos s.relocs obj)

absolute_part-SameTables :
    (i : ℕ) (s : Symbol) (obj obj' : Obj) → absolute_part i s obj ≡ some obj' → SameTables obj obj'
unfolding absolute_part
absolute_part-SameTables i s obj obj' e = elim (Bool-cases (mem i obj.externs)) [
  | inl p ↦
      let q : some obj ≡ some obj' = rw p at e in
      subst (SameTables obj) (some_injective q) (SameTables-refl obj)
  | inr p ↦
      let q : (ensure (not (s.pos == no_pos)) >> fill_absolute s.pos s.relocs obj) ≡ some obj' =
        rw p at e in
      fill_absolute-SameTables s.pos s.relocs obj obj'
        (ensure->> (not (s.pos == no_pos)) (fill_absolute s.pos s.relocs obj) obj' q).1
]

check_symbol-SameTables :
    (i : ℕ) (s : Symbol) (obj obj' : Obj) → check_symbol i s obj ≡ some obj' → SameTables obj obj'
unfolding check_symbol absolute_part
check_symbol-SameTables i s obj obj' e =
    chain (fill_relative s.pos s.relrelocs obj) (absolute_part i s) obj obj'
      (fill_relative-SameTables s.pos s.relrelocs obj) (λ m. absolute_part-SameTables i s m obj') e

check_symbols-SameTables :
    (l : List Symbol) (i : ℕ) (obj obj' : Obj)
    → check_symbols l i obj ≡ some obj'
    → SameTables obj obj'
unfolding check_symbols
check_symbols-SameTables [] i obj obj' e =
    subst (SameTables obj) (some_injective e) (SameTables-refl obj)
check_symbols-SameTables (s ∷ l) i obj obj' e =
    chain (check_symbol i s obj) (check_symbols l (suc i)) obj obj'
      (check_symbol-SameTables i s obj) (λ m. check_symbols-SameTables l (suc i) m obj') e

-- An object that passes the check without debug information keeps its globals and its externs under
-- their names, in their order, as symbols of a table that has no others.
pub obj_check-Stripped : (obj obj' : Obj) → obj_check false obj ≡ some obj' → Stripped obj obj'
unfolding obj_check
obj_check-Stripped obj obj' e =
    let last = λ (m : Obj). some (strip m) in
    let (filled, e₁, e₂) =
      >>=-some (check_externs obj.externs obj) (λ m. check_symbols m.symbols 0 m >>= last) obj' e in
    let (checked, e₃, e₄) = >>=-some (check_symbols filled.symbols 0 filled) last obj' e₂ in
    let k =
      SameTables-trans obj filled checked (check_externs-SameTables obj.externs obj filled e₁)
        (check_symbols-SameTables filled.symbols 0 filled checked e₃) in
    let h : Stripped checked obj' =
      subst (Stripped checked) (some_injective e₄) (strip-Stripped checked) in
    record {
      globals_named = h.globals_named ∙ ap₂ names k.symbols k.globals;
      externs_named = h.externs_named ∙ ap₂ names k.symbols k.externs;
      globals_lt = h.globals_lt;
      externs_lt = h.externs_lt;
      no_others = h.no_others;
    }
