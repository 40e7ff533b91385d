-- ===== src/Link/Keeps.antt =====
-- The loops of src/link.c `exe_link_obj` over symbols leave the code and the relocations.
use jaris.Base.{ℕ, suc, ◌+◌, ◌≡◌, refl, sym, ◌∙◌, ap, subst, Bool, true, false}
use jaris.Base.{List, [], ◌∷◌, ◌++◌, length, get_elem?, set, Option, none, some, ltb, ◌==◌, u16}
use jaris.Base.{ensure, ensure->>, ◌>>=◌, ◌>>◌, >>=-some, some_injective, Bool-cases, inl, inr}
use jaris.Files.Types.{Symbol, Exe, Obj, no_pos, global_max_count}
use jaris.Link.State.{
  ExeState, symbol_at, exe_find_symbol, exe_add_symbol_offset, add_uses, offset_symbol,
}
use jaris.Link.Objects.{
  new_extern, old_extern, new_global, old_global, link_extern, link_global, each_symbol, mem,
  local_image, link_locals, add_locals, link_symbols,
}

-- The code and the relocations are the same.
pub record Same (state state' : ExeState) : Type 0 where
  pub code : state'.exe.code ≡ state.exe.code
  pub size : state'.exe.code_size ≡ state.exe.code_size
  pub relocs : state'.exe.relocs ≡ state.exe.relocs

Same-refl : (s : ExeState) → Same s s
Same-refl s = record { code = refl; size = refl; relocs = refl }

Same-trans : (s t u : ExeState) → Same s t → Same t u → Same s u
Same-trans s t u h k = record {
  code = k.code ∙ h.code;
  size = k.size ∙ h.size;
  relocs = k.relocs ∙ h.relocs;
}

add_symbol-Same :
    (exe exe' : Exe) (s : Symbol) (offset : ℕ)
    → exe_add_symbol_offset exe s offset ≡ some exe'
    → (exe'.code ≡ exe.code) × (exe'.code_size ≡ exe.code_size) × (exe'.relocs ≡ exe.relocs)
unfolding exe_add_symbol_offset
add_symbol-Same exe exe' s offset e =
    let (_, out) =
      ensure->> _ (some (record exe { symbols = exe.symbols ++ (offset_symbol s offset ∷ []) }))
        exe' e in
    let same : record exe { symbols = exe.symbols ++ (offset_symbol s offset ∷ []) } ≡ exe' =
      some_injective out in
    (
      sym (ap (λ (x : Exe). x.code) same),
      sym (ap (λ (x : Exe). x.code_size) same),
      sym (ap (λ (x : Exe). x.relocs) same),
    )

new_extern-Same :
    (offset : ℕ) (from : Symbol) (state state' : ExeState)
    → new_extern offset from state ≡ some state'
    → Same state state'
unfolding new_extern
new_extern-Same offset from state state' e =
    let write = λ (exe : Exe).
      some
        (record state { externs = state.externs ++ (length state.exe.symbols ∷ []); exe = exe }) in
    let (_, e') = ensure->> _ (exe_add_symbol_offset state.exe from offset >>= write) state' e in
    let (exe, added, out) =
      >>=-some (exe_add_symbol_offset state.exe from offset) write state' e' in
    let (code, size, relocs) = add_symbol-Same state.exe exe from offset added in
    let same : record state {
      externs = state.externs ++ (length state.exe.symbols ∷ []);
      exe = exe;
    }
        ≡ state' =
      some_injective out in
    subst (Same state) same (record { code = code; size = size; relocs = relocs })

new_global-Same :
    (offset : ℕ) (from : Symbol) (state state' : ExeState)
    → new_global offset from state ≡ some state'
    → Same state state'
unfolding new_global
new_global-Same offset from state state' e =
    let write = λ (exe : Exe).
      some
        (record state { globals = state.globals ++ (length state.exe.symbols ∷ []); exe = exe }) in
    let (_, e') = ensure->> _ (exe_add_symbol_offset state.exe from offset >>= write) state' e in
    let (exe, added, out) =
      >>=-some (exe_add_symbol_offset state.exe from offset) write state' e' in
    let (code, size, relocs) = add_symbol-Same state.exe exe from offset added in
    let same : record state {
      globals = state.globals ++ (length state.exe.symbols ∷ []);
      exe = exe;
    }
        ≡ state' =
      some_injective out in
    subst (Same state) same (record { code = code; size = size; relocs = relocs })

old_extern-Same :
    (debug_info : Bool) (offset : ℕ) (from : Symbol) (index : ℕ) (state state' : ExeState)
    → old_extern debug_info offset from index state ≡ some state'
    → Same state state'
unfolding old_extern
old_extern-Same debug_info offset from index state state' e =
    let write = λ (s : Symbol). some (record state {
      externs = state.externs ++ (index ∷ []);
      exe = record state.exe { symbols = set state.exe.symbols index s };
    }) in
    let old = symbol_at state.exe.symbols index in
    let (_, e') = ensure->> _ (add_uses debug_info offset from old >>= write) state' e in
    let (s, added, out) = >>=-some (add_uses debug_info offset from old) write state' e' in
    let same : record state {
      externs = state.externs ++ (index ∷ []);
      exe = record state.exe { symbols = set state.exe.symbols index s };
    }
        ≡ state' =
      some_injective out in
    subst (Same state) same (record { code = refl; size = refl; relocs = refl })

old_global-Same :
    (debug_info : Bool) (offset : ℕ) (from : Symbol) (index : ℕ) (state state' : ExeState)
    → old_global debug_info offset from index state ≡ some state'
    → Same state state'
unfolding old_global
old_global-Same debug_info offset from index state state' e =
    let write = λ (s : Symbol). some (record state {
      globals = state.globals ++ (index ∷ []);
      exe = record state.exe { symbols = set state.exe.symbols index s };
    }) in
    let old = symbol_at state.exe.symbols index in
    let placed = add_uses debug_info offset from (record old { pos = u16 (from.pos + offset) }) in
    let (_, e₁) =
      ensure->> (old.pos == no_pos)
        (ensure (ltb (length state.globals + 1) global_max_count) >> (placed >>= write)) state' e in
    let (_, e₂) = ensure->> _ (placed >>= write) state' e₁ in
    let (s, added, out) = >>=-some placed write state' e₂ in
    let same : record state {
      globals = state.globals ++ (index ∷ []);
      exe = record state.exe { symbols = set state.exe.symbols index s };
    }
        ≡ state' =
      some_injective out in
    subst (Same state) same (record { code = refl; size = refl; relocs = refl })

link_extern-Same :
    (debug_info : Bool) (offset : ℕ) (from : Symbol) (state state' : ExeState)
    → link_extern debug_info offset from state ≡ some state'
    → Same state state'
unfolding link_extern
link_extern-Same debug_info offset from state state' e =
    after (exe_find_symbol state.exe from.image) e
  where
    after :
        (o : Option ℕ)
        → elim o as (λ _. Option ExeState) [
          | none ↦ new_extern offset from state
          | some index ↦ old_extern debug_info offset from index state
        ]
          ≡ some state'
        → Same state state'
    after none h = new_extern-Same offset from state state' h
    after (some index) h = old_extern-Same debug_info offset from index state state' h

link_global-Same :
    (debug_info : Bool) (offset : ℕ) (from : Symbol) (state state' : ExeState)
    → link_global debug_info offset from state ≡ some state'
    → Same state state'
unfolding link_global
link_global-Same debug_info offset from state state' e =
    after (exe_find_symbol state.exe from.image) e
  where
    after :
        (o : Option ℕ)
        → elim o as (λ _. Option ExeState) [
          | none ↦ new_global offset from state
          | some index ↦ old_global debug_info offset from index state
        ]
          ≡ some state'
        → Same state state'
    after none h = new_global-Same offset from state state' h
    after (some index) h = old_global-Same debug_info offset from index state state' h

each_symbol-Same :
    (round : Symbol → ExeState → Option ExeState)
    → ((from : Symbol) (s s' : ExeState) → round from s ≡ some s' → Same s s')
    → (symbols : List Symbol) (l : List ℕ) (state state' : ExeState)
    → each_symbol round symbols l state ≡ some state'
    → Same state state'
unfolding each_symbol
each_symbol-Same round keeps symbols [] state state' e =
    subst (Same state) (some_injective e) (Same-refl state)
each_symbol-Same round keeps symbols (i ∷ l) state state' e =
    let (from, found, e₁) =
      >>=-some (get_elem? symbols i) (λ f. round f state >>= each_symbol round symbols l) state'
        e in
    let (mid, stepped, e₂) = >>=-some (round from state) (each_symbol round symbols l) state' e₁ in
    Same-trans state mid state' (keeps from state mid stepped)
      (each_symbol-Same round keeps symbols l mid state' e₂)

link_locals-Same :
    (offset : ℕ) (copied : List ℕ) (obj_count : ℕ) (symbols : List Symbol) (i : ℕ) (exe exe' : Exe)
    → link_locals offset copied obj_count symbols i exe ≡ some exe'
    → (exe'.code ≡ exe.code) × (exe'.code_size ≡ exe.code_size) × (exe'.relocs ≡ exe.relocs)
unfolding link_locals
link_locals-Same offset copied obj_count [] i exe exe' e =
    let same : exe ≡ exe' = some_injective e in
    (
      sym (ap (λ (x : Exe). x.code) same),
      sym (ap (λ (x : Exe). x.code_size) same),
      sym (ap (λ (x : Exe). x.relocs) same),
    )
link_locals-Same offset copied obj_count (s ∷ symbols) i exe exe' e =
    let go = link_locals offset copied obj_count symbols (suc i) in
    elim (Bool-cases (mem i copied)) [
      | inl p ↦
          let q : go exe ≡ some exe' = rw p at e in
          link_locals-Same offset copied obj_count symbols (suc i) exe exe' q
      | inr p ↦
          let add =
            exe_add_symbol_offset exe (record s { image = local_image obj_count s.image }) offset in
          let q : (add >>= go) ≡ some exe' = rw p at e in
          let (mid, added, rest) = >>=-some add go exe' q in
          let (code, size, relocs) = add_symbol-Same exe mid _ offset added in
          let (code', size', relocs') =
            link_locals-Same offset copied obj_count symbols (suc i) mid exe' rest in
          (code' ∙ code, size' ∙ size, relocs' ∙ relocs)
    ]

add_locals-Same :
    (obj : Obj) (debug_info : Bool) (offset : ℕ) (state state' : ExeState)
    → add_locals obj debug_info offset state ≡ some state'
    → Same state state'
unfolding add_locals
add_locals-Same obj true offset state state' e =
    let write = λ (exe : Exe). some (record state { exe = exe; obj_count = state.obj_count + 1 }) in
    let locals =
      link_locals offset (obj.externs ++ obj.globals) state.obj_count obj.symbols 0 state.exe in
    let (exe, linked, out) = >>=-some locals write state' e in
    let (code, size, relocs) =
      link_locals-Same offset (obj.externs ++ obj.globals) state.obj_count obj.symbols 0 state.exe
        exe linked in
    let same : record state { exe = exe; obj_count = state.obj_count + 1 } ≡ state' =
      some_injective out in
    subst (Same state) same (record { code = code; size = size; relocs = relocs })
add_locals-Same obj false offset state state' e =
    let same : record state { obj_count = state.obj_count + 1 } ≡ state' = some_injective e in
    subst (Same state) same (record { code = refl; size = refl; relocs = refl })

pub link_symbols-Same :
    (obj : Obj) (debug_info : Bool) (offset : ℕ) (state state' : ExeState)
    → link_symbols obj debug_info offset state ≡ some state'
    → Same state state'
unfolding link_symbols
link_symbols-Same obj debug_info offset state state' e =
    let externs = each_symbol (link_extern debug_info offset) obj.symbols obj.externs in
    let globals = each_symbol (link_global debug_info offset) obj.symbols obj.globals in
    let (s₂, e₂, locals) =
      >>=-some (externs state >>= globals) (add_locals obj debug_info offset) state' e in
    let (s₁, e₁, e₃) = >>=-some (externs state) globals s₂ e₂ in
    let first =
      each_symbol-Same (link_extern debug_info offset) (link_extern-Same debug_info offset)
        obj.symbols obj.externs state s₁ e₁ in
    let second =
      each_symbol-Same (link_global debug_info offset) (link_global-Same debug_info offset)
        obj.symbols obj.globals s₁ s₂ e₃ in
    Same-trans state s₁ state' first
      (Same-trans s₁ s₂ state' second (add_locals-Same obj debug_info offset s₂ state' locals))
