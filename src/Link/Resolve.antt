-- ===== src/Link/Resolve.antt =====
-- The two loops of src/link.c `exe_state_check_exe` that resolve the externs.
use jaris.Base.{ℕ, zero, suc, ◌+◌, ◌≡◌, ◌≢◌, arith, sym, ap, subst, Bool, true, false, not}
use jaris.Base.{List, [], ◌∷◌, ◌++◌, All, length, set, some, ltb, ◌==◌, ensure->>, ◌>>=◌, >>=-some}
use jaris.Base.{Bool-cases, inl, inr, ==_iff, some_injective}
use jaris.Files.Types.{Symbol, RelocEntry, no_pos, reloc_max_count}
use jaris.Link.State.{ExeState, symbol_at, exe_state_find_global}
use jaris.Link.Check.{add_relocs, reloc_externs, resolve, set_pos}

All-first {ℓ κ} : {A : Type ℓ} (P : A → Type κ) (l m : List A) → All P (l ++ m) → All P l × All P m
All-first P [] m h = (tt, h)
All-first P (x ∷ l) m h = let (k, rest) = All-first P l m h.1 in ((h.0, k), rest)

-- What holds of all entries of the table after the uses of a symbol are added.
add_relocs_lem {κ} :
    (P : RelocEntry → Type κ) (bound pos : ℕ) (uses : List ℕ) (relocs relocs' : List RelocEntry)
    → add_relocs bound pos uses relocs ≡ some relocs'
    → All P relocs'
    → All P relocs × All (λ r. P (record { place = r; what = pos })) uses
unfolding add_relocs
add_relocs_lem P bound pos [] relocs relocs' e h = (subst (All P) (sym (some_injective e)) h, tt)
add_relocs_lem P bound pos (r ∷ uses) relocs relocs' e h =
    let new : RelocEntry = record { place = r; what = pos } in
    let (_, e') =
      ensure->> (ltb (length relocs + 1) bound) (add_relocs bound pos uses (relocs ++ (new ∷ [])))
        relocs' e in
    let (k, rest) = add_relocs_lem P bound pos uses (relocs ++ (new ∷ [])) relocs' e' h in
    let (old, this) = All-first P relocs (new ∷ []) k in (old, (this.0, rest))

-- The uses of one extern satisfy the predicate as relocations, if it has a position.
abbrev pub UsesHold {κ} : (RelocEntry → Type κ) → List Symbol → ℕ → Type κ
UsesHold P symbols e =
    (symbol_at symbols e).pos ≢ no_pos
    → All (λ r. P (record { place = r; what = (symbol_at symbols e).pos }))
        (symbol_at symbols e).relocs

-- What holds of all entries of the new table holds of the uses of the externs.
pub reloc_externs_lem {κ} :
    (P : RelocEntry → Type κ) (symbols : List Symbol) (externs : List ℕ)
    (relocs relocs' : List RelocEntry)
    → reloc_externs symbols externs relocs ≡ some relocs'
    → All P relocs'
    → All P relocs × All (UsesHold P symbols) externs
unfolding reloc_externs
reloc_externs_lem P symbols [] relocs relocs' e h = (subst (All P) (sym (some_injective e)) h, tt)
reloc_externs_lem P symbols (x ∷ externs) relocs relocs' e h =
    elim (Bool-cases ((symbol_at symbols x).pos == no_pos)) [
      | inl p ↦
          let q : reloc_externs symbols externs relocs ≡ some relocs' = rw p at e in
          let (k, rest) = reloc_externs_lem P symbols externs relocs relocs' q h in
          (k, ((λ ne. absurd (ne ((==_iff _ no_pos).0 p))), rest))
      | inr p ↦
          let s = symbol_at symbols x in
          let q : (add_relocs reloc_max_count s.pos s.relocs relocs
                >>= reloc_externs symbols externs)
              ≡ some relocs' =
            rw p at e in
          let (mid, here, there) =
            >>=-some (add_relocs reloc_max_count s.pos s.relocs relocs)
              (reloc_externs symbols externs) relocs' q in
          let (k, rest) = reloc_externs_lem P symbols externs mid relocs' there h in
          let (old, uses) = add_relocs_lem P reloc_max_count s.pos s.relocs relocs mid here k in
          (old, ((λ _. uses), rest))
    ]

abbrev pub HasPos : List Symbol → ℕ → Type 0
HasPos symbols e = (symbol_at symbols e).pos ≢ no_pos

zero-≢-no_pos : 0 ≢ no_pos
zero-≢-no_pos = omega arith

set-HasPos :
    (symbols : List Symbol) (e : ℕ) (s : Symbol) → s.pos ≢ no_pos → HasPos (set symbols e s) e
unfolding symbol_at
set-HasPos [] e s h = zero-≢-no_pos
set-HasPos (x ∷ symbols) zero s h = h
set-HasPos (x ∷ symbols) (suc e) s h = set-HasPos symbols e s h

set-HasPos_keeps :
    (symbols : List Symbol) (e i : ℕ) (s : Symbol)
    → s.pos ≢ no_pos
    → HasPos symbols i
    → HasPos (set symbols e s) i
unfolding symbol_at
set-HasPos_keeps [] e i s h k = k
set-HasPos_keeps (x ∷ symbols) zero zero s h k = h
set-HasPos_keeps (x ∷ symbols) zero (suc i) s h k = k
set-HasPos_keeps (x ∷ symbols) (suc e) zero s h k = k
set-HasPos_keeps (x ∷ symbols) (suc e) (suc i) s h k = set-HasPos_keeps symbols e i s h k

-- Whether the extern is still to be resolved, and then has a position.
abbrev pub Resolved : List Symbol → ℕ × Bool → Type 0
Resolved symbols (e, done) = done ≡ false → HasPos symbols e

-- The step for one extern that is not done.
resolve_step :
    (e : ℕ) (externs : List (ℕ × Bool)) (state state' : ExeState)
    → resolve ((e, false) ∷ externs) state ≡ some state'
    → (pos : ℕ) × (pos ≢ no_pos)
      × (resolve externs
            (record state { exe = record state.exe { symbols = set_pos state.exe.symbols e pos } })
          ≡ some state')
unfolding resolve
resolve_step e externs state state' h =
    let pos = exe_state_find_global state (symbol_at state.exe.symbols e).image in
    let (ne, rest) = ensure->> (not (pos == no_pos)) _ state' h in (pos, ground arith, rest)

resolve-HasPos :
    (externs : List (ℕ × Bool)) (state state' : ExeState) (i : ℕ)
    → resolve externs state ≡ some state'
    → HasPos state.exe.symbols i
    → HasPos state'.exe.symbols i
unfolding resolve
resolve-HasPos [] state state' i h k =
    let e : state ≡ state' = some_injective h in
    subst (λ (s : ExeState). HasPos s.exe.symbols i) e k
resolve-HasPos ((e, true) ∷ externs) state state' i h k = resolve-HasPos externs state state' i h k
resolve-HasPos ((e, false) ∷ externs) state state' i h k =
    let (pos, ne, rest) = resolve_step e externs state state' h in
    resolve-HasPos externs _ state' i rest (set-HasPos_keeps state.exe.symbols e i _ ne k)

pub resolve_lem :
    (externs : List (ℕ × Bool)) (state state' : ExeState)
    → resolve externs state ≡ some state'
    → All (Resolved state'.exe.symbols) externs
unfolding resolve
resolve_lem [] state state' h = tt
resolve_lem ((e, true) ∷ externs) state state' h = ((λ k. cc), resolve_lem externs state state' h)
resolve_lem ((e, false) ∷ externs) state state' h =
    let (pos, ne, rest) = resolve_step e externs state state' h in
    (
      (λ _. resolve-HasPos externs _ state' e rest (set-HasPos state.exe.symbols e _ ne)),
      resolve_lem externs _ state' rest,
    )

pub resolve-externs :
    (externs : List (ℕ × Bool)) (state state' : ExeState)
    → resolve externs state ≡ some state'
    → state'.externs ≡ state.externs
unfolding resolve
resolve-externs [] state state' h =
    let e : state ≡ state' = some_injective h in sym (ap (λ (s : ExeState). s.externs) e)
resolve-externs ((e, true) ∷ externs) state state' h = resolve-externs externs state state' h
resolve-externs ((e, false) ∷ externs) state state' h =
    let (pos, ne, rest) = resolve_step e externs state state' h in
    resolve-externs externs
      (record state { exe = record state.exe { symbols = set_pos state.exe.symbols e pos } }) state'
      rest
