-- ===== src/Link/Correct.antt =====
-- What src/link.c `exe_state_check_exe` promises: the externs have positions, and the code holds
-- them.
use jaris.Base.{ℕ, ◌^◌, ◌<◌, ◌≡◌, refl, sym, ◌∙◌, ap, subst, Bool, false}
use jaris.Base.{List, [], ◌∷◌, map, All, some, ◌>>=◌, >>=-some, some_injective}
use jaris.Files.Types.{Symbol, RelocEntry, DynamicEntry}
use jaris.Link.State.{ExeState}
use jaris.Link.Check.{
  reloc_externs, resolve, resolve_externs, use_sos, apply_relocs, serve_externs, relocate, patch,
}
use jaris.Link.Check.{exe_state_check_exe}
use jaris.Link.Patch.{code_word, AllFit, apply_relocs_lem}
use jaris.Link.Resolve.{UsesHold, HasPos, Resolved, reloc_externs_lem, resolve_lem, resolve-externs}

-- The states between the loops of a check that succeeds.
record Checked (state state' : ExeState) : Type 0 where
  served : List (ℕ × Bool) × ExeState
  resolved : ExeState
  relocated : ExeState
  serves : serve_externs state ≡ some served
  resolves : resolve served.0 served.1 ≡ some resolved
  relocates : relocate resolved ≡ some relocated
  patches : patch relocated ≡ some state'

checked : (state state' : ExeState) → exe_state_check_exe state ≡ some state' → Checked state state'
unfolding exe_state_check_exe resolve_externs
checked state state' e =
    let (relocated, e₁, patches) =
      >>=-some (serve_externs state >>= resolve_externs >>= relocate) patch state' e in
    let (resolved, e₂, relocates) =
      >>=-some (serve_externs state >>= resolve_externs) relocate relocated e₁ in
    let (served, serves, resolves) = >>=-some (serve_externs state) resolve_externs resolved e₂ in
    record {
      served = served;
      resolved = resolved;
      relocated = relocated;
      serves = serves;
      resolves = resolves;
      relocates = relocates;
      patches = patches;
    }

-- What `patch`, `relocate` and `serve_externs` change, and what they leave.
patch_parts :
    (s s' : ExeState)
    → patch s ≡ some s'
    → (apply_relocs s.exe.relocs s.exe.code ≡ some s'.exe.code)
      × (s'.exe.relocs ≡ s.exe.relocs)
      × (s'.exe.symbols ≡ s.exe.symbols)
unfolding patch
patch_parts s s' e =
    let write = λ (code : ℕ → ℕ). some (record s { exe = record s.exe { code = code } }) in
    let (code, applied, out) = >>=-some (apply_relocs s.exe.relocs s.exe.code) write s' e in
    let same : record s { exe = record s.exe { code = code } } ≡ s' = some_injective out in
    (
      applied ∙ ap (λ (t : ExeState). some t.exe.code) same,
      sym (ap (λ (t : ExeState). t.exe.relocs) same),
      sym (ap (λ (t : ExeState). t.exe.symbols) same),
    )

relocate_parts :
    (s s' : ExeState)
    → relocate s ≡ some s'
    → (reloc_externs s.exe.symbols s.externs s.exe.relocs ≡ some s'.exe.relocs)
      × (s'.exe.symbols ≡ s.exe.symbols)
unfolding relocate
relocate_parts s s' e =
    let write =
      λ (relocs : List RelocEntry). some (record s { exe = record s.exe { relocs = relocs } }) in
    let (relocs, added, out) =
      >>=-some (reloc_externs s.exe.symbols s.externs s.exe.relocs) write s' e in
    let same : record s { exe = record s.exe { relocs = relocs } } ≡ s' = some_injective out in
    (
      added ∙ ap (λ (t : ExeState). some t.exe.relocs) same,
      sym (ap (λ (t : ExeState). t.exe.symbols) same),
    )

abbrev Served : Type 0
Served = List (ℕ × Bool) × ExeState

serve_parts :
    (s : ExeState) (p : Served)
    → serve_externs s ≡ some p
    → (p.1.externs ≡ s.externs) × (s.sos ≡ [] → p.0 ≡ map (λ e. (e, false)) s.externs)
unfolding serve_externs use_sos
serve_parts s p e =
    let start = map (λ e. (e, false)) s.externs in
    let write = λ (q : List (ℕ × Bool) × List DynamicEntry).
      (let r : Served = (q.0, record s { exe = record s.exe { dynamics = q.1 } }) in some r) in
    let (q, used, out) =
      >>=-some {B = Served} (use_sos s.exe.symbols s.sos start s.exe.dynamics) write p e in
    let same : ◌≡◌ {A = Served} (q.0, record s { exe = record s.exe { dynamics = q.1 } }) p =
      some_injective out in
    (
      sym (ap (λ (t : Served). t.1.externs) same),
      λ static.
          let none_used : use_sos s.exe.symbols [] start s.exe.dynamics ≡ some q =
            subst (λ l. use_sos s.exe.symbols l start s.exe.dynamics ≡ some q) static used in
          sym (ap (λ (t : Served). t.0) same)
          ∙ sym (ap (λ (t : List (ℕ × Bool) × List DynamicEntry). t.0) (some_injective none_used)),
    )

-- When the check succeeds, its relocations fit 16 bits and any two of them that overlap are the same
-- one, the code holds, at every use of every extern that has a position, that position. An extern that
-- several objects use may be listed several times.
pub exe_state_check_exe-uses :
    (state state' : ExeState)
    → exe_state_check_exe state ≡ some state'
    → AllFit state'.exe.relocs
    → All (λ r. r.what < 2 ^ 16) state'.exe.relocs
    → All
        (UsesHold (λ r. code_word state'.exe.code r.place ≡ r.what) state'.exe.symbols)
        state.externs
exe_state_check_exe-uses state state' e apart words =
    let c = checked state state' e in
    let (applied, same_relocs, same_symbols) = patch_parts c.relocated state' c.patches in
    let (added, kept_symbols) = relocate_parts c.resolved c.relocated c.relocates in
    let symbols : state'.exe.symbols ≡ c.resolved.exe.symbols = same_symbols ∙ kept_symbols in
    let externs : c.resolved.externs ≡ state.externs =
      resolve-externs c.served.0 c.served.1 c.resolved c.resolves
      ∙ (serve_parts state c.served c.serves).0 in
    let P = λ (r : RelocEntry). code_word state'.exe.code r.place ≡ r.what in
    let applied' : apply_relocs state'.exe.relocs c.relocated.exe.code ≡ some state'.exe.code =
      rw same_relocs applied in
    let written =
      apply_relocs_lem state'.exe.relocs c.relocated.exe.code state'.exe.code applied' apart
        words in
    let added' : reloc_externs c.resolved.exe.symbols c.resolved.externs c.resolved.exe.relocs
        ≡ some state'.exe.relocs =
      added ∙ ap some (sym same_relocs) in
    let (_, uses) =
      reloc_externs_lem P c.resolved.exe.symbols c.resolved.externs c.resolved.exe.relocs
        state'.exe.relocs added' written in
    subst (λ l. All (UsesHold P state'.exe.symbols) l) externs
      (subst (λ l. All (UsesHold P l) c.resolved.externs) (sym symbols) uses)

All-Resolved :
    (symbols : List Symbol) (externs : List ℕ)
    → All (Resolved symbols) (map (λ e. (e, false)) externs)
    → All (HasPos symbols) externs
All-Resolved symbols [] h = tt
All-Resolved symbols (e ∷ externs) h = (h.0 refl, All-Resolved symbols externs h.1)

-- Without shared objects a check that succeeds leaves no extern without a position.
pub exe_state_check_exe-HasPos :
    (state state' : ExeState)
    → exe_state_check_exe state ≡ some state'
    → state.sos ≡ []
    → All (HasPos state'.exe.symbols) state.externs
exe_state_check_exe-HasPos state state' e static =
    let c = checked state state' e in
    let symbols : state'.exe.symbols ≡ c.resolved.exe.symbols =
      (patch_parts c.relocated state' c.patches).2
      ∙ (relocate_parts c.resolved c.relocated c.relocates).1 in
    let all = resolve_lem c.served.0 c.served.1 c.resolved c.resolves in
    let all' =
      subst (All (Resolved c.resolved.exe.symbols)) ((serve_parts state c.served c.serves).1 static)
        all in
    subst (λ l. All (HasPos l) state.externs) (sym symbols)
      (All-Resolved c.resolved.exe.symbols state.externs all')
