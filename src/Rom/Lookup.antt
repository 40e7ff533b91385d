-- ===== src/Rom/Lookup.antt =====
-- What an entry of the control ROM holds: the last call of `set_control_rom` that covers it.
use jaris.Base.{ℕ, zero, suc, ◌+◌, ◌*◌, ◌≡◌, ◌<◌, ◌≤◌, refl, ap, arith, Bool, true, ◌&&◌, bit_or}
use jaris.Base.{if◌then◌else◌, ◌==◌, ltb, leb, bit_or-add, bit_or_comm, List, [], ◌∷◌, All, ◌∙◌}
use jaris.Base.{subst, Bool-cases, inl, inr, ==_iff}
use jaris.Instructions.{opcode}
use jaris.Instructions.Opcodes.{opcode-lt}
use jaris.Rom.Calls.{Rom, store, rom_index, write_flags, flag_test, RomCall, allflag, someflag}
use jaris.Rom.Calls.{set_instruction_allflag, set_instruction_flags, call, call_all}
use jaris.Rom.Calls.{fetch_0, fetch_1, fetch_loop}
use jaris.Rom.Program.{control_calls, set_control_rom, control_rom}

-- The three fields of an index do not overlap.
pub rom_index_lem : (i s f : ℕ) → i < 64 → s < 16 → rom_index i s f ≡ i + 64 * s + 1024 * f
unfolding rom_index
rom_index_lem i s f hi hs = omega (
  arith,
  bit_or_comm i (s * 64),
  bit_or-add 6 s i hi,
  bit_or_comm (bit_or i (s * 64)) (f * 1024),
  bit_or-add 10 f (bit_or i (s * 64)),
)

rom_index-eq :
    (i s f j t g : ℕ)
    → i < 64
    → s < 16
    → j < 64
    → t < 16
    → (rom_index i s f == rom_index j t g) ≡ ((s == t) && (i == j)) && (f == g)
rom_index-eq i s f j t g hi hs hj ht =
    ground (arith, rom_index_lem i s f hi hs, rom_index_lem j t g hj ht)

-- One round of the loop, seen at the entry `j`, `t`, `g`.
store_lem :
    (guard : ℕ → Bool) (n i s code : ℕ) (rom : Rom) (j t g : ℕ)
    → i < 64
    → s < 16
    → j < 64
    → t < 16
    → (if guard n then store rom (rom_index i s n) code else rom) (rom_index j t g)
      ≡ (if ((s == t) && (i == j)) && ((n == g) && guard g) then code else rom (rom_index j t g))
store_lem guard n i s code rom j t g hi hs hj ht = elim (Bool-cases (n == g)) [
  | inl e ↦
      let p : n ≡ g = (==_iff n g).0 e in
      subst
        (λ m. (if guard n then store rom (rom_index i s n) code else rom) (rom_index j t g) ≡ (
          if ((s == t) && (i == j)) && ((n == g) && guard m) then code else rom (rom_index j t g)))
        p (ground (arith, rom_index-eq i s n j t g hi hs hj ht))
  | inr e ↦ ground (arith, rom_index-eq i s n j t g hi hs hj ht)
]

-- An entry after the writes for the flag values from `n` on.
write_flags_lem :
    (guard : ℕ → Bool) (left n i s code : ℕ) (rom : Rom) (j t g : ℕ)
    → i < 64
    → s < 16
    → j < 64
    → t < 16
    → write_flags guard left n i s code rom (rom_index j t g) ≡ (
        if ((s == t) && (i == j)) && ((leb n g && ltb g (n + left)) && guard g)
        then code
        else rom (rom_index j t g))
unfolding write_flags
write_flags_lem guard zero n i s code rom j t g hi hs hj ht = ground arith
write_flags_lem guard (suc left) n i s code rom j t g hi hs hj ht = ground (
  arith,
  store_lem guard n i s code rom j t g hi hs hj ht,
  write_flags_lem guard left (n + 1) i s code
      (if guard n then store rom (rom_index i s n) code else rom) j t g hi hs hj ht,
)

abbrev pub step_of : RomCall → ℕ
step_of (allflag inst step code) = step
step_of (someflag inst step flags invert code) = step

abbrev pub code_of : RomCall → ℕ
code_of (allflag inst step code) = code
code_of (someflag inst step flags invert code) = code

-- Whether a call writes the entry of opcode `j`, step `t` and flags `g`.
pub covers : RomCall → ℕ → ℕ → ℕ → Bool
unfolding opcode
covers (allflag inst step code) j t g = (step == t) && (opcode inst == j)
covers (someflag inst step flags invert code) j t g =
    ((step == t) && (opcode inst == j)) && flag_test flags invert g

-- The code of the last call that covers the entry, or else `d`.
unfoldable pub entry : List RomCall → ℕ → ℕ → ℕ → ℕ → ℕ
unfolding covers
entry [] j t g d = d
entry (c ∷ cs) j t g d = entry cs j t g (if covers c j t g then code_of c else d)

call_lem :
    (c : RomCall) (rom : Rom) (j t g : ℕ)
    → step_of c < 16
    → j < 64
    → t < 16
    → g < 8
    → call c rom (rom_index j t g) ≡ (if covers c j t g then code_of c else rom (rom_index j t g))
unfolding call covers set_instruction_allflag set_instruction_flags
call_lem (allflag inst step code) rom j t g hs hj ht hg = ground (
  arith,
  write_flags_lem (λ _. true) 8 0 (opcode inst) step code rom j t g (opcode-lt inst) hs hj ht,
)
call_lem (someflag inst step flags invert code) rom j t g hs hj ht hg = ground (
  arith,
  write_flags_lem (flag_test flags invert) 8 0 (opcode inst) step code rom j t g (opcode-lt inst) hs
      hj ht,
)

call_all_lem :
    (cs : List RomCall) (rom : Rom) (j t g : ℕ)
    → All (λ c. step_of c < 16) cs
    → j < 64
    → t < 16
    → g < 8
    → call_all cs rom (rom_index j t g) ≡ entry cs j t g (rom (rom_index j t g))
unfolding call_all entry
call_all_lem [] rom j t g h hj ht hg = refl
call_all_lem (c ∷ cs) rom j t g h hj ht hg =
    call_all_lem cs (call c rom) j t g h.1 hj ht hg
    ∙ ap (entry cs j t g) (call_lem c rom j t g h.0 hj ht hg)

-- What the loop at the head of `set_control_rom` leaves at step `t`, over a ROM of zeros.
abbrev pub fetch_entry : ℕ → ℕ
fetch_entry t = if t == 1 then fetch_1 else if t == 0 then fetch_0 else 0

fetch_loop_lem :
    (left n : ℕ) (rom : Rom) (j t g : ℕ)
    → n + left ≤ 64
    → j < 64
    → t < 16
    → g < 8
    → fetch_loop left n rom (rom_index j t g) ≡ (
        if leb n j && ltb j (n + left)
        then (if t == 1 then fetch_1 else if t == 0 then fetch_0 else rom (rom_index j t g))
        else rom (rom_index j t g))
unfolding fetch_loop set_instruction_allflag
fetch_loop_lem zero n rom j t g hn hj ht hg = ground arith
fetch_loop_lem (suc left) n rom j t g hn hj ht hg = ground (
  arith,
  fetch_loop_lem left (n + 1)
      (set_instruction_allflag n 1 fetch_1 (set_instruction_allflag n 0 fetch_0 rom)) j t g
      (omega arith) hj ht hg,
  write_flags_lem (λ _. true) 8 0 n 1 fetch_1 (set_instruction_allflag n 0 fetch_0 rom) j t g
      (omega arith) (omega arith) hj ht,
  write_flags_lem (λ _. true) 8 0 n 0 fetch_0 rom j t g (omega arith) (omega arith) hj ht,
)

control_calls-steps : All (λ c. step_of c < 16) control_calls
unfolding control_calls
control_calls-steps = omega arith

-- Each of the 8192 entries that the CPU can address holds the word of the last call of
-- `set_control_rom` for its opcode, step and flags, or its fetch step, or zero.
pub control_rom-entry :
    (j t g : ℕ)
    → j < 64
    → t < 16
    → g < 8
    → control_rom (rom_index j t g) ≡ entry control_calls j t g (fetch_entry t)
unfolding control_rom set_control_rom
control_rom-entry j t g hj ht hg =
    call_all_lem control_calls (fetch_loop 64 0 (λ _. 0)) j t g control_calls-steps hj ht hg
    ∙ ap (entry control_calls j t g)
        (ground (arith, fetch_loop_lem 64 0 (λ _. 0) j t g (omega arith) hj ht hg))
