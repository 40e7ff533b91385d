-- ===== src/Isa/Program.antt =====
-- Whole programs: instructions one after another, and that the simulated CPU keeps up with them.
use jaris.Base.{
  ℕ, zero, suc, ◌+◌, ◌*◌, ◌≡◌, ◌≢◌, ◌≤◌, refl, arith, ◌∙◌, ap, sym, subst, Bool, true, false,
}
use jaris.Base.{
  Option, none, some, Bool-cases, inl, inr, ◌==◌, ==_iff, if◌then◌else◌, some_injective, List, [],
  ◌∷◌,
}
use jaris.Instructions.{Instruction, opcode}
use jaris.Instructions.Instruction.{hlt}
use jaris.Instructions.Names.{all_instructions}
use jaris.Rom.Program.{control_rom}
use jaris.Cpu.State.{Cpu}
use jaris.Cpu.Valid.{IsValid}
use jaris.Cpu.Keeps.{IsTicked}
use jaris.Cpu.Run.{run, run-add, run-IsTicked}
use jaris.Isa.State.{Machine, machine, plus}
use jaris.Isa.Spec.{isa}
use jaris.Isa.Run.{Seen, observe}
use jaris.Isa.Correct.{cycles, cycles-le, expected, after_fetch, run-expected}

find_opcode : List Instruction → ℕ → Option Instruction
find_opcode [] b = none
find_opcode (i ∷ l) b = if opcode i == b then some i else find_opcode l b

-- The instruction of an opcode.
unfoldable pub decode : ℕ → Option Instruction
unfolding find_opcode
decode b = find_opcode all_instructions b

find_opcode-opcode :
    (l : List Instruction) (b : ℕ) (i : Instruction) → find_opcode l b ≡ some i → b ≡ opcode i
unfolding find_opcode
find_opcode-opcode [] b i e = cc
find_opcode-opcode (j ∷ l) b i e = elim (Bool-cases (opcode j == b)) [
  | inl q ↦
      let p : some j ≡ some i = rw q at e in sym ((==_iff _ _).0 q) ∙ ap opcode (some_injective p)
  | inr q ↦ let p : find_opcode l b ≡ some i = rw q at e in find_opcode-opcode l b i p
]

-- One instruction of a program. A halt, an undefined opcode and a fault end it.
unfoldable pub isa_step : Machine → Option Machine
isa_step m = elim (decode (m.ram m.ip)) [
  | none ↦ none
  | some i ↦ if opcode i == 63 then none else isa i (record m { ip = plus m.ip 1 })
]

unfoldable pub isa_run : ℕ → Machine → Option Machine
isa_run zero m = some m
isa_run (suc n) m = elim (isa_step m) [ none ↦ none | some m' ↦ isa_run n m' ]

-- A run of `k` cycles that ends at step 0 with the machine `m` and is still running.
pub record Reaches (c : Cpu) (bound : ℕ) (m : Machine) : Type 0 where
  pub k : ℕ
  pub end : Cpu
  pub runs : run control_rom k c true ≡ some (end, true)
  pub sees : machine end ≡ m
  pub at_fetch : end.sc ≡ 0
  pub valid : IsValid end
  pub k_le : k ≤ bound

observed :
    (o : Option (Cpu × Bool)) (m : Machine)
    → observe o ≡ some (m, 0, true)
    → (c : Cpu) × (o ≡ some (c, true)) × (machine c ≡ m) × (c.sc ≡ 0)
unfolding observe
observed none m e = cc
observed (some (c, r)) m e = (c, ground arith, cc, cc)

pub step_Reaches :
    (i : Instruction) (c : Cpu) (m : Machine)
    → IsValid c
    → c.sc ≡ 0
    → c.ram c.ip ≡ opcode i
    → i ≢ hlt
    → isa i (record (machine c) { ip = plus c.ip 1 }) ≡ some m
    → Reaches c 16 m
unfolding expected
step_Reaches i c m h start code ne e =
    let k = 2 + cycles i (after_fetch c) in
    let seen : observe (run control_rom k c true) ≡ some (m, 0, true) =
      run-expected i c true h start code ne
      ∙ ap (λ o. elim o as (λ _. Seen) [ none ↦ none | some m' ↦ some (m', 0, true) ]) e in
    let (d, runs, sees, at) = observed (run control_rom k c true) m seen in
    record {
      k = k;
      end = d;
      runs = runs;
      sees = sees;
      at_fetch = at;
      valid = subst IsTicked runs (run-IsTicked k c true h);
      k_le = cycles-le i (after_fetch c);
    }

-- Instructions with other opcodes than 63 are not the halt.
pub not_hlt : (i : Instruction) → (opcode i == 63) ≡ false → i ≢ hlt
unfolding opcode
not_hlt i e p = let q : (opcode hlt == 63) ≡ false = subst (λ k. (opcode k == 63) ≡ false) p e in cc

-- What a step that succeeds has fetched and done.
abbrev Stepped : Machine → Machine → Type 0
Stepped m m' =
    (i : Instruction) × (m.ram m.ip ≡ opcode i)
    × (i ≢ hlt)
    × (isa i (record m { ip = plus m.ip 1 }) ≡ some m')

step_decoded :
    (m m' : Machine) (o : Option Instruction)
    → find_opcode all_instructions (m.ram m.ip) ≡ o
    → elim o as (λ _. Option Machine) [
      | none ↦ none
      | some i ↦ if opcode i == 63 then none else isa i (record m { ip = plus m.ip 1 })
    ]
      ≡ some m'
    → Stepped m m'
step_decoded m m' none d e = cc
step_decoded m m' (some i) d e = elim (Bool-cases (opcode i == 63)) [
  | inl q ↦ let p : none ≡ some m' = rw q at e in cc
  | inr q ↦ (i, find_opcode-opcode all_instructions (m.ram m.ip) i d, not_hlt i q, (rw q at e))
]

isa_step-Stepped : (m m' : Machine) → isa_step m ≡ some m' → Stepped m m'
unfolding isa_step decode
isa_step-Stepped m m' e = step_decoded m m' (find_opcode all_instructions (m.ram m.ip)) refl e

pub Reaches-trans :
    (c : Cpu) (p q : ℕ) (m m' : Machine)
    → IsValid c
    → (first : Reaches c p m) → Reaches first.end q m'
    → Reaches c (p + q) m'
Reaches-trans c p q m m' h first second = record {
  k = first.k + second.k;
  end = second.end;
  runs = run-add first.k second.k c first.end true true h first.runs ∙ second.runs;
  sees = second.sees;
  at_fetch = second.at_fetch;
  valid = second.valid;
  k_le = omega (arith, first.k_le, second.k_le);
}

-- The simulated CPU runs every program of the instruction set: what `n` instructions make of the
-- machine, `tick` makes of it in at most 16 cycles for each.
pub run-isa_run :
    (n : ℕ) (c : Cpu) (m : Machine)
    → IsValid c
    → c.sc ≡ 0
    → isa_run n (machine c) ≡ some m
    → Reaches c (16 * n) m
unfolding isa_run run
run-isa_run zero c m h start e = record {
  k = 0;
  end = c;
  runs = refl;
  sees = some_injective e;
  at_fetch = start;
  valid = h;
  k_le = omega arith;
}
run-isa_run (suc n) c m h start e =
    after (isa_step (machine c)) refl e (λ d d_valid d_start q. run-isa_run n d m d_valid d_start q)
  where
    after :
        (o : Option Machine)
        → isa_step (machine c) ≡ o
        → elim o as (λ _. Option Machine) [ none ↦ none | some m' ↦ isa_run n m' ] ≡ some m
        → ((d : Cpu) → IsValid d → d.sc ≡ 0 → isa_run n (machine d) ≡ some m → Reaches d (16 * n) m)
        → Reaches c (16 * suc n) m
    after none p q ih = cc
    after (some m') p q ih =
        let (i, code, ne, done) = isa_step-Stepped (machine c) m' p in
        let first = step_Reaches i c m' h start code ne done in
        let rest = ih first.end first.valid first.at_fetch (rw first.sees q) in
        subst (λ b. Reaches c b m) (omega arith) (Reaches-trans c 16 (16 * n) m' m h first rest)
