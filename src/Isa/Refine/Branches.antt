-- ===== src/Isa/Refine/Branches.antt =====
-- src/runtime.c, the microcode of the conditional jumps. The sum that gives the target also sets the
-- flags, and the entry that ends the jump is written only for flags that meet the condition.
use jaris.Base.{ℕ, zero, suc, ◌+◌, ◌<◌, ◌≤◌, ◌≡◌, refl, arith, ◌∙◌, ap}
use jaris.Base.{
  Bool, true, false, some, if◌then◌else◌, Bool-cases, inl, inr, u16, bit_or, ◌<<<◌, ◌*◌, ◌/◌,
}
use jaris.Instructions.{Instruction, opcode}
use jaris.Instructions.Instruction.{jmprz, jmprn, jmprc, jmprnz, jmprnn, jmprnc}
use jaris.Cpu.State.{Cpu}
use jaris.Cpu.Tick.{adder, ram_word}
use jaris.Cpu.Valid.{IsValid}
use jaris.Cpu.Run.{steps, steps-add}
use jaris.Isa.State.{Machine, machine, plus, word_at, sum_flags}
use jaris.Isa.Spec.{taken, isa_plain, branch}
use jaris.Isa.Run.{Implements, microcode, fetched, observe}
use jaris.Isa.Bridge.{adder_plain, word_lem, word_at-lt, flags_of-lt}

below_8 {ℓ} :
    (P : ℕ → Type ℓ) → P 0 → P 1 → P 2 → P 3 → P 4 → P 5 → P 6 → P 7 → (k : ℕ) → k < 8 → P k
below_8 P a b c d e f g h zero lt = a
below_8 P a b c d e f g h (suc zero) lt = b
below_8 P a b c d e f g h (suc (suc zero)) lt = c
below_8 P a b c d e f g h (suc (suc (suc zero))) lt = d
below_8 P a b c d e f g h (suc (suc (suc (suc zero)))) lt = e
below_8 P a b c d e f g h (suc (suc (suc (suc (suc zero))))) lt = f
below_8 P a b c d e f g h (suc (suc (suc (suc (suc (suc zero)))))) lt = g
below_8 P a b c d e f g h (suc (suc (suc (suc (suc (suc (suc zero))))))) lt = h
below_8 P a b c d e f g h (suc (suc (suc (suc (suc (suc (suc (suc k)))))))) lt =
    absurd (omega arith)

-- Three cycles in: past the addition of a jump that is taken, or at the end of one that is not.
abbrev jumped : Instruction → Cpu → Cpu
unfolding opcode
jumped i c =
    let sum = adder false false (ram_word (record c { mar = c.ip })) c.ip in
    record c {
      ip = sum.0;
      x = ram_word (record c { mar = c.ip });
      y = c.ip;
      mar = c.ip;
      fr = sum.1;
      sc = 5;
      ir = opcode i;
      ticks = c.ticks + 1 + 1 + 1;
    }

abbrev passed : Instruction → Cpu → Cpu
unfolding opcode
passed i c = record c {
  ip = u16 (u16 (c.ip + 1) + 1);
  sc = 0;
  ir = opcode i;
  ticks = c.ticks + 1 + 1;
}

abbrev Head : Instruction → Cpu → Bool → ℕ → Type 0
Head i c r k =
    steps 3 (fetched i (record c { fr = k })) r
    ≡ some (if taken i k then jumped i (record c { fr = k }) else passed i (record c { fr = k }), r)

-- The cycles that are left after the addition has set the flags to `k`.
abbrev rest_cycles : Instruction → ℕ → ℕ
rest_cycles i k = if taken i k then 1 else 11

abbrev Tail : Instruction → Cpu → Bool → ℕ → Type 0
unfolding opcode
Tail i c r k =
    observe (steps (rest_cycles i k) (record c { sc = 5; ir = opcode i; fr = k }) r)
    ≡ some (machine (record c { fr = k }), 0, r)

jmprz-Head : (c : Cpu) (r : Bool) (k : ℕ) → k < 8 → Head jmprz c r k
unfolding microcode taken
jmprz-Head c r = below_8 (Head jmprz c r) refl refl refl refl refl refl refl refl

jmprz-Tail : (c : Cpu) (r : Bool) (k : ℕ) → k < 8 → Tail jmprz c r k
unfolding microcode taken
jmprz-Tail c r = below_8 (Tail jmprz c r) refl refl refl refl refl refl refl refl

jmprn-Head : (c : Cpu) (r : Bool) (k : ℕ) → k < 8 → Head jmprn c r k
unfolding microcode taken
jmprn-Head c r = below_8 (Head jmprn c r) refl refl refl refl refl refl refl refl

jmprn-Tail : (c : Cpu) (r : Bool) (k : ℕ) → k < 8 → Tail jmprn c r k
unfolding microcode taken
jmprn-Tail c r = below_8 (Tail jmprn c r) refl refl refl refl refl refl refl refl

jmprc-Head : (c : Cpu) (r : Bool) (k : ℕ) → k < 8 → Head jmprc c r k
unfolding microcode taken
jmprc-Head c r = below_8 (Head jmprc c r) refl refl refl refl refl refl refl refl

jmprc-Tail : (c : Cpu) (r : Bool) (k : ℕ) → k < 8 → Tail jmprc c r k
unfolding microcode taken
jmprc-Tail c r = below_8 (Tail jmprc c r) refl refl refl refl refl refl refl refl

jmprnz-Head : (c : Cpu) (r : Bool) (k : ℕ) → k < 8 → Head jmprnz c r k
unfolding microcode taken
jmprnz-Head c r = below_8 (Head jmprnz c r) refl refl refl refl refl refl refl refl

jmprnz-Tail : (c : Cpu) (r : Bool) (k : ℕ) → k < 8 → Tail jmprnz c r k
unfolding microcode taken
jmprnz-Tail c r = below_8 (Tail jmprnz c r) refl refl refl refl refl refl refl refl

jmprnn-Head : (c : Cpu) (r : Bool) (k : ℕ) → k < 8 → Head jmprnn c r k
unfolding microcode taken
jmprnn-Head c r = below_8 (Head jmprnn c r) refl refl refl refl refl refl refl refl

jmprnn-Tail : (c : Cpu) (r : Bool) (k : ℕ) → k < 8 → Tail jmprnn c r k
unfolding microcode taken
jmprnn-Tail c r = below_8 (Tail jmprnn c r) refl refl refl refl refl refl refl refl

jmprnc-Head : (c : Cpu) (r : Bool) (k : ℕ) → k < 8 → Head jmprnc c r k
unfolding microcode taken
jmprnc-Head c r = below_8 (Head jmprnc c r) refl refl refl refl refl refl refl refl

jmprnc-Tail : (c : Cpu) (r : Bool) (k : ℕ) → k < 8 → Tail jmprnc c r k
unfolding microcode taken
jmprnc-Tail c r = below_8 (Tail jmprnc c r) refl refl refl refl refl refl refl refl

-- The cycles of a conditional jump: three if it is not taken. A jump that is taken finds the entry
-- that ends it only if the flags of the target's sum still meet the condition; if not, the step
-- counter runs through the empty entries to its end.
pub branch_cycles : Instruction → Cpu → ℕ
unfolding taken
branch_cycles i c =
    if taken i c.fr then 3 + rest_cycles i (sum_flags (word_at c.ram c.ip + c.ip)) else 3

module _ (i : Instruction) (head : (c : Cpu) (r : Bool) (k : ℕ) → k < 8 → Head i c r k)
    (tail : (c : Cpu) (r : Bool) (k : ℕ) → k < 8 → Tail i c r k)
    (spec : (m : Machine) → isa_plain i m ≡ branch (taken i m.flags) m) (c : Cpu)
    (h : IsValid c) where
  not_taken : taken i c.fr ≡ false → Implements i (branch_cycles i c) c
  unfolding branch_cycles observe opcode
  not_taken e r = rw (spec (machine c)) (rw e (rw (head c r c.fr h.fr_lt) (rw e refl)))

  target_word : bit_or (c.ram (c.ip / 2 * 2 + 1) <<< 8) (c.ram (c.ip / 2 * 2)) ≡ word_at c.ram c.ip
  target_word = word_lem c.ram h.ram_bytes c.ip

  sum_lem :
      let sum = adder false false (ram_word (record c { mar = c.ip })) c.ip in
      (sum.0 ≡ plus (word_at c.ram c.ip) c.ip) × (sum.1 ≡ sum_flags (word_at c.ram c.ip + c.ip))
  sum_lem =
      rw target_word
        (adder_plain (word_at c.ram c.ip) c.ip (word_at-lt c.ram h.ram_bytes c.ip) h.ip_lt)

  flags-lt : sum_flags (word_at c.ram c.ip + c.ip) < 8
  flags-lt = flags_of-lt _ _ (omega (arith, word_at-lt c.ram h.ram_bytes c.ip, h.ip_lt))

  is_taken : taken i c.fr ≡ true → Implements i (branch_cycles i c) c
  unfolding branch_cycles observe opcode
  is_taken e r =
      let d = jumped i c in
      let f = sum_flags (word_at c.ram c.ip + c.ip) in
      let start : steps 3 (fetched i c) r ≡ some (d, r) = rw e at (head c r c.fr h.fr_lt) in
      rw (spec (machine c)) (
        rw e (
          ap observe (steps-add 3 (rest_cycles i f) (fetched i c) d r r start)
          ∙ (ap (λ k. observe (steps (rest_cycles i f) (record d { fr = k }) r)) sum_lem.1
              ∙ (tail d r f flags-lt
                  ∙ ap (λ k. some (machine (record d { ip = k; fr = f }), 0, r)) sum_lem.0))))

  branch_lem : Implements i (branch_cycles i c) c
  branch_lem = elim (Bool-cases (taken i c.fr)) [ inl e ↦ is_taken e | inr e ↦ not_taken e ]

pub jmprz_lem : (c : Cpu) (h : IsValid c) → Implements jmprz (branch_cycles jmprz c) c
unfolding isa_plain
jmprz_lem = branch_lem jmprz jmprz-Head jmprz-Tail (λ m. refl)

pub jmprn_lem : (c : Cpu) (h : IsValid c) → Implements jmprn (branch_cycles jmprn c) c
unfolding isa_plain
jmprn_lem = branch_lem jmprn jmprn-Head jmprn-Tail (λ m. refl)

pub jmprc_lem : (c : Cpu) (h : IsValid c) → Implements jmprc (branch_cycles jmprc c) c
unfolding isa_plain
jmprc_lem = branch_lem jmprc jmprc-Head jmprc-Tail (λ m. refl)

pub jmprnz_lem : (c : Cpu) (h : IsValid c) → Implements jmprnz (branch_cycles jmprnz c) c
unfolding isa_plain
jmprnz_lem = branch_lem jmprnz jmprnz-Head jmprnz-Tail (λ m. refl)

pub jmprnn_lem : (c : Cpu) (h : IsValid c) → Implements jmprnn (branch_cycles jmprnn c) c
unfolding isa_plain
jmprnn_lem = branch_lem jmprnn jmprnn-Head jmprnn-Tail (λ m. refl)

pub jmprnc_lem : (c : Cpu) (h : IsValid c) → Implements jmprnc (branch_cycles jmprnc c) c
unfolding isa_plain
jmprnc_lem = branch_lem jmprnc jmprnc-Head jmprnc-Tail (λ m. refl)

-- A conditional jump takes at most fourteen cycles.
pub branch_cycles-le : (i : Instruction) (c : Cpu) → branch_cycles i c ≤ 14
unfolding branch_cycles
branch_cycles-le i c = ground arith
