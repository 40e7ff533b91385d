-- ===== src/Cpu/Harness.antt =====
-- src/runtime.c `test_check` and the functions that set what it expects: bytes of the RAM, -1 for any
-- byte as `none`, and the characters of the screen. A run that fails ends the program.
use jaris.Base.{
  ℕ, zero, suc, ◌+◌, ◌%◌, ◌<◌, ◌≤◌, ◌≡◌, ◌↔◌, refl, arith, Bool, true, false, ◌&&◌, &&-true,
  Bool-cases, inl, inr, List, [], ◌∷◌, ltb, ◌==◌, ==_iff, if◌then◌else◌, u8, low_bits, ◌>>>◌, ◌<<<◌,
  Option, none, some, some_injective, ensure, ensure->>, >>=-some, ◌>>=◌, ◌>>◌, subst, sym, ◌∙◌,
}
use jaris.Cpu.State.{Cpu, update}

-- The part of `test_t` beside the CPU.
pub record Harness : Type 0 where
  pub test_ram : ℕ → Option ℕ
  pub test_gpu : ℕ → ℕ
  pub gpu_x : ℕ
  pub gpu_y : ℕ

unfoldable pub all_below : ℕ → (ℕ → Bool) → Bool
all_below zero test = true
all_below (suc n) test = all_below n test && test n

-- A byte that nothing is expected of, or that is as expected.
unfoldable pub ram_agrees : Option ℕ → ℕ → Bool
ram_agrees none v = true
ram_agrees (some w) v = w == v

unfoldable pub test_check : Harness → Cpu → Bool
test_check test cpu =
    all_below 65536 (λ i. ram_agrees (test.test_ram i) (cpu.ram i))
    && all_below 32768 (λ i. test.test_gpu i == cpu.attribute_ram i)

-- One write to the expected RAM.
unfoldable pub expect_byte : ℕ → Option ℕ → Harness → Harness
expect_byte at v test = record test { test_ram = λ j. if at == j then v else test.test_ram j }

-- A word at an odd address is a failed assertion.
unfoldable pub test_set_u16 : ℕ → ℕ → Harness → Option Harness
test_set_u16 at num test = do
  ensure (at % 2 == 0)
  some (
      expect_byte (at + 1) (some (low_bits (num >>> 8) 8))
        (expect_byte at (some (low_bits num 8)) test))

unfoldable pub test_set_range : ℕ → List ℕ → Harness → Harness
test_set_range at [] test = test
test_set_range at (v ∷ bytes) test = test_set_range (suc at) bytes (expect_byte at (some v) test)

abbrev pub put_gpu : ℕ → ℕ → Harness → Harness
put_gpu at c test = record test {
  test_gpu = update test.test_gpu at c;
  gpu_x = u8 (test.gpu_x + 1);
}

abbrev pub new_line : Harness → Harness
new_line test = record test { gpu_x = 0; gpu_y = u8 (test.gpu_y + 1) }

abbrev pub wrap_line : Harness → Harness
wrap_line test = if ltb 0x4a test.gpu_x then new_line test else test

-- A character behind the 128 lines of the screen is written out of bounds.
unfoldable pub test_gpu_put_char : ℕ → Harness → Option Harness
test_gpu_put_char c test =
    if c == 10
    then some (new_line test)
    else (ensure (ltb (test.gpu_x + (test.gpu_y <<< 8)) 32768)
        >> some (wrap_line (put_gpu (test.gpu_x + (test.gpu_y <<< 8)) c test)))

unfoldable pub test_gpu_print : List ℕ → Harness → Option Harness
test_gpu_print [] test = some test
test_gpu_print (c ∷ str) test = test_gpu_put_char c test >>= test_gpu_print str

ltb-≤ : (a b : ℕ) → ltb a b ≡ false → b ≤ a
ltb-≤ a b e = ground (arith, e)

all_below-true : (n : ℕ) (test : ℕ → Bool) (i : ℕ) → all_below n test ≡ true → i < n → test i ≡ true
unfolding all_below
all_below-true zero test i e h = absurd (omega (arith, h))
all_below-true (suc n) test i e h = elim (Bool-cases (i == n)) [
  | inl p ↦ rw ((==_iff i n).0 p) (&&-true _ _ e).1
  | inr p ↦ all_below-true n test i (&&-true _ _ e).0 (ground (arith, h, p))
]

true-all_below :
    (n : ℕ) (test : ℕ → Bool) → ((i : ℕ) → i < n → test i ≡ true) → all_below n test ≡ true
unfolding all_below
true-all_below zero test h = refl
true-all_below (suc n) test h =
    rw (true-all_below n test (λ i lt. h i (omega (arith, lt)))) (h n (omega arith))

ram_agrees-some : (o : Option ℕ) (v w : ℕ) → o ≡ some v → ram_agrees o w ≡ true → w ≡ v
unfolding ram_agrees
ram_agrees-some none v w e h = cc
ram_agrees-some (some u) v w e h = sym ((==_iff u w).0 h) ∙ some_injective e

agrees-ram_agrees : (o : Option ℕ) (w : ℕ) → ((v : ℕ) → o ≡ some v → w ≡ v) → ram_agrees o w ≡ true
unfolding ram_agrees
agrees-ram_agrees none w h = refl
agrees-ram_agrees (some u) w h = (==_iff u w).1 (sym (h u refl))

both : (a b : Bool) → a ≡ true → b ≡ true → (a && b) ≡ true
both a b p q = rw p q

-- The check passes exactly when every byte of which something is expected holds it, and the screen
-- is as expected.
pub test_check_iff :
    (test : Harness) (cpu : Cpu)
    → (test_check test cpu ≡ true) ↔ (
        ((i v : ℕ) → i < 65536 → test.test_ram i ≡ some v → cpu.ram i ≡ v)
        × ((i : ℕ) → i < 32768 → cpu.attribute_ram i ≡ test.test_gpu i))
unfolding test_check
test_check_iff test cpu = (
  λ e. (
    λ i v h q.
        ram_agrees-some (test.test_ram i) v (cpu.ram i) q
          (all_below-true 65536 _ i (&&-true _ _ e).0 h),
    λ i h. sym ((==_iff _ _).0 (all_below-true 32768 _ i (&&-true _ _ e).1 h)),
  ),
  λ h.
      both _ _
        (true-all_below 65536 _
          (λ i lt. agrees-ram_agrees (test.test_ram i) (cpu.ram i) (λ v q. h.0 i v lt q)))
        (true-all_below 32768 _ (λ i lt. (==_iff _ _).1 (sym (h.1 i lt)))),
)

wrap_line-gpu_x : (test : Harness) → (wrap_line test).gpu_x ≤ 74
wrap_line-gpu_x test = elim (Bool-cases (ltb 74 test.gpu_x)) [
  | inl p ↦ rw p (omega arith)
  | inr p ↦ rw p (ltb-≤ 74 test.gpu_x p)
]

put_char-gpu_x :
    (c : ℕ) (test test' : Harness)
    → test.gpu_x ≤ 74
    → test_gpu_put_char c test ≡ some test'
    → test'.gpu_x ≤ 74
unfolding test_gpu_put_char
put_char-gpu_x c test test' h e = elim (Bool-cases (c == 10)) [
  | inl p ↦ subst (λ (t : Harness). t.gpu_x ≤ 74) (some_injective (rw p at e)) (omega arith)
  | inr p ↦
      let at = test.gpu_x + (test.gpu_y <<< 8) in
      let (_, out) =
        ensure->> (ltb at 32768) (some (wrap_line (put_gpu at c test))) test' (rw p at e) in
      subst (λ (t : Harness). t.gpu_x ≤ 74) (some_injective out)
        (wrap_line-gpu_x (put_gpu at c test))
]

-- The column stays within the 75 of the screen, whatever is printed.
pub test_gpu_print-gpu_x :
    (str : List ℕ) (test test' : Harness)
    → test.gpu_x ≤ 74
    → test_gpu_print str test ≡ some test'
    → test'.gpu_x ≤ 74
unfolding test_gpu_print
test_gpu_print-gpu_x [] test test' h e = subst (λ (t : Harness). t.gpu_x ≤ 74) (some_injective e) h
test_gpu_print-gpu_x (c ∷ str) test test' h e =
    let (next, put, rest) = >>=-some (test_gpu_put_char c test) (test_gpu_print str) test' e in
    test_gpu_print-gpu_x str next test' (put_char-gpu_x c test next h put) rest
