-- ===== src/Cpu/HarnessTests.antt =====
-- A word that is expected at 4, and a line on the screen.
use jaris.Base.{
  ℕ, ◌<◌, ◌≤◌, ◌≡◌, ◌↔◌, refl, arith, true, [], ◌∷◌, Option, none, some, if◌then◌else◌, ◌==◌,
}
use jaris.Cpu.Boot.{zero_cpu}
use jaris.Cpu.Harness.{
  Harness, test_check, test_check_iff, test_gpu_put_char, test_gpu_print, test_gpu_print-gpu_x,
}

abbrev expected : Harness
expected = record {
  test_ram = λ i. if i == 4 then some 7 else none;
  test_gpu = λ i. 0;
  gpu_x = 74;
  gpu_y = 0;
}

test_check_iff_example : (test_check expected zero_cpu ≡ true) ↔ (
    ((i v : ℕ) → i < 65536 → expected.test_ram i ≡ some v → zero_cpu.ram i ≡ v)
    × ((i : ℕ) → i < 32768 → zero_cpu.attribute_ram i ≡ 0))
test_check_iff_example = test_check_iff expected zero_cpu

abbrev or_expected : Option Harness → Harness
or_expected none = expected
or_expected (some test) = test

printed : Harness
unfolding test_gpu_print test_gpu_put_char
printed = or_expected (test_gpu_print (65 ∷ 66 ∷ []) expected)

printing : test_gpu_print (65 ∷ 66 ∷ []) expected ≡ some printed
unfolding test_gpu_print test_gpu_put_char printed
printing = refl

test_gpu_print-gpu_x_example : printed.gpu_x ≤ 74
test_gpu_print-gpu_x_example =
    test_gpu_print-gpu_x (65 ∷ 66 ∷ []) expected printed (omega arith) printing
