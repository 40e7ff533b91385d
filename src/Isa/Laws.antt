-- ===== src/Isa/Laws.antt =====
-- What programs rely on: the stack and the subroutine calls.
use jaris.Base.{ℕ, ◌+◌, ◌/◌, ◌%◌, ◌^◌, ◌<◌, ◌≡◌, arith, refl}
use jaris.Base.{if◌then◌else◌, ◌==◌, leb, ◌-◌}
use jaris.Instructions.Instruction.{pusha, popa, popb, call, callr, ret, sub}
use jaris.Isa.State.{Machine, plus, word_at, with_word, flags_of}
use jaris.Isa.Spec.{isa_plain}

pub word_at-with_word : (ram : ℕ → ℕ) (p v : ℕ) → v < 2 ^ 16 → word_at (with_word ram p v) p ≡ v
unfolding word_at with_word
word_at-with_word ram p v h = ground arith

sp_returns : (sp : ℕ) → sp < 2 ^ 16 → plus ((sp + (2 ^ 16 - 2)) % 2 ^ 16) 2 ≡ sp
sp_returns sp h = omega arith

-- `PUSHA` and then `POPA` give back A and SP, wherever SP points, odd addresses and the ends of the
-- RAM included; `POPB` gives A to B.
pub popa-pusha :
    (m : Machine)
    → m.a < 2 ^ 16
    → m.sp < 2 ^ 16
    → ((isa_plain popa (isa_plain pusha m)).a ≡ m.a)
      × ((isa_plain popa (isa_plain pusha m)).sp ≡ m.sp)
      × ((isa_plain popb (isa_plain pusha m)).b ≡ m.a)
unfolding isa_plain
popa-pusha m ha hs =
    rw (sp_returns m.sp hs)
      (word_at-with_word m.ram m.sp m.a ha, refl, word_at-with_word m.ram m.sp m.a ha)

-- `RET` after `CALL` or `CALLR` comes back to the instruction behind the call's two-byte operand,
-- with SP where it was.
pub ret-call :
    (m : Machine)
    → m.ip < 2 ^ 16
    → m.sp < 2 ^ 16
    → ((isa_plain ret (isa_plain call m)).ip ≡ plus m.ip 2)
      × ((isa_plain ret (isa_plain call m)).sp ≡ m.sp)
      × ((isa_plain ret (isa_plain callr m)).ip ≡ plus m.ip 2)
      × ((isa_plain ret (isa_plain callr m)).sp ≡ m.sp)
unfolding isa_plain
ret-call m hi hs =
    rw (sp_returns m.sp hs, word_at-with_word m.ram m.sp m.ip hi)
      (omega arith, refl, omega arith, refl)

-- `SUB` sets the carry exactly when A is not zero and no more than B: for A = 0 the carry is lost,
-- since the operand wraps to zero before the sum is taken.
pub sub-carry :
    (m : Machine)
    → m.a < 2 ^ 16
    → m.b < 2 ^ 16
    → (isa_plain sub m).flags / 4 ≡ (if (m.a == 0) then 0 else if leb m.a m.b then 1 else 0)
unfolding isa_plain flags_of
sub-carry m ha hb = ground arith
