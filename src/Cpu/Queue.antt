-- ===== src/Cpu/Queue.antt =====
-- What src/runtime.c `load_input_string` does to the keyboard queue.
use jaris.Base.{
  ℕ, zero, suc, ◌+◌, ◌<◌, ◌≤◌, ◌≡◌, refl, arith, ◌∙◌, subst, List, [], ◌∷◌, length, All,
}
use jaris.Base.{ltb, ◌==◌, ℤ, pos, negsuc, none, some, ◌>>=◌, >>=-some, ensure->>, some_injective}
use jaris.Base.{Bool-cases, inl, inr}
use jaris.Cpu.State.{Cpu, update}
use jaris.Cpu.Valid.{IsValid, AllBytes}
use jaris.Cpu.Keyboard.{
  char_to_scancode, scancode_bytes, char_bytes, escape_bytes, store_bytes, push_from, push_keys,
  load_input_string,
}

abbrev AreBytes : List ℕ → Type 0
AreBytes l = All (λ b. b < 256) l

scancode_bytes-AreBytes : (z : ℤ) (l : List ℕ) → scancode_bytes z ≡ some l → AreBytes l
unfolding scancode_bytes
scancode_bytes-AreBytes (pos zero) l e = cc
scancode_bytes-AreBytes (pos (suc n)) l e =
    let (lt, out) = ensure->> (ltb (suc n) 0x80) (some (suc n ∷ (suc n + 0x80) ∷ [])) l e in
    let same : suc n ∷ (suc n + 0x80) ∷ [] ≡ l = some_injective out in
    subst AreBytes same (ground arith, (ground arith, tt))
scancode_bytes-AreBytes (negsuc n) l e =
    let (lt, out) =
      ensure->> (ltb (suc n) 0x80) (some (0x2a ∷ suc n ∷ (suc n + 0x80) ∷ 0xaa ∷ [])) l e in
    let same : 0x2a ∷ suc n ∷ (suc n + 0x80) ∷ 0xaa ∷ [] ≡ l = some_injective out in
    subst AreBytes same (omega arith, (ground arith, (ground arith, (omega arith, tt))))

char_bytes-AreBytes : (c : ℕ) (l : List ℕ) → char_bytes c ≡ some l → AreBytes l
unfolding char_bytes
char_bytes-AreBytes c l e =
    let (lt, out) = ensure->> (ltb c 128) (scancode_bytes (char_to_scancode c)) l e in
    scancode_bytes-AreBytes (char_to_scancode c) l out

escape_bytes-AreBytes : (c : ℕ) (l : List ℕ) → escape_bytes c ≡ some l → AreBytes l
unfolding escape_bytes
escape_bytes-AreBytes c l e = elim (Bool-cases (c == 110)) [
  | inl p ↦ char_bytes-AreBytes 10 l (rw p at e)
  | inr p ↦ elim (Bool-cases (c == 68)) [
    | inl q ↦
        let out : some (0x1d ∷ 0x20 ∷ 0xa0 ∷ 0x9d ∷ []) ≡ some l = rw (p, q) at e in
        subst AreBytes (some_injective out)
          (omega arith, (omega arith, (omega arith, (omega arith, tt))))
    | inr q ↦ let out : none ≡ some l = rw (p, q) at e in cc
  ]
]

-- The bytes below the count stay, and the array holds bytes.
store_bytes_keeps :
    (l : List ℕ) (n : ℕ) (fifo : ℕ → ℕ) (i : ℕ) → i < n → store_bytes l n fifo i ≡ fifo i
unfolding store_bytes
store_bytes_keeps [] n fifo i h = refl
store_bytes_keeps (b ∷ l) n fifo i h =
    store_bytes_keeps l (suc n) (update fifo n b) i (omega arith) ∙ ground arith

store_bytes-AllBytes :
    (l : List ℕ) (n : ℕ) (fifo : ℕ → ℕ)
    → AreBytes l
    → AllBytes fifo
    → AllBytes (store_bytes l n fifo)
unfolding store_bytes AllBytes
store_bytes-AllBytes [] n fifo h k = k
store_bytes-AllBytes (b ∷ l) n fifo h k =
    store_bytes-AllBytes l (suc n) (update fifo n b) h.1 (λ i. ground (arith, k i, h.0))

-- The queue has grown behind its `n` bytes, within its bound, and the state is valid.
pub record Grown (n : ℕ) (cpu cpu' : Cpu) : Type 0 where
  pub count : ℕ
  pub counted : cpu'.key_fifo_i ≡ pos count
  pub count_le : n ≤ count
  pub count_lt : count < 1000
  pub kept : (i : ℕ) → i < n → cpu'.key_fifo i ≡ cpu.key_fifo i
  pub valid : IsValid cpu'

push_keys-Grown :
    (n : ℕ) (l : List ℕ) (cpu cpu' : Cpu)
    → IsValid cpu
    → cpu.key_fifo_i ≡ pos n
    → AreBytes l
    → push_keys cpu l ≡ some cpu'
    → Grown n cpu cpu'
unfolding push_keys push_from
push_keys-Grown n l cpu cpu' h start bytes e =
    let fifo = store_bytes l n cpu.key_fifo in
    let e₀ : push_from (pos n) l cpu ≡ some cpu' = rw start at e in
    let (lt, out) =
      ensure->> (ltb (n + length l) 1000)
        (some (record cpu { key_fifo = fifo; key_fifo_i = pos (n + length l) })) cpu' e₀ in
    let same : record cpu { key_fifo = fifo; key_fifo_i = pos (n + length l) } ≡ cpu' =
      some_injective out in
    let all = store_bytes-AllBytes l n cpu.key_fifo bytes h.key_bytes in
    subst (Grown n cpu) same (record {
      count = n + length l;
      counted = refl;
      count_le = omega arith;
      count_lt = ground arith;
      kept = λ i k. store_bytes_keeps l n cpu.key_fifo i k;
      valid = assumption (h, all);
    })

Grown-trans : (n : ℕ) (a b c : Cpu) → (first : Grown n a b) → Grown first.count b c → Grown n a c
Grown-trans n a b c first second = record {
  count = second.count;
  counted = second.counted;
  count_le = omega (arith, first.count_le, second.count_le);
  count_lt = second.count_lt;
  kept = λ i k. second.kept i (omega (arith, first.count_le, k)) ∙ first.kept i k;
  valid = second.valid;
}

-- What a string puts behind a queue of `n` bytes leaves those bytes, keeps the count below 1000 and
-- the state valid.
pub load_input_string-Grown :
    (string : List ℕ) (n : ℕ) (cpu cpu' : Cpu)
    → IsValid cpu
    → cpu.key_fifo_i ≡ pos n
    → n < 1000
    → load_input_string string cpu ≡ some cpu'
    → Grown n cpu cpu'
unfolding load_input_string
load_input_string-Grown [] n cpu cpu' h start lt e =
    subst (Grown n cpu) (some_injective e) (record {
      count = n;
      counted = start;
      count_le = omega arith;
      count_lt = lt;
      kept = λ i k. refl;
      valid = h;
    })
load_input_string-Grown (c ∷ []) n cpu cpu' h start lt e = elim (Bool-cases (c == 92)) [
  | inl p ↦ let out : none ≡ some cpu' = rw p at e in cc
  | inr p ↦
      let out : (char_bytes c >>= push_keys cpu) ≡ some cpu' = rw p at e in
      let (l, found, pushed) = >>=-some (char_bytes c) (push_keys cpu) cpu' out in
      push_keys-Grown n l cpu cpu' h start (char_bytes-AreBytes c l found) pushed
]
load_input_string-Grown (c ∷ d ∷ string) n cpu cpu' h start lt e = elim (Bool-cases (c == 92)) [
  | inl p ↦
      let out : (escape_bytes d >>= push_keys cpu >>= load_input_string string) ≡ some cpu' =
        rw p at e in
      let (mid, pushing, rest) =
        >>=-some (escape_bytes d >>= push_keys cpu) (load_input_string string) cpu' out in
      let (l, found, pushed) = >>=-some (escape_bytes d) (push_keys cpu) mid pushing in
      let first = push_keys-Grown n l cpu mid h start (escape_bytes-AreBytes d l found) pushed in
      Grown-trans n cpu mid cpu' first (
        load_input_string-Grown string first.count mid cpu' first.valid first.counted first.count_lt
          rest)
  | inr p ↦
      let out : (char_bytes c >>= push_keys cpu >>= load_input_string (d ∷ string)) ≡ some cpu' =
        rw p at e in
      let (mid, pushing, rest) =
        >>=-some (char_bytes c >>= push_keys cpu) (load_input_string (d ∷ string)) cpu' out in
      let (l, found, pushed) = >>=-some (char_bytes c) (push_keys cpu) mid pushing in
      let first = push_keys-Grown n l cpu mid h start (char_bytes-AreBytes c l found) pushed in
      Grown-trans n cpu mid cpu' first (
        load_input_string-Grown (d ∷ string) first.count mid cpu' first.valid first.counted
          first.count_lt rest)
]
