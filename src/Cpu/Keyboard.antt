-- ===== src/Cpu/Keyboard.antt =====
-- src/runtime.c `char_to_scancode` and `load_input_string`: text as keys pressed and released.
use jaris.Base.{ℕ, zero, suc, ◌+◌, List, [], ◌∷◌, ◌++◌, length, ltb, ◌==◌, if◌then◌else◌}
use jaris.Base.{ℤ, pos, negsuc, Option, none, some, ◌>>=◌, ◌>>◌, ensure}
use jaris.Cpu.State.{Cpu, update}

-- The scan codes of the keys alone.
abbrev plain_keys : List (ℕ × ℤ)
plain_keys =
    (49, pos 2)
    ∷ (50, pos 3)
    ∷ (51, pos 4)
    ∷ (52, pos 5)
    ∷ (53, pos 6)
    ∷ (54, pos 7)
    ∷ (55, pos 8)
    ∷ (56, pos 9)
    ∷ (57, pos 10)
    ∷ (48, pos 11)
    ∷ (45, pos 12)
    ∷ (61, pos 13)
    ∷ (9, pos 15)
    ∷ (113, pos 16)
    ∷ (119, pos 17)
    ∷ (101, pos 18)
    ∷ (114, pos 19)
    ∷ (116, pos 20)
    ∷ (121, pos 21)
    ∷ (117, pos 22)
    ∷ (105, pos 23)
    ∷ (111, pos 24)
    ∷ (112, pos 25)
    ∷ (91, pos 26)
    ∷ (93, pos 27)
    ∷ (10, pos 28)
    ∷ (97, pos 30)
    ∷ (115, pos 31)
    ∷ (100, pos 32)
    ∷ (102, pos 33)
    ∷ (103, pos 34)
    ∷ (104, pos 35)
    ∷ (106, pos 36)
    ∷ (107, pos 37)
    ∷ (108, pos 38)
    ∷ (59, pos 39)
    ∷ (39, pos 40)
    ∷ (96, pos 41)
    ∷ (92, pos 43)
    ∷ (122, pos 44)
    ∷ (120, pos 45)
    ∷ (99, pos 46)
    ∷ (118, pos 47)
    ∷ (98, pos 48)
    ∷ (110, pos 49)
    ∷ (109, pos 50)
    ∷ (44, pos 51)
    ∷ (46, pos 52)
    ∷ (47, pos 53)
    ∷ (32, pos 57)
    ∷ []

-- The keys with shift have negative codes.
abbrev shifted_keys : List (ℕ × ℤ)
shifted_keys =
    (33, negsuc 1)
    ∷ (64, negsuc 2)
    ∷ (35, negsuc 3)
    ∷ (36, negsuc 4)
    ∷ (37, negsuc 5)
    ∷ (94, negsuc 6)
    ∷ (38, negsuc 7)
    ∷ (42, negsuc 8)
    ∷ (40, negsuc 9)
    ∷ (41, negsuc 10)
    ∷ (95, negsuc 11)
    ∷ (43, negsuc 12)
    ∷ (81, negsuc 15)
    ∷ (87, negsuc 16)
    ∷ (69, negsuc 17)
    ∷ (82, negsuc 18)
    ∷ (84, negsuc 19)
    ∷ (89, negsuc 20)
    ∷ (85, negsuc 21)
    ∷ (73, negsuc 22)
    ∷ (79, negsuc 23)
    ∷ (80, negsuc 24)
    ∷ (123, negsuc 25)
    ∷ (125, negsuc 26)
    ∷ (65, negsuc 29)
    ∷ (83, negsuc 30)
    ∷ (68, negsuc 31)
    ∷ (70, negsuc 32)
    ∷ (71, negsuc 33)
    ∷ (72, negsuc 34)
    ∷ (74, negsuc 35)
    ∷ (75, negsuc 36)
    ∷ (76, negsuc 37)
    ∷ (58, negsuc 38)
    ∷ (34, negsuc 39)
    ∷ (126, negsuc 40)
    ∷ (124, negsuc 42)
    ∷ (90, negsuc 43)
    ∷ (88, negsuc 44)
    ∷ (67, negsuc 45)
    ∷ (86, negsuc 46)
    ∷ (66, negsuc 47)
    ∷ (78, negsuc 48)
    ∷ (77, negsuc 49)
    ∷ (60, negsuc 50)
    ∷ (62, negsuc 51)
    ∷ (63, negsuc 52)
    ∷ []

abbrev scancode_in : List (ℕ × ℤ) → ℕ → ℤ
scancode_in [] c = pos 0
scancode_in ((k, code) ∷ keys) c = if k == c then code else scancode_in keys c

-- The array indexed by the character; what it does not name is 0.
unfoldable pub char_to_scancode : ℕ → ℤ
char_to_scancode c = scancode_in (plain_keys ++ shifted_keys) c

-- A shift, the key and their releases, or the key and its release. A code of 0 is an error.
unfoldable pub scancode_bytes : ℤ → Option (List ℕ)
scancode_bytes (pos zero) = none
scancode_bytes (pos (suc n)) = do ensure (ltb (suc n) 0x80); some (suc n ∷ (suc n + 0x80) ∷ [])
scancode_bytes (negsuc n) = do
  ensure (ltb (suc n) 0x80)
  some (0x2a ∷ suc n ∷ (suc n + 0x80) ∷ 0xaa ∷ [])

-- Characters from 128 on index before the array, since `char` is signed.
unfoldable pub char_bytes : ℕ → Option (List ℕ)
char_bytes c = ensure (ltb c 128) >> scancode_bytes (char_to_scancode c)

-- The bytes that one character puts in the queue, and what follows it: `\n` is a newline, `\D`
-- control and `d`, which ends the input.
unfoldable pub escape_bytes : ℕ → Option (List ℕ)
escape_bytes c =
    if c == 110
    then char_bytes 10
    else if c == 68
    then some (0x1d ∷ 0x20 ∷ 0xa0 ∷ 0x9d ∷ [])
    else none

unfoldable pub store_bytes : List ℕ → ℕ → (ℕ → ℕ) → ℕ → ℕ
store_bytes [] n fifo = fifo
store_bytes (b ∷ bytes) n fifo = store_bytes bytes (suc n) (update fifo n b)

-- `cpu->KEY_FIFO[cpu->key_fifo_i++] = ...`, behind the assertion that they fit. A negative count
-- writes out of bounds.
unfoldable pub push_from : ℤ → List ℕ → Cpu → Option Cpu
push_from (negsuc n) bytes cpu = none
push_from (pos n) bytes cpu = do
  ensure (ltb (n + length bytes) 1000)
  some (record cpu {
    key_fifo = store_bytes bytes n cpu.key_fifo;
    key_fifo_i = pos (n + length bytes);
  })

unfoldable pub push_keys : Cpu → List ℕ → Option Cpu
push_keys cpu bytes = push_from cpu.key_fifo_i bytes cpu

unfoldable pub load_input_string : List ℕ → Cpu → Option Cpu
load_input_string [] cpu = some cpu
load_input_string (c ∷ []) cpu = if c == 92 then none else (char_bytes c >>= push_keys cpu)
load_input_string (c ∷ d ∷ string) cpu =
    if c == 92
    then (escape_bytes d >>= push_keys cpu >>= load_input_string string)
    else (char_bytes c >>= push_keys cpu >>= load_input_string (d ∷ string))
