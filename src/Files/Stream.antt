-- ===== src/Files/Stream.antt =====
-- A file as the bytes that are still to be read, and `fread` and `fwrite` on it. A failed assertion,
-- an `eprintf`, which ends the program, and an access out of bounds are `none`.
use jaris.Base.{ℕ, zero, suc, ◌+◌, ◌*◌, ◌/◌, ◌%◌, ◌^◌, ◌<◌, ◌≡◌, refl, arith, ap, Bool, true}
use jaris.Base.{Option, none, some, List, [], ◌∷◌, ◌++◌, length, All, if◌then◌else◌, append_assoc}

abbrev pub Decoder {ℓ} : Type ℓ → Type ℓ
Decoder A = List ℕ → Option (A × List ℕ)

abbrev pub pure {ℓ} : {A : Type ℓ} → A → Decoder A
pure a file = some (a, file)

abbrev pub feed {ℓ κ} :
    {A : Type ℓ} {B : Type κ} → Option (A × List ℕ) → (A → Decoder B) → Option (B × List ℕ)
feed none f = none
feed (some (a, file)) f = f a file

infixl 10 ◌>>=◌ ◌>>◌
abbrev pub ◌>>=◌ {ℓ κ} : {A : Type ℓ} {B : Type κ} → Decoder A → (A → Decoder B) → Decoder B
(d >>= f) file = feed (d file) f

-- `assert`, and the bounds of an array.
abbrev pub guard : Bool → Decoder (Unit {0})
guard b file = if b then some (tt, file) else none

abbrev pub ◌>>◌ {ℓ κ} : {A : Type ℓ} {B : Type κ} → Decoder A → Decoder B → Decoder B
d >> e = d >>= λ _. e

pub fread_u8 : Decoder ℕ
fread_u8 [] = none
fread_u8 (b ∷ file) = some (b, file)

-- The machine's words are little-endian.
pub fread_u16 : Decoder ℕ
fread_u16 [] = none
fread_u16 (lo ∷ []) = none
fread_u16 (lo ∷ hi ∷ file) = some (lo + 256 * hi, file)

unfoldable pub fread_list {ℓ} : {A : Type ℓ} → ℕ → Decoder A → Decoder (List A)
fread_list zero item = pure []
fread_list (suc n) item = do x ← item; xs ← fread_list n item; pure (x ∷ xs)

abbrev pub fwrite_u8 : ℕ → List ℕ
fwrite_u8 v = v ∷ []

abbrev pub fwrite_u16 : ℕ → List ℕ
fwrite_u16 v = v % 256 ∷ v / 256 % 256 ∷ []

unfoldable pub fwrite_list {ℓ} : {A : Type ℓ} → (A → List ℕ) → List A → List ℕ
fwrite_list item [] = []
fwrite_list item (x ∷ xs) = item x ++ fwrite_list item xs

-- The decoder reads the bytes as the value, whatever follows them.
pub Decodes {ℓ} : {A : Type ℓ} → Decoder A → List ℕ → A → Type ℓ
Decodes d bytes a = (file : List ℕ) → d (bytes ++ file) ≡ some (a, file)

pub Decodes-pure {ℓ} : {A : Type ℓ} (a : A) → Decodes (pure a) [] a
unfolding Decodes
Decodes-pure a file = refl

pub Decodes-bind {ℓ κ} :
    {A : Type ℓ} {B : Type κ} (d : Decoder A) (f : A → Decoder B) (bs cs : List ℕ) (a : A) (b : B)
    → Decodes d bs a
    → Decodes (f a) cs b
    → Decodes (d >>= f) (bs ++ cs) b
unfolding Decodes
Decodes-bind d f bs cs a b h k file = rw (append_assoc bs cs file, h (cs ++ file)) (k file)

-- The last part of a format.
pub Decodes-last {ℓ κ} :
    {A : Type ℓ} {B : Type κ} (d : Decoder A) (f : A → B) (bs : List ℕ) (a : A)
    → Decodes d bs a
    → Decodes (d >>= λ x. pure (f x)) bs (f a)
unfolding Decodes
Decodes-last d f bs a h file = rw (h file)

pub Decodes-guard {ℓ} :
    {A : Type ℓ} (test : Bool) (d : Decoder A) (bs : List ℕ) (a : A)
    → test ≡ true
    → Decodes d bs a
    → Decodes (guard test >> d) bs a
unfolding Decodes
Decodes-guard test d bs a e h file = rw e (h file)

pub Decodes-u8 : (v : ℕ) → Decodes fread_u8 (fwrite_u8 v) v
unfolding Decodes fread_u8
Decodes-u8 v file = refl

pub Decodes-u16 : (v : ℕ) → v < 2 ^ 16 → Decodes fread_u16 (fwrite_u16 v) v
unfolding Decodes fread_u16
Decodes-u16 v h file = ap (λ (n : ℕ). some (n, file)) (omega arith)

-- A list is read back by its length when each of its items is read back.
pub Decodes-list {ℓ} :
    {A : Type ℓ} (d : Decoder A) (e : A → List ℕ) (l : List A)
    → All (λ x. Decodes d (e x) x) l
    → Decodes (fread_list (length l) d) (fwrite_list e l) l
unfolding fread_list fwrite_list
Decodes-list d e [] h = Decodes-pure []
Decodes-list d e (x ∷ xs) h =
    Decodes-bind d (λ y. fread_list (length xs) d >>= λ ys. pure (y ∷ ys)) (e x) (fwrite_list e xs)
      x (x ∷ xs) h.0
      (Decodes-last (fread_list (length xs) d) (λ ys. x ∷ ys) (fwrite_list e xs) xs
        (Decodes-list d e xs h.1))

-- A part whose value is only tested.
pub Decodes-check {ℓ} :
    {A : Type ℓ} (d : Decoder A) (test : A → Bool) (bs : List ℕ) (a : A)
    → test a ≡ true
    → Decodes d bs a
    → Decodes (d >>= λ x. guard (test x)) bs tt
unfolding Decodes
Decodes-check d test bs a e h file = rw (h file, e)
