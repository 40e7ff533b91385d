-- ===== src/Assemble/Strip.antt =====
-- The symbols that src/assemble.c `obj_check` leaves without debug information.
use jaris.Base.{
  ℕ, zero, suc, ◌+◌, ◌<◌, ◌≤◌, ◌≡◌, refl, arith, ◌∙◌, ap, ap₂, subst, List, [], ◌∷◌, ◌++◌, map,
  length,
}
use jaris.Base.{All, length-append, append_assoc, append-nil}
use jaris.Files.Types.{Symbol, Obj}
use jaris.Link.State.{symbol_at}
use jaris.Assemble.Check.{indices, strip, without_relrelocs}

length-map : {A B : Type 0} (f : A → B) (l : List A) → length (map f l) ≡ length l
length-map f [] = refl
length-map f (x ∷ l) = ap suc (length-map f l)

indices-lt : (i n bound : ℕ) → i + n ≤ bound → All (λ j. j < bound) (indices i n)
unfolding indices
indices-lt i zero bound h = tt
indices-lt i (suc n) bound h = (omega arith, indices-lt (suc i) n bound (omega arith))

abbrev pub image_of : Symbol → List ℕ
image_of s = s.image

-- The names of the symbols with those indices.
unfoldable pub names : List Symbol → List ℕ → List (List ℕ)
names symbols l = map (λ i. image_of (symbol_at symbols i)) l

symbol_at-append : (l m : List Symbol) (s : Symbol) → symbol_at (l ++ (s ∷ m)) (length l) ≡ s
unfolding symbol_at
symbol_at-append [] m s = refl
symbol_at-append (x ∷ l) m s = symbol_at-append l m s

-- Consecutive indices name the symbols between what stands before and behind them.
names-indices :
    (before l after : List Symbol)
    → names (before ++ (l ++ after)) (indices (length before) (length l)) ≡ map image_of l
unfolding names indices
names-indices before [] after = refl
names-indices before (s ∷ l) after =
    let one : length (before ++ (s ∷ [])) ≡ suc (length before) =
      omega (arith, length-append before (s ∷ [])) in
    let shift : (before ++ (s ∷ [])) ++ (l ++ after) ≡ before ++ (s ∷ (l ++ after)) =
      append_assoc before (s ∷ []) (l ++ after) in
    let rest = names-indices (before ++ (s ∷ [])) l after in
    let rest' : names (before ++ (s ∷ (l ++ after))) (indices (suc (length before)) (length l))
        ≡ map image_of l =
      subst (λ n. names (before ++ (s ∷ (l ++ after))) (indices n (length l)) ≡ map image_of l) one
        (subst (λ t. names t (indices (length (before ++ (s ∷ []))) (length l)) ≡ map image_of l)
          shift rest) in
    ap₂ (λ (x : List ℕ) (xs : List (List ℕ)). x ∷ xs)
      (ap image_of (symbol_at-append before (l ++ after) s)) rest'

map-globals :
    (symbols : List Symbol) (l : List ℕ)
    → map image_of (map (λ g. without_relrelocs (symbol_at symbols g)) l) ≡ names symbols l
unfolding names
map-globals symbols [] = refl
map-globals symbols (g ∷ l) = ap (λ t. image_of (symbol_at symbols g) ∷ t) (map-globals symbols l)

map-externs :
    (symbols : List Symbol) (l : List ℕ)
    → map image_of (map (symbol_at symbols) l) ≡ names symbols l
unfolding names
map-externs symbols [] = refl
map-externs symbols (e ∷ l) = ap (λ t. image_of (symbol_at symbols e) ∷ t) (map-externs symbols l)

-- What stays of an object: its globals and externs under their names, each an index of a symbol.
pub record Stripped (obj obj' : Obj) : Type 0 where
  pub globals_named : names obj'.symbols obj'.globals ≡ names obj.symbols obj.globals
  pub externs_named : names obj'.symbols obj'.externs ≡ names obj.symbols obj.externs
  pub globals_lt : All (λ g. g < length obj'.symbols) obj'.globals
  pub externs_lt : All (λ e. e < length obj'.symbols) obj'.externs
  pub no_others : length obj'.symbols ≡ length obj'.globals + length obj'.externs

length-indices : (i n : ℕ) → length (indices i n) ≡ n
unfolding indices
length-indices i zero = refl
length-indices i (suc n) = ap suc (length-indices (suc i) n)

-- Without debug information the globals and the externs of the new object have the names of the old
-- ones, in their order, and stand for symbols of its table, which has no others.
pub strip-Stripped : (obj : Obj) → Stripped obj (strip obj)
unfolding strip
strip-Stripped obj =
    let gs = map (λ g. without_relrelocs (symbol_at obj.symbols g)) obj.globals in
    let es = map (symbol_at obj.symbols) obj.externs in
    let g_count : length gs ≡ length obj.globals = length-map _ obj.globals in
    let e_count : length es ≡ length obj.externs = length-map _ obj.externs in
    let total : length (gs ++ es) ≡ length obj.globals + length obj.externs =
      omega (arith, length-append gs es, g_count, e_count) in
    record {
      globals_named =
          subst (λ n. names (gs ++ es) (indices 0 n) ≡ map image_of gs) g_count
            (names-indices [] gs es)
          ∙ map-globals obj.symbols obj.globals;
      externs_named =
          subst (λ n. names (gs ++ es) (indices n (length obj.externs)) ≡ map image_of es) g_count
            (subst (λ n. names (gs ++ es) (indices (length gs) n) ≡ map image_of es) e_count
              (subst (λ t. names (gs ++ t) (indices (length gs) (length es)) ≡ map image_of es)
                (append-nil es) (names-indices gs es [])))
          ∙ map-externs obj.symbols obj.externs;
      globals_lt = indices-lt 0 (length obj.globals) (length (gs ++ es)) (omega (arith, total));
      externs_lt =
          indices-lt (length obj.globals) (length obj.externs) (length (gs ++ es))
            (omega (arith, total));
      no_others = omega (
        arith,
        total,
        length-indices 0 (length obj.globals),
        length-indices (length obj.globals) (length obj.externs),
      );
    }
