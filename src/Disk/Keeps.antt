-- ===== src/Disk/Keeps.antt =====
-- What the operations of src/encodemem.c leave alone: the sectors in use but the boot sector and the
-- rest of the one that the pen is on; and that each of them returns.
use jaris.Base.{
  ℕ, ◌+◌, ◌<◌, ◌≤◌, ◌≡◌, ◌≢◌, refl, ◌∙◌, arith, Bool, true, false, List, length, Option, none, some,
}
use jaris.Base.Outcome.{Outcome, ok, failed, out_of_fuel, ◌>>=◌, ◌>>◌, require, lift}
use jaris.Disk.Image.{
  Disk, Pen, store, put_sectors, poke-else, store-else, sector_push, sector_push_u8,
  sector_push_u16,
}

-- A step that returns, with what holds of its result.
pub data Ends {A : Type 0} (P : A → Type 0) : Outcome A → Type 0 where
  ends_failed : Ends P failed
  ends : (a : A) → P a → Ends P (ok a)

pub Ends->>= :
    {A B : Type 0} (P : A → Type 0) (Q : B → Type 0) (o : Outcome A) (f : A → Outcome B)
    → Ends P o
    → ((a : A) → P a → Ends Q (f a))
    → Ends Q (o >>= f)
Ends->>= P Q _ f ends_failed h = ends_failed
Ends->>= P Q _ f (ends a p) h = h a p

pub Ends-require :
    {B : Type 0} (Q : B → Type 0) (b : Bool) (o : Outcome B) → Ends Q o → Ends Q (require b >> o)
Ends-require Q true o h = h
Ends-require Q false o h = ends_failed

-- A guard, with what holds behind it.
pub Ends-guard :
    {B : Type 0} (Q : B → Type 0) (b : Bool) (o : Outcome B)
    → (b ≡ true → Ends Q o)
    → Ends Q (require b >> o)
Ends-guard Q true o h = h refl
Ends-guard Q false o h = ends_failed

pub Ends-lift :
    {A B : Type 0} (Q : B → Type 0) (o : Option A) (f : A → Outcome B)
    → ((a : A) → o ≡ some a → Ends Q (f a))
    → Ends Q (lift o >>= f)
Ends-lift Q none f h = ends_failed
Ends-lift Q (some a) f h = h a refl

pub Ends-mono :
    {A : Type 0} (P Q : A → Type 0) (o : Outcome A) → ((a : A) → P a → Q a) → Ends P o → Ends Q o
Ends-mono P Q _ h ends_failed = ends_failed
Ends-mono P Q _ h (ends a p) = ends a (h a p)

pub Ends-≢-out_of_fuel : {A : Type 0} (P : A → Type 0) (o : Outcome A) → Ends P o → o ≢ out_of_fuel
Ends-≢-out_of_fuel P _ ends_failed = λ e. cc
Ends-≢-out_of_fuel P _ (ends a p) = λ e. cc

-- The sectors in use stay, but for the boot sector and what is behind the place `from` of the sector
-- `own`; no sector is given back.
pub record Keeps (own from : ℕ) (disk disk' : Disk) : Type 0 where
  pub grows : disk.sectori ≤ disk'.sectori
  pub keeps :
      (s i : ℕ)
      → s ≢ 0
      → (s ≡ own → i < from)
      → s < disk.sectori
      → disk'.sectors s i ≡ disk.sectors s i

pub Keeps-refl : (own from : ℕ) (disk : Disk) → Keeps own from disk disk
Keeps-refl own from disk = record { grows = omega arith; keeps = λ s i z o lt. refl }

pub Keeps-trans :
    (own from : ℕ) (a b c : Disk) → Keeps own from a b → Keeps own from b c → Keeps own from a c
Keeps-trans own from a b c h k = record {
  grows = omega (arith, h.grows, k.grows);
  keeps = λ s i z o lt. k.keeps s i z o (omega (arith, lt, h.grows)) ∙ h.keeps s i z o lt;
}

-- What is kept up to a place is kept up to one before it.
pub Keeps-from :
    (own from from' : ℕ) (a b : Disk) → from ≤ from' → Keeps own from' a b → Keeps own from a b
Keeps-from own from from' a b le h = record {
  grows = h.grows;
  keeps = λ s i z o lt. h.keeps s i z (λ e. let l = o e in omega (arith, l, le)) lt;
}

-- What spares a new sector spares the old ones.
pub Keeps-new :
    (own from : ℕ) (a b c : Disk)
    → a.sectori ≤ own
    → Keeps own from b c
    → Keeps 0 0 a b
    → Keeps 0 0 a c
Keeps-new own from a b c n k h = record {
  grows = omega (arith, h.grows, k.grows);
  keeps = λ s i z o lt.
      k.keeps s i z (λ e. absurd (omega (arith, n, lt, e))) (omega (arith, lt, h.grows))
      ∙ h.keeps s i z o lt;
}

pub Keeps-weaken : (own from : ℕ) (a b : Disk) → Keeps 0 0 a b → Keeps own from a b
Keeps-weaken own from a b h = record {
  grows = h.grows;
  keeps = λ s i z o lt. h.keeps s i z (λ e. absurd (z e)) lt;
}

-- Bytes that fit their sector.
pub store-Keeps :
    (bytes : List ℕ) (disk : Disk) (sec at : ℕ)
    → at + length bytes ≤ 256
    → Keeps sec at disk (put_sectors disk (store disk.sectors sec at bytes))
store-Keeps bytes disk sec at h = record {
  grows = omega arith;
  keeps = λ s i z o lt. store-else disk.sectors sec at bytes s i h o;
}

pub sector_push-Keeps :
    (bytes : List ℕ) (pen : Pen)
    → pen.at + length bytes ≤ 256
    → Keeps pen.sec pen.at pen.disk (sector_push bytes pen).disk
unfolding sector_push
sector_push-Keeps bytes pen h = store-Keeps bytes pen.disk pen.sec pen.at h

pub sector_push_u8-Keeps :
    (v : ℕ) (pen : Pen) → pen.at < 256 → Keeps pen.sec pen.at pen.disk (sector_push_u8 v pen).disk
unfolding sector_push_u8
sector_push_u8-Keeps v pen h = record {
  grows = omega arith;
  keeps = λ s i z o lt. poke-else pen.disk.sectors pen.sec pen.at _ s i h o;
}

pub sector_push_u16-Keeps :
    (v : ℕ) (pen : Pen)
    → pen.at + 1 < 256
    → Keeps pen.sec pen.at pen.disk (sector_push_u16 v pen).disk
unfolding sector_push_u16
sector_push_u16-Keeps v pen h = record {
  grows = omega arith;
  keeps = λ s i z o lt.
      poke-else _ pen.sec (pen.at + 1) _ s i h (λ e. let l = o e in omega (arith, l))
      ∙ poke-else pen.disk.sectors pen.sec pen.at _ s i (omega (arith, h)) o;
}
