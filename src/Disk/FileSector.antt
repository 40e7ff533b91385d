-- ===== src/Disk/FileSector.antt =====
-- A sector of a file, as src/encodemem.c `encode_file` writes it and src/decodemem.c `decode_file`
-- reads it.
use jaris.Base.{
  ℕ, suc, ◌+◌, ◌-◌, ◌*◌, ◌/◌, ◌%◌, ◌<◌, ◌≤◌, ◌≡◌, ◌≢◌, ap, ap₂, ◌∙◌, arith, List, ◌++◌, length, ltb,
  leb, ◌==◌, bit_or, bit_or-add, bit_or_comm, ◌<<<◌, elim-true, elim-false, ==_iff,
}
use jaris.Base.Outcome.{Outcome, ok, ◌>>=◌, require-true}
use jaris.Base.{low_bits, u8, ◌>>>◌}
use jaris.Disk.Image.{
  sector_count, Sectors, poke, load, poke-sector, poke-place, poke-there, load-agrees,
}
use jaris.Disk.FileChain.{link_of, decode_file_fuel}

-- The bytes of a sector of a file: its link, its count and what it holds.
pub record IsFileSector (d : Sectors) (sec link : ℕ) (bytes : List ℕ) : Type 0 where
  pub low : d sec 1 ≡ link % 256
  pub high : d sec 2 ≡ link / 256
  pub count : d sec 3 ≡ length bytes + 3
  pub holds : load d sec 4 (length bytes) ≡ bytes

-- Images that agree on the sectors of a range.
abbrev pub Agree : ℕ → ℕ → Sectors → Sectors → Type 0
Agree low high d e = (s i : ℕ) → low ≤ s → s < high → d s i ≡ e s i

link-IsFileSector :
    (d : Sectors) (sec link : ℕ) (bytes : List ℕ)
    → link < 65536
    → IsFileSector d sec link bytes
    → link_of d sec ≡ link
link-IsFileSector d sec link bytes h f =
    ap₂ (λ a b. bit_or a (b <<< 8)) f.low f.high
    ∙ bit_or_comm (link % 256) (link / 256 * 256)
    ∙ bit_or-add 8 (link / 256) (link % 256) (omega arith)
    ∙ omega arith

-- What `push_link` leaves of the sectors.
abbrev pub linked : Sectors → ℕ → ℕ → ℕ → Sectors
linked d sec link count =
    poke (poke (poke d sec 1 (low_bits link 8)) sec 2 (u8 (link >>> 8))) sec 3 (u8 count)

pub linked-IsFileSector :
    (d : Sectors) (sec link count : ℕ) (bytes : List ℕ)
    → link < 65536
    → count ≡ length bytes + 3
    → count < 256
    → load d sec 4 (length bytes) ≡ bytes
    → IsFileSector (linked d sec link count) sec link bytes
linked-IsFileSector d sec link count bytes h e c l =
    let one = poke d sec 1 (low_bits link 8) in
    let two = poke one sec 2 (u8 (link >>> 8)) in
    record {
      low =
          poke-place two sec 3 (u8 count) sec 1 (omega arith) (omega arith)
          ∙ poke-place one sec 2 _ sec 1 (omega arith) (omega arith)
          ∙ poke-there d sec 1 _ (omega arith);
      high =
          poke-place two sec 3 (u8 count) sec 2 (omega arith) (omega arith)
          ∙ poke-there one sec 2 _ (omega arith)
          ∙ omega arith;
      count = poke-there two sec 3 (u8 count) (omega arith) ∙ omega (arith, e);
      holds =
          load-agrees (linked d sec link count) d sec 4 (length bytes) (λ i le lt.
            poke-place two sec 3 (u8 count) sec i (omega arith) (omega (arith, le))
            ∙ poke-place one sec 2 _ sec i (omega arith) (omega (arith, le))
            ∙ poke-place d sec 1 _ sec i (omega arith) (omega (arith, le)))
          ∙ l;
    }

pub linked-sector :
    (d : Sectors) (sec link count s i : ℕ) → s ≢ sec → linked d sec link count s i ≡ d s i
linked-sector d sec link count s i h =
    poke-sector _ sec 3 _ s i (omega arith) h
    ∙ poke-sector _ sec 2 _ s i (omega arith) h
    ∙ poke-sector d sec 1 _ s i (omega arith) h

-- The bytes of a sector, and those of the sectors behind it.
abbrev held : Sectors → ℕ → List ℕ
held d sec = load d sec 4 (d sec 3 - 3)

abbrev behind : ℕ → Sectors → ℕ → ℕ → Outcome (List ℕ)
behind fuel d sec link = decode_file_fuel fuel d link >>= λ rest. ok (held d sec ++ rest)

held_bytes :
    (d : Sectors) (sec link : ℕ) (bytes : List ℕ)
    → IsFileSector d sec link bytes
    → load d sec 4 (d sec 3 - 3) ≡ bytes
held_bytes d sec link bytes f = ap (load d sec 4) (omega (arith, f.count)) ∙ f.holds

-- One round of `decode_file`.
pub decode_file_fuel-last :
    (fuel : ℕ) (d : Sectors) (sec : ℕ) (bytes : List ℕ)
    → sec < 2048
    → IsFileSector d sec 0xffff bytes
    → decode_file_fuel (suc fuel) d sec ≡ ok bytes
unfolding decode_file_fuel
decode_file_fuel-last fuel d sec bytes h f =
    require-true (ltb sec sector_count) _ (ground (arith, h))
    ∙ require-true (leb 3 (d sec 3)) _ (ground (arith, f.count))
    ∙ elim-true (link_of d sec == 0xffff) (ok (held d sec)) (behind fuel d sec (link_of d sec))
        ((==_iff _ _).1 (link-IsFileSector d sec 0xffff bytes (omega arith) f))
    ∙ ap ok (held_bytes d sec 0xffff bytes f)

pub decode_file_fuel-link :
    (fuel : ℕ) (d : Sectors) (sec link : ℕ) (bytes rest : List ℕ)
    → sec < 2048
    → link < 2048
    → IsFileSector d sec link bytes
    → decode_file_fuel fuel d link ≡ ok rest
    → decode_file_fuel (suc fuel) d sec ≡ ok (bytes ++ rest)
unfolding decode_file_fuel
decode_file_fuel-link fuel d sec link bytes rest h k f r =
    let l = link-IsFileSector d sec link bytes (omega (arith, k)) f in
    require-true (ltb sec sector_count) _ (ground (arith, h))
    ∙ require-true (leb 3 (d sec 3)) _ (ground (arith, f.count))
    ∙ elim-false (link_of d sec == 0xffff) (ok (held d sec)) (behind fuel d sec (link_of d sec))
        (ap (λ x. x == 0xffff) l ∙ ground (arith, k))
    ∙ ap (behind fuel d sec) l
    ∙ ap (λ o. o >>= λ rest. ok (held d sec ++ rest)) r
    ∙ ap (λ b. ok (b ++ rest)) (held_bytes d sec link bytes f)
