-- ===== src/Sampled/Detection/Layout.antt =====
-- Where the five zones lie.
use drive_eraser.Prelude.{
  ℕ, ◌+◌, ◌-◌, ◌*◌, ◌/◌, ◌≤◌, ◌<◌, ◌≡◌, refl, List, [], ◌∷◌, arith, ◌==◌, leb, length, false, inl,
  inr, Bool-cases,
}
use drive_eraser.Sampled.Detection.{
  ZonePolicy, block_size_of, Zone, aligned_size, centered, five_zones, zones_of,
}

-- Zones in order from `low` on, apart from one another, at whole blocks, that end by `high` with less than
-- a block behind them.
abbrev pub Apart : (block low high : ℕ) → List Zone → Type 0
Apart block low high [] = (low ≤ high) × (high < low + block)
Apart block low high (z ∷ zs) =
    (low ≤ z.offset)
    × ((blocks : ℕ) × (z.offset ≡ blocks * block))
    × Apart block (z.offset + z.size) high zs

lt-leb : (a b : ℕ) → a < b → leb b a ≡ false
lt-leb a b h = ground arith

quotient-le : (m x block : ℕ) → 0 < block → m * block ≤ x → m ≤ x / block
quotient-le m x block h e = grind arith

times-le : (a b c : ℕ) → a ≤ b → a * c ≤ b * c
times-le a b c h = grind arith

round_down : (x block : ℕ) → 0 < block → (x / block * block ≤ x) × (x < x / block * block + block)
round_down x block h = grind arith

-- Rounding down to whole blocks keeps a distance of whole blocks.
round_down-apart :
    (block blocks x y : ℕ)
    → 0 < block
    → x + blocks * block ≤ y
    → x / block * block + blocks * block ≤ y / block * block
round_down-apart block blocks x y h d =
    let sum : (x / block + blocks) * block ≡ x / block * block + blocks * block = grind arith in
    let fits =
      quotient-le (x / block + blocks) y block h (omega (arith, sum, (round_down x block h).0)) in
    omega (arith, sum, times-le (x / block + blocks) (y / block) block fits)

first_apart :
    (block blocks x : ℕ) → 0 < block → blocks * block ≤ x → blocks * block ≤ x / block * block
first_apart block blocks x h d = times-le blocks (x / block) block (quotient-le blocks x block h d)

five_zones-Apart :
    (capacity blocks block : ℕ)
    → 0 < block
    → 6 * (blocks * block) + 8 ≤ capacity
    → Apart block 0 capacity (five_zones capacity (blocks * block) block)
unfolding five_zones centered
five_zones-Apart capacity blocks block h room =
    let size : ℕ = blocks * block in
    let one : ℕ = capacity / 4 - size / 2 in
    let two : ℕ = capacity / 2 - size / 2 in
    let three : ℕ = 3 * capacity / 4 - size / 2 in
    let last : ℕ = capacity - size in
    let four : Apart block (three / block * block + size) capacity
        (record { offset = last / block * block; size = size } ∷ []) =
      (
        round_down-apart block blocks three last h (omega arith),
        (last / block, refl),
        (omega (arith, (round_down last block h).0), omega (arith, (round_down last block h).1)),
      ) in
    (
      omega arith,
      (0, omega arith),
      (
        omega (arith, first_apart block blocks one h (omega arith)),
        (one / block, refl),
        (
          round_down-apart block blocks one two h (omega arith),
          (two / block, refl),
          (round_down-apart block blocks two three h (omega arith), (three / block, refl), four),
        ),
      ),
    )

aligned_size-blocks :
    (total count block : ℕ) → (blocks : ℕ) × (aligned_size total count block ≡ blocks * block)
unfolding aligned_size
aligned_size-blocks total count block = elim (Bool-cases (total / count / block * block == 0)) [
  | inl none_whole ↦ (1, rw none_whole (omega arith))
  | inr whole ↦ (total / count / block, rw whole refl)
]

-- the size of a zone, by the policy
abbrev pub zone_size_of : ZonePolicy → ℕ
zone_size_of p = aligned_size (p.total_bytes_gb * 1024 * 1024 * 1024) p.zone_count (block_size_of p)

-- Each zone has the size.
abbrev pub AreSized : ℕ → List Zone → Type 0
AreSized size [] = Unit
AreSized size (z ∷ zs) = (z.size ≡ size) × AreSized size zs

-- The first zone begins there.
abbrev pub BeginsAt : ℕ → List Zone → Type 0
BeginsAt offset [] = ⊥
BeginsAt offset (z ∷ zs) = z.offset ≡ offset

pub record IsLayout (block size capacity : ℕ) (zones : List Zone) : Type 0 where
  pub five : length zones ≡ 5
  pub first_at_start : BeginsAt 0 zones
  pub sized : AreSized size zones
  pub whole : (blocks : ℕ) × (size ≡ blocks * block)
  pub apart : Apart block 0 capacity zones

five_zones-IsLayout :
    (capacity blocks block : ℕ)
    → 0 < block
    → 6 * (blocks * block) + 8 ≤ capacity
    → IsLayout block (blocks * block) capacity (five_zones capacity (blocks * block) block)
unfolding five_zones centered
five_zones-IsLayout capacity blocks block h room = record {
  five = refl;
  first_at_start = refl;
  sized = (refl, (refl, (refl, (refl, (refl, tt)))));
  whole = (blocks, refl);
  apart = unfold five_zones centered in five_zones-Apart capacity blocks block h room;
}

-- On a drive above the threshold for small ones that holds six zones and eight bytes, there are five
-- zones, each of the size that the policy gives, a number of whole blocks; the first begins at 0; they
-- lie on the drive in their order without overlap; each begins at a whole block, and less than one
-- block follows the last.
pub zones_of-IsLayout :
    (p : ZonePolicy) (capacity : ℕ)
    → 0 < block_size_of p
    → p.small_drive_threshold_gb * 1024 * 1024 * 1024 < capacity
    → 6 * zone_size_of p + 8 ≤ capacity
    → IsLayout (block_size_of p) (zone_size_of p) capacity (zones_of p capacity)
unfolding zones_of
zones_of-IsLayout p capacity h large room =
    let (blocks, size) =
      aligned_size-blocks (p.total_bytes_gb * 1024 * 1024 * 1024) p.zone_count (block_size_of p) in
    let above = lt-leb (p.small_drive_threshold_gb * 1024 * 1024 * 1024) capacity large in
    rw (above, size) (five_zones-IsLayout capacity blocks (block_size_of p) h (omega (arith, size)))
