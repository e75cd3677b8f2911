-- ===== src/Sampled/Offsets/Spaced.antt =====
-- Where the sampled offsets lie.
use drive_eraser.Prelude.{
  ℕ, zero, suc, ◌+◌, ◌-◌, ◌*◌, ◌/◌, ◌≤◌, ◌<◌, ◌≡◌, min, max, not, List, [], ◌∷◌, arith, ◌==◌, ltb,
  length, Bool-cases, inl, inr,
}
use mathlib.Core.Path.{subst}
use native.Mathlib.Decide.{dec_lt}
use drive_eraser.Sampled.Offsets.{
  Plan, capped, fitted, at_least_one, plan, RandInt, pick, picks, generate_sampled_offsets,
  max_sample_offsets,
}

-- Chunks from `low` on, behind one another, that end by `high`; none begins at 0.
abbrev pub Spaced : (chunk low high : ℕ) → List ℕ → Type 0
Spaced chunk low high [] = low ≤ high
Spaced chunk low high (o ∷ os) = (0 < o) × (low ≤ o) × Spaced chunk (o + chunk) high os

Spaced-le :
    (chunk low low' high : ℕ) (os : List ℕ)
    → low ≤ low'
    → Spaced chunk low' high os
    → Spaced chunk low high os
Spaced-le chunk low low' high [] h s = omega arith
Spaced-le chunk low low' high (o ∷ os) h s = (s.0, omega arith, s.2)

-- What `random.randint(lo, hi)` promises.
abbrev pub InRange : RandInt → Type 0
InRange randint =
    (round lo hi : ℕ) → lo ≤ hi → (lo ≤ randint round lo hi) × (randint round lo hi ≤ hi)

pick_bounds :
    (randint : RandInt) (interval chunk round : ℕ)
    → InRange randint
    → chunk ≤ interval
    → (round * interval ≤ pick randint interval chunk round)
      × (pick randint interval chunk round + chunk ≤ (round + 1) * interval)
unfolding pick
pick_bounds randint interval chunk round r h =
    let next : (round + 1) * interval ≡ round * interval + interval = grind arith in
    ground (
      arith,
      next,
      r round (round * interval) (max (round * interval) ((round + 1) * interval - chunk)),
    )

picks-Spaced :
    (randint : RandInt) (interval chunk left round : ℕ)
    → InRange randint
    → chunk ≤ interval
    → Spaced chunk
        (round * interval)
        ((round + left) * interval)
        (picks randint interval chunk left round)
unfolding picks
picks-Spaced randint interval chunk zero round r h = grind arith
picks-Spaced randint interval chunk (suc left) round r h =
    let (from, to) = pick_bounds randint interval chunk round r h in
    let place : round + 1 + left ≡ round + suc left = omega arith in
    let next = picks-Spaced randint interval chunk left (round + 1) r h in
    elim (Bool-cases (pick randint interval chunk round == 0)) [
      | inl start ↦
          rw (start, not)
            (Spaced-le chunk _ ((round + 1) * interval) _ _ (omega arith) (rw place at next))
      | inr beyond ↦
          rw (beyond, not)
            (
              ground arith,
              from,
              Spaced-le chunk _ ((round + 1) * interval) _ _ to (rw place at next),
            )
    ]

length-picks :
    (randint : RandInt) (interval chunk left round : ℕ)
    → length (picks randint interval chunk left round) ≤ left
unfolding picks
length-picks randint interval chunk zero round = omega arith
length-picks randint interval chunk (suc left) round =
    ground (arith, length-picks randint interval chunk left (round + 1))

-- The plan of the loop: the chunks of all intervals fit on the drive.
record Fits (capacity chunk : ℕ) (p : Plan) : Type 0 where
  some_chunk : 0 < p.num_chunks
  few : p.num_chunks ≤ max_sample_offsets
  size : p.chunk_size ≡ min chunk capacity
  room : p.num_chunks * p.chunk_size ≤ capacity

quotient_room : (target chunk : ℕ) → 0 < chunk → target / chunk * chunk ≤ target
quotient_room target chunk h = grind arith

times-le : (a b c : ℕ) → a ≤ b → a * c ≤ b * c
times-le a b c h = grind arith

capped-le : (max_read target : ℕ) → capped max_read target ≤ target
unfolding capped
capped-le max_read target = ground arith

chunks_room :
    (capacity target chunk : ℕ)
    → 0 < chunk
    → target ≤ capacity
    → chunk ≤ capacity
    → min (max 1 (target / chunk)) max_sample_offsets * chunk ≤ capacity
chunks_room capacity target chunk h t c = elim (dec_lt 1 (target / chunk)) [
  | yes many ↦
      let below =
        times-le (min (max 1 (target / chunk)) max_sample_offsets) (target / chunk) chunk
          (omega arith) in
      omega (arith, below, quotient_room target chunk h)
  | no one ↦
      let below =
        times-le (min (max 1 (target / chunk)) max_sample_offsets) 1 chunk (omega arith) in
      omega (arith, below)
]

fitted-Fits :
    (capacity target chunk : ℕ)
    → 0 < chunk
    → target ≤ capacity
    → Fits capacity chunk (fitted capacity chunk (min (max 1 (target / chunk)) max_sample_offsets))
unfolding fitted
fitted-Fits capacity target chunk h t = elim (Bool-cases (ltb capacity chunk)) [
  | inl small ↦ rw small (record {
    some_chunk = omega arith;
    few = omega arith;
    size = ground arith;
    room = omega arith;
  })
  | inr large ↦ rw large (record {
    some_chunk = omega arith;
    few = omega arith;
    size = ground arith;
    room = chunks_room capacity target chunk h t (ground arith);
  })
]

at_least_one-Fits :
    (capacity chunk : ℕ) (p : Plan) → Fits capacity chunk p → Fits capacity chunk (at_least_one p)
unfolding at_least_one
at_least_one-Fits capacity chunk p f = elim (Bool-cases (p.num_chunks == 0)) [
  | inl zero_chunks ↦ absurd (ground (arith, f.some_chunk))
  | inr fine ↦ rw fine f
]

plan-Fits :
    (capacity target chunk max_read : ℕ)
    → 0 < chunk
    → target ≤ capacity
    → Fits capacity chunk (plan capacity target chunk max_read)
unfolding plan
plan-Fits capacity target chunk max_read h t = at_least_one-Fits capacity chunk _ (
    fitted-Fits capacity (capped max_read target) chunk h
      (omega (arith, capped-le max_read target)))

interval_room :
    (capacity num size : ℕ)
    → 0 < num
    → num * size ≤ capacity
    → (size ≤ capacity / num) × (num * (capacity / num) ≤ capacity)
interval_room capacity num size h room = grind arith

Spaced-high :
    (chunk low high high' : ℕ) (os : List ℕ)
    → high ≤ high'
    → Spaced chunk low high os
    → Spaced chunk low high' os
Spaced-high chunk low high high' [] h s = omega arith
Spaced-high chunk low high high' (o ∷ os) h s =
    (s.0, s.1, Spaced-high chunk (o + chunk) high high' os h s.2)

planned-Spaced :
    (randint : RandInt) (capacity chunk : ℕ) (p : Plan)
    → InRange randint
    → Fits capacity chunk p
    → Spaced
        (min chunk capacity)
        0
        capacity
        (picks randint (capacity / p.num_chunks) p.chunk_size p.num_chunks 0)
      × (length (picks randint (capacity / p.num_chunks) p.chunk_size p.num_chunks 0) ≤ 1000)
planned-Spaced randint capacity chunk p r f =
    let interval = capacity / p.num_chunks in
    let (wide, room) = interval_room capacity p.num_chunks p.chunk_size f.some_chunk f.room in
    let spaced = picks-Spaced randint interval p.chunk_size p.num_chunks 0 r wide in
    let end : 0 + p.num_chunks ≡ p.num_chunks = omega arith in
    (
      subst (λ size. Spaced size 0 capacity (picks randint interval p.chunk_size p.num_chunks 0))
          f.size
          (Spaced-le p.chunk_size 0 (0 * interval) capacity _ (omega arith) (
            Spaced-high p.chunk_size (0 * interval) (p.num_chunks * interval) capacity _ room
              (rw end at spaced))),
      omega (arith, length-picks randint interval p.chunk_size p.num_chunks 0, f.few),
    )

-- The sampled chunks, as long as asked for or as the drive, lie on the drive behind one another without
-- overlap, none at offset 0, and there are at most 1000; this holds for each size of a chunk above 0
-- and each target of at most the capacity, whatever numbers `random.randint` draws in its range.
pub generate_sampled_offsets-Spaced :
    (randint : RandInt) (capacity target chunk max_read : ℕ)
    → InRange randint
    → 0 < chunk
    → target ≤ capacity
    → Spaced
        (min chunk capacity)
        0
        capacity
        (generate_sampled_offsets randint capacity target chunk max_read)
      × (length (generate_sampled_offsets randint capacity target chunk max_read) ≤ 1000)
unfolding generate_sampled_offsets
generate_sampled_offsets-Spaced randint capacity target chunk max_read r h t =
    planned-Spaced randint capacity chunk _ r (plan-Fits capacity target chunk max_read h t)
