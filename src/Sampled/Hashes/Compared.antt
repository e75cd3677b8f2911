-- ===== src/Sampled/Hashes/Compared.antt =====
-- What the loop over the offsets of the comparison brings back.
use drive_eraser.Prelude.{
  ℕ, ◌+◌, String, ◌≡◌, refl, ap, ◌⊎◌, inl, inr, List, [], ◌∷◌, arith, length, Bool-cases,
}
use mathlib.Core.Path.{subst}
use drive_eraser.Sampled.Retry.{ok}
use drive_eraser.Sampled.Station.{Station, read_sample}
use drive_eraser.Sampled.Zeros.Clean.{Result-cases}
use drive_eraser.Sampled.Hashes.{
  Digest, Sample, Comparing, broken, compared, add_sample, compare_chunks, befores,
}

abbrev pub offsets_in : List Sample → List ℕ
offsets_in [] = []
offsets_in (x ∷ xs) = x.offset ∷ offsets_in xs

-- The chunks were read, one after the other, and their later hashes are those of the bytes.
abbrev pub AllHashed : Digest → Station → (capacity read : ℕ) → List Sample → Type 0
AllHashed digest s capacity read [] = Unit
AllHashed digest s capacity read (x ∷ xs) =
    ((bytes : List ℕ) × (read_sample s capacity read x.offset ≡ ok bytes)
      × (x.after ≡ digest bytes))
    × AllHashed digest s capacity (read + 1) xs

Comparing-cases :
    (r : Comparing)
    → ((xs : List Sample) × (r ≡ compared xs))
      ⊎ ((status : String) × (e : String) × (r ≡ broken status e))
Comparing-cases (compared xs) = inl (xs, refl)
Comparing-cases (broken status e) = inr (status, e, refl)

-- What the loop over the offsets brings back.
abbrev pub Brought :
    Digest → Station → (capacity read : ℕ) → List ℕ → List String → List Sample → Type 0
Brought digest s capacity read offsets hashes xs =
    (offsets_in xs ≡ offsets) × (befores xs ≡ hashes) × AllHashed digest s capacity read xs

pub compare_chunks-Brought :
    (digest : Digest) (s : Station) (capacity read : ℕ) (offsets : List ℕ) (hashes : List String)
    (xs : List Sample)
    → length offsets ≡ length hashes
    → compare_chunks digest s capacity read offsets hashes ≡ compared xs
    → Brought digest s capacity read offsets hashes xs
unfolding compare_chunks add_sample
compare_chunks-Brought digest s capacity read [] [] [] l h = (refl, refl, tt)
compare_chunks-Brought digest s capacity read [] [] (x ∷ xs) l h = cc h
compare_chunks-Brought digest s capacity read [] (k ∷ hashes) xs l h = absurd (omega arith)
compare_chunks-Brought digest s capacity read (o ∷ offsets) [] xs l h = absurd (omega arith)
compare_chunks-Brought digest s capacity read (o ∷ offsets) (k ∷ hashes) xs l h =
    elim (Bool-cases (s.interrupted read)) [
      | inl stop ↦ cc (rw (stop, compare_chunks) at h)
      | inr on ↦ elim (Result-cases (read_sample s capacity read o)) [
        | inr (code, details, e) ↦ cc (rw (on, e, compare_chunks) at h)
        | inl (bytes, e) ↦
            elim (Comparing-cases (compare_chunks digest s capacity (read + 1) offsets hashes)) [
              | inr (status, code, b) ↦ cc (rw (on, e, b, compare_chunks, add_sample) at h)
              | inl (ys, b) ↦
                  let x : Sample = record { offset = o; before = k; after = digest bytes } in
                  let same : compared (x ∷ ys) ≡ compared xs =
                    rw (on, e, b, compare_chunks, add_sample) at h in
                  let list : x ∷ ys ≡ xs = cc same in
                  let (places, kept, rest) =
                    compare_chunks-Brought digest s capacity (read + 1) offsets hashes ys
                      (omega arith) b in
                  subst (Brought digest s capacity read (o ∷ offsets) (k ∷ hashes)) list
                    (ap (λ os. o ∷ os) places, ap (λ hs. k ∷ hs) kept, ((bytes, e, refl), rest))
            ]
      ]
    ]
