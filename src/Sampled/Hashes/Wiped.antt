-- ===== src/Sampled/Hashes/Wiped.antt =====
-- The two halves of the hash comparison together: the state is captured before the erase, on one drive
-- as it was, and compared behind the erase with the drive as it is then.
use mathlib.Core.Path.{subst}
use drive_eraser.Prelude.{
  ℕ, zero, suc, ◌+◌, ◌<◌, String, ◌≡◌, ◌≢◌, refl, sym, ap, ◌∙◌, ◌⊎◌, inl, inr, true, List, [], ◌∷◌,
  arith, length, In, here, there, Bool-cases,
}
use drive_eraser.Sampled.Retry.{Result, ok, error}
use drive_eraser.Sampled.Station.{Station, capacity_of_drive, read_sample, read_size, offsets_of}
use drive_eraser.Sampled.Zeros.Clean.{Zeros, Result-cases}
use drive_eraser.Sampled.Hashes.{
  Digest, zero_bytes, Capture, not_captured, captured, Hashing, stopped, hashed, prepend,
  capture_hashes, capture_result, capture_drive, capture_before_state, before_of, Sample, befores,
  verify_crypto_hash_comparison, attested,
}
use drive_eraser.Sampled.Hashes.Compared.{offsets_in, AllHashed}
use drive_eraser.Sampled.Hashes.Judged.{Cleared, NoneChanged}
use drive_eraser.Sampled.Hashes.Replaced.{IsReplaced, verify_crypto_hash_comparison-IsReplaced}

-- The hashes are those of the bytes that were read at the offsets.
abbrev AllCaptured : Digest → Station → (capacity read : ℕ) → List ℕ → List String → Type 0
AllCaptured digest s capacity read [] hashes = hashes ≡ []
AllCaptured digest s capacity read (o ∷ os) hashes =
    (bytes : List ℕ) × (rest : List String) × (read_sample s capacity read o ≡ ok bytes)
    × (hashes ≡ digest bytes ∷ rest)
    × AllCaptured digest s capacity (read + 1) os rest

-- Each chunk was read before and behind the erase: its bytes changed, or they were zeros before.
abbrev pub AllWiped : (s t : Station) → (old_capacity new_capacity read : ℕ) → List ℕ → Type 0
AllWiped s t old_capacity new_capacity read [] = Unit
AllWiped s t old_capacity new_capacity read (o ∷ os) =
    (old : List ℕ) × (new : List ℕ) × (read_sample s old_capacity read o ≡ ok old)
    × (read_sample t new_capacity read o ≡ ok new)
    × ((new ≢ old) ⊎ Zeros old)
    × AllWiped s t old_capacity new_capacity (read + 1) os

-- The first chunk, read once more behind the erase, gave one byte or more, and zeros only.
abbrev pub StillZero : Station → ℕ → List ℕ → Type 0
StillZero t capacity offsets =
    (bytes : List ℕ) × (read_sample t capacity (length offsets) 0 ≡ ok bytes)
    × (0 < length bytes)
    × Zeros bytes

-- What two calls on one device say of an erase between them.
pub record IsWiped (s t : Station) : Type 0 where
  pub old_capacity : ℕ
  pub new_capacity : ℕ
  pub old_known : capacity_of_drive s ≡ ok old_capacity
  pub new_known : capacity_of_drive t ≡ ok new_capacity
  pub verdict :
      AllWiped s t old_capacity new_capacity 0 (0 ∷ offsets_of s old_capacity)
      ⊎ StillZero t new_capacity (0 ∷ offsets_of s old_capacity)

-- No other bytes have the hash of zeros.
abbrev pub KnowsZeros : Digest → Type 0
KnowsZeros digest =
    (n : ℕ) (bytes : List ℕ) → digest bytes ≡ digest (zero_bytes n) → bytes ≡ zero_bytes n

Hashing-cases :
    (r : Hashing) → ((hs : List String) × (r ≡ hashed hs)) ⊎ ((e : String) × (r ≡ stopped e))
Hashing-cases (hashed hs) = inl (hs, refl)
Hashing-cases (stopped e) = inr (e, refl)

module _ (digest : Digest) (s : Station) where
  capture_hashes-AllCaptured :
      (capacity read : ℕ) (os : List ℕ) (hashes : List String)
      → capture_hashes digest s capacity read os ≡ hashed hashes
      → AllCaptured digest s capacity read os hashes
  unfolding capture_hashes prepend
  capture_hashes-AllCaptured capacity read [] hashes h = cc h
  capture_hashes-AllCaptured capacity read (o ∷ os) hashes h =
      elim (Bool-cases (s.interrupted (read + 1))) [
        | inl stop ↦ cc (rw (stop, capture_hashes) at h)
        | inr on ↦ elim (Result-cases (read_sample s capacity read o)) [
          | inr (code, details, e) ↦ cc (rw (on, e, capture_hashes) at h)
          | inl (bytes, e) ↦ elim (Hashing-cases (capture_hashes digest s capacity (read + 1) os)) [
            | inr (code, b) ↦ cc (rw (on, e, b, capture_hashes, prepend) at h)
            | inl (hs, b) ↦
                let same : hashed (digest bytes ∷ hs) ≡ hashed hashes =
                  rw (on, e, b, capture_hashes, prepend) at h in
                (bytes, hs, e, cc same, capture_hashes-AllCaptured capacity (read + 1) os hs b)
          ]
        ]
      ]

  -- A state that was captured: the offsets begin with 0, and the hashes are those of the bytes there.
  abbrev CapturedAt : ℕ → List ℕ → List String → Type 0
  CapturedAt capacity offsets hashes =
      (capacity_of_drive s ≡ ok capacity)
      × (offsets ≡ 0 ∷ offsets_of s capacity)
      × AllCaptured digest s capacity 0 offsets hashes

  result_captured :
      (capacity : ℕ) (places offsets : List ℕ) (hashes : List String) (r : Hashing)
      → capture_hashes digest s capacity 0 places ≡ r
      → capture_result places r ≡ captured offsets hashes
      → (offsets ≡ places) × AllCaptured digest s capacity 0 offsets hashes
  unfolding capture_result
  result_captured capacity places offsets hashes (stopped e) run h = cc h
  result_captured capacity places offsets hashes (hashed hs) run h =
      let one : places ≡ offsets = cc h in
      let two : hs ≡ hashes = cc h in
      (sym one, rw (← one, ← two) (capture_hashes-AllCaptured capacity 0 places hs run))

  drive_captured :
      (r : Result ℕ) (offsets : List ℕ) (hashes : List String)
      → capacity_of_drive s ≡ r
      → capture_drive digest s r ≡ captured offsets hashes
      → (capacity : ℕ) × CapturedAt capacity offsets hashes
  unfolding capture_drive
  drive_captured (error code details) offsets hashes e h = cc h
  drive_captured (ok capacity) offsets hashes e h =
      let (places, all) = result_captured capacity _ offsets hashes _ refl h in
      (capacity, (e, places, all))

  state_captured :
      (device : String) (offsets : List ℕ) (hashes : List String)
      → capture_before_state digest s device ≡ captured offsets hashes
      → (capacity : ℕ) × CapturedAt capacity offsets hashes
  state_captured device offsets hashes h =
      drive_captured (capacity_of_drive s) offsets hashes refl made
    where
      made : capture_drive digest s (capacity_of_drive s) ≡ captured offsets hashes
      made = unfold capture_before_state in ground arith

Zeros-zero_bytes : (n : ℕ) → Zeros (zero_bytes n)
unfolding zero_bytes
Zeros-zero_bytes zero = tt
Zeros-zero_bytes (suc n) = (refl, Zeros-zero_bytes n)

module _ (digest : Digest) (knows : KnowsZeros digest) (s t : Station) (before now : ℕ) where
  wiped_chunk :
      (x : Sample) (old new : List ℕ)
      → x.before ≡ digest old
      → x.after ≡ digest new
      → Cleared digest t now x
      → (new ≢ old) ⊎ Zeros old
  wiped_chunk x old new b a (inl differs) = inl (λ same. differs (a ∙ ap digest same ∙ sym b))
  wiped_chunk x old new b a (inr zeros) =
      let size = read_size t now x.offset in
      inr (subst Zeros (sym (knows size old (sym b ∙ zeros))) (Zeros-zero_bytes size))

  all_wiped :
      (read : ℕ) (xs : List Sample)
      → AllCaptured digest s before read (offsets_in xs) (befores xs)
      → AllHashed digest t now read xs
      → ((x : Sample) → In x xs → Cleared digest t now x)
      → AllWiped s t before now read (offsets_in xs)
  all_wiped read [] c h cleared = tt
  all_wiped read (x ∷ xs) c h cleared =
      let (old, rest, was, kept, earlier) = c in
      let ((new, is, hash), later) = h in
      (
        old,
        new,
        was,
        is,
        wiped_chunk x old new (cc kept) hash (cleared x here),
        all_wiped (read + 1) xs
            (subst (AllCaptured digest s before (read + 1) (offsets_in xs)) (cc kept) earlier) later
            (λ y at. cleared y (there at)),
      )

length-offsets_in : (xs : List Sample) → length (offsets_in xs) ≡ length xs
length-offsets_in [] = refl
length-offsets_in (x ∷ xs) = ap suc (length-offsets_in xs)

NoneChanged-StillZero :
    (t : Station) (capacity : ℕ) (os : List ℕ) (xs : List Sample)
    → offsets_in xs ≡ 0 ∷ os
    → NoneChanged t capacity xs
    → StillZero t capacity (0 ∷ os)
NoneChanged-StillZero t capacity os [] e n = cc e
NoneChanged-StillZero t capacity os (x ∷ xs) e n =
    let (first, rest, list, same, bytes, answer, some_bytes, zeros) = n in
    let head : first ≡ x = cc list in
    let start : first.offset ≡ 0 = ap (λ (y : Sample). y.offset) head ∙ cc e in
    let count : length (x ∷ xs) ≡ length (0 ∷ os) =
      sym (length-offsets_in (x ∷ xs)) ∙ ap (λ (ys : List ℕ). length ys) e in
    (bytes, rw (← count, ← start) answer, some_bytes, zeros)

module _ (digest : Digest) (knows : KnowsZeros digest) (s t : Station) (device : String) where
  verdict-IsWiped :
      (before : ℕ) (offsets : List ℕ) (hashes : List String)
      → CapturedAt digest s before offsets hashes
      → IsReplaced digest t device (record { ok = true; offsets = offsets; hashes = hashes })
      → IsWiped s t
  verdict-IsWiped before offsets hashes (known, begins, made) r =
      let place = r.places ∙ begins in
      record {
        old_capacity = before;
        new_capacity = r.capacity;
        old_known = known;
        new_known = r.known;
        verdict = elim r.verdict [
          | inl some_changed ↦ inl (
              subst (AllWiped s t before r.capacity 0) place (
                all_wiped digest knows s t before r.capacity 0 r.samples
                  (rw (r.places, r.kept) made) r.hashed some_changed.1))
          | inr none_changed ↦
              inr (NoneChanged-StillZero t r.capacity _ r.samples place none_changed)
        ];
      }

  compared-IsWiped :
      (c : Capture)
      → capture_before_state digest s device ≡ c
      → IsReplaced digest t device (before_of c)
      → IsWiped s t
  unfolding before_of
  compared-IsWiped (not_captured e) made r = absurd (omega (arith, r.some_places))
  compared-IsWiped (captured offsets hashes) made r =
      let (before, state) = state_captured digest s device offsets hashes made in
      verdict-IsWiped before offsets hashes state r

-- If a state is captured and the comparison with it attests the erase of the device, then at offset 0 and
-- at each sampled offset the bytes read behind the erase differ from those read before, or those were
-- zeros; or else the first chunk, read once more behind it, gave one byte or more and zeros only. This
-- takes it that no other bytes have the hash of a run of zeros.
pub captured_comparison-IsWiped :
    (digest : Digest) (s t : Station) (device : String)
    → KnowsZeros digest
    → attested (
        verify_crypto_hash_comparison digest t device
          (before_of (capture_before_state digest s device)))
      ≡ true
    → IsWiped s t
captured_comparison-IsWiped digest s t device knows h =
    compared-IsWiped digest knows s t device (capture_before_state digest s device) refl
      (verify_crypto_hash_comparison-IsReplaced digest t device _ h)
