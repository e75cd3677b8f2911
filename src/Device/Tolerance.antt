-- ===== src/Device/Tolerance.antt =====
-- What growth of a drive's write counter is put down to the station (`check_write_tolerance`).
use drive_eraser.Prelude.{
  ℕ, ◌+◌, ◌≤◌, String, ◌≡◌, ◌≢◌, ◌↔◌, ◌⊎◌, inl, inr, refl, Bool, true, false, ◌||◌, Option, none,
  some, arith, lower, contains, str_eq, eq_iff, or_else, Bool-cases,
}
use drive_eraser.Device.{tolerance_of, untracked, within_tolerance, check_write_tolerance}

-- The growth of a write counter that is put down to the station: any, where the counter is not tracked
-- or one of its values is unknown; else up to 4 units, and up to 4096 for a drive that is not read by
-- NVMe or from the cache page of a Seagate drive.
pub data IsTolerated (interface_type : Option String) (current stored : Option ℕ)
    (source : Option String) : Type 0 where
  no_tracking :
      (source ≡ some "disabled") ⊎ (source ≡ some "gigabytes_processed")
      → IsTolerated interface_type current stored source
  no_value : (current ≡ none) ⊎ (stored ≡ none) → IsTolerated interface_type current stored source
  a_little :
      {c s : ℕ}
      → current ≡ some c
      → stored ≡ some s
      → s ≤ c
      → c ≤ s + 4
      → IsTolerated interface_type current stored source
  more :
      {c s : ℕ}
      → current ≡ some c
      → stored ≡ some s
      → s ≤ c
      → c ≤ s + 4096
      → source ≢ some "seagate_cache_0x37"
      → contains "nvme" (lower (or_else interface_type "unknown")) ≡ false
      → IsTolerated interface_type current stored source

untracked-tracking :
    (source : Option String)
    → untracked source ≡ true
    → (source ≡ some "disabled") ⊎ (source ≡ some "gigabytes_processed")
unfolding untracked
untracked-tracking none h = cc h
untracked-tracking (some s) h = elim (Bool-cases (str_eq s "disabled")) [
  | inl d ↦ inl (ground (arith, eq_iff s "disabled"))
  | inr other ↦
      let g : str_eq s "gigabytes_processed" ≡ true = rw (other, ◌||◌) at h in
      inr (ground (arith, eq_iff s "gigabytes_processed"))
]

tracking-untracked :
    (source : Option String)
    → (source ≡ some "disabled") ⊎ (source ≡ some "gigabytes_processed")
    → untracked source ≡ true
unfolding untracked
tracking-untracked source (inl e) = rw e refl
tracking-untracked source (inr e) = rw e refl

is_seagate : Option String → Bool
is_seagate source = str_eq (or_else source "") "seagate_cache_0x37"

is_seagate-ne :
    (source : Option String) → is_seagate source ≡ false → source ≢ some "seagate_cache_0x37"
unfolding is_seagate or_else
is_seagate-ne source h e = let found : is_seagate source ≡ true = rw e refl in cc (h, found)

ne-is_seagate :
    (source : Option String) → source ≢ some "seagate_cache_0x37" → is_seagate source ≡ false
unfolding is_seagate or_else
ne-is_seagate none ne = refl
ne-is_seagate (some s) ne = elim (Bool-cases (str_eq s "")) [
  | inl empty ↦ rw empty refl
  | inr full ↦ rw full (ground (arith, ne, eq_iff s "seagate_cache_0x37"))
]

tolerance_of-cases :
    (iface : String) (source : Option String)
    → (tolerance_of iface source ≡ 4)
      ⊎ ((tolerance_of iface source ≡ 4096)
          × (source ≢ some "seagate_cache_0x37")
          × (contains "nvme" iface ≡ false))
unfolding tolerance_of is_seagate
tolerance_of-cases iface source = elim (Bool-cases (is_seagate source)) [
  | inl seagate ↦ inl (rw seagate refl)
  | inr other ↦ elim (Bool-cases (contains "nvme" iface)) [
    | inl nvme ↦ inl (rw (other, nvme) refl)
    | inr sata ↦ inr (rw (other, sata) refl, is_seagate-ne source other, sata)
  ]
]

tolerance_of-more :
    (iface : String) (source : Option String)
    → source ≢ some "seagate_cache_0x37"
    → contains "nvme" iface ≡ false
    → tolerance_of iface source ≡ 4096
unfolding tolerance_of is_seagate
tolerance_of-more iface source ne sata = rw (ne-is_seagate source ne, sata) refl

module _ (i : Option String) (source : Option String) where
  abbrev iface : String
  iface = lower (or_else i "unknown")

  within-IsTolerated :
      (current stored : Option ℕ)
      → within_tolerance iface source current stored ≡ true
      → IsTolerated i current stored source
  unfolding within_tolerance
  within-IsTolerated none stored h = no_value (inl refl)
  within-IsTolerated (some c) none h = no_value (inr refl)
  within-IsTolerated (some c) (some s) h = elim (tolerance_of-cases iface source) [
    | inl four ↦ a_little refl refl (ground arith) (ground arith)
    | inr (many, ne, sata) ↦ more refl refl (ground arith) (ground arith) ne sata
  ]

  within_of-le :
      (c s : ℕ)
      → s ≤ c
      → c ≤ s + tolerance_of iface source
      → within_tolerance iface source (some c) (some s) ≡ true
  unfolding within_tolerance
  within_of-le c s le bound = ground arith

  IsTolerated-within :
      (current stored : Option ℕ)
      → untracked source ≡ false
      → IsTolerated i current stored source
      → within_tolerance iface source current stored ≡ true
  IsTolerated-within current stored tracked (no_tracking t) =
      let not_tracked = tracking-untracked source t in cc (tracked, not_tracked)
  IsTolerated-within current stored tracked (no_value (inl e)) =
      rw e (unfold within_tolerance in refl)
  IsTolerated-within current stored tracked (no_value (inr e)) = rw e (no_stored current)
    where
      no_stored : (o : Option ℕ) → within_tolerance iface source o none ≡ true
      no_stored none = unfold within_tolerance in refl
      no_stored (some c) = unfold within_tolerance in refl
  IsTolerated-within current stored tracked (a_little {c} {s} e e' le bound) =
      rw (e, e')
        (within_of-le c s le (elim (tolerance_of-cases iface source) [
          | inl four ↦ omega arith
          | inr (many, ne, sata) ↦ omega arith
        ]))
  IsTolerated-within current stored tracked (more {c} {s} e e' le bound ne sata) =
      rw (e, e')
        (within_of-le c s le (omega (arith, bound, tolerance_of-more iface source ne sata)))

-- The growth of a drive's write counter is put down to the station exactly when the counter is not
-- tracked, or one of its values is unknown, or it has not gone back and has grown by 4 or less, or by
-- 4096 or less on a drive whose interface does not name NVMe and whose counter is not read from the
-- cache page of a Seagate drive.
pub check_write_tolerance_iff :
    (interface_type : Option String) (current stored : Option ℕ) (source : Option String)
    → (check_write_tolerance interface_type current stored source ≡ true)
      ↔ IsTolerated interface_type current stored source
unfolding check_write_tolerance
check_write_tolerance_iff i current stored source = elim (Bool-cases (untracked source)) [
  | inl free ↦ (λ h. no_tracking (untracked-tracking source free), λ t. rw free refl)
  | inr tracked ↦ rw tracked (
    λ h. within-IsTolerated i source current stored h,
    λ t. IsTolerated-within i source current stored tracked t,
  )
]
