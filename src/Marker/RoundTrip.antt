-- ===== src/Marker/RoundTrip.antt =====
-- A marker that is written is read back.
use drive_eraser.Prelude.{
  ℕ, ◌-◌, ◌≤◌, ◌<◌, ◌≡◌, ◌≢◌, refl, ◌∙◌, String, Bool, true, false, not, Option, none, some, List,
  [], ◌∷◌, ◌++◌, arith, ltb, all, codes, length, str_eq, truthy, get_or, Bool-cases, inl, inr,
  eq_iff, ne-str_eq, if◌then◌else◌,
}
use drive_eraser.Device.{validate_device_path}
use drive_eraser.Marker.Dumps.{Value, null, text, Field, dumps, sort_keys}
use drive_eraser.Marker.Dumps.Scanned.{IsPlain, ArePlain}
use drive_eraser.Marker.Read.{
  marker_block_size, max_json_size, Crypto, exited, MarkerDetails, MarkerStatus, checksum_valid,
  get, remove, is_text, value_true, compare_digest, details_in, with_hmac_result, check_hmac,
  check_fields, marker_in, first_read, MarkerDrive, read_marker_status,
}
use drive_eraser.Marker.Write.{
  MarkedJob, or_null, number_or_null, payload_fields, with_checksum, with_hmac, marker_fields,
  build_marker_payload, padding, block_of,
}
use drive_eraser.Marker.Parsed.{begins, parsed_whole}

-- What the marker tells of a job.
abbrev pub told : (now : String) → MarkedJob → MarkerDetails
told now job = record {
  job_id = if truthy job.friendly_id then or_null job.friendly_id else or_null job.id;
  finished_at = if truthy job.finished_at then or_null job.finished_at else text now;
  method = or_null job.method;
  serial = or_null job.serial;
  ticket_number = if truthy job.ticket_number then or_null job.ticket_number else null;
  data_written_at_wipe = number_or_null job.data_written_at_wipe;
  write_counter_source = or_null job.write_counter_source;
}

-- What the keyed hash prints: ASCII, and never an empty text.
pub record PrintsHex (c : Crypto) : Type 0 where
  pub ascii :
      (passphrase : String) (bytes : List ℕ)
      → all (λ k. ltb k 128) (codes (c.keyed passphrase bytes)) ≡ true
  pub nonempty : (passphrase : String) (bytes : List ℕ) → c.keyed passphrase bytes ≢ ""

str_eq_self : (s : String) → str_eq s s ≡ true
str_eq_self s = (eq_iff s s).1 refl

module _ (c : Crypto) (now : String) (job : MarkedJob) where
  abbrev summed : List Field
  summed = with_checksum c (payload_fields now job)

  bare_summed : remove "hmac" (remove "checksum" summed) ≡ payload_fields now job
  unfolding remove with_checksum payload_fields
  bare_summed = refl

  details_summed : details_in summed ≡ told now job
  unfolding details_in get with_checksum payload_fields
  details_summed = refl

  check_summed :
      (passphrase : Option String)
      → truthy passphrase ≡ false
      → check_fields c passphrase summed ≡ checksum_valid false (told now job)
  unfolding check_fields check_hmac is_text get remove details_in with_checksum payload_fields
  check_summed passphrase h =
      let sum = c.sha256 (dumps (sort_keys (payload_fields now job))) in
      rw (str_eq_self sum, not, h, check_hmac) refl

  check_signed :
      (passphrase : Option String)
      → PrintsHex c
      → truthy passphrase ≡ true
      → check_fields c passphrase (
          summed
          ++ (("hmac", text (c.keyed (get_or passphrase "") (dumps (sort_keys summed)))) ∷ []))
        ≡ checksum_valid true (told now job)
  unfolding check_fields check_hmac is_text get remove details_in with_checksum payload_fields
      value_true compare_digest with_hmac_result
  check_signed passphrase hex h =
      let sum = c.sha256 (dumps (sort_keys (payload_fields now job))) in
      let bytes = dumps (sort_keys summed) in
      let seal = c.keyed (get_or passphrase "") bytes in
      rw
        (
          str_eq_self sum,
          not,
          h,
          ne-str_eq seal "" (hex.nonempty (get_or passphrase "") bytes),
          hex.ascii (get_or passphrase "") bytes,
          str_eq_self seal,
        )
        refl

or_null-IsPlain : (o : Option String) → IsPlain (or_null o)
unfolding or_null
or_null-IsPlain none = tt
or_null-IsPlain (some s) = tt

number_or_null-IsPlain : (o : Option ℕ) → IsPlain (number_or_null o)
unfolding number_or_null
number_or_null-IsPlain none = tt
number_or_null-IsPlain (some n) = tt

if-IsPlain : (b : Bool) (v w : Value) → IsPlain v → IsPlain w → IsPlain (if b then v else w)
if-IsPlain true v w p q = p
if-IsPlain false v w p q = q

ArePlain-append : (fs gs : List Field) → ArePlain fs → ArePlain gs → ArePlain (fs ++ gs)
ArePlain-append [] gs p q = q
ArePlain-append ((key, v) ∷ fs) gs p q = (p.0, ArePlain-append fs gs p.1 q)

payload_fields-ArePlain : (now : String) (job : MarkedJob) → ArePlain (payload_fields now job)
unfolding payload_fields
payload_fields-ArePlain now job = (
  tt,
  (
    tt,
    (
      if-IsPlain (truthy job.friendly_id) _ _ (or_null-IsPlain job.friendly_id)
          (or_null-IsPlain job.id),
      (
        if-IsPlain (truthy job.finished_at) _ _ (or_null-IsPlain job.finished_at) tt,
        (
          if-IsPlain (truthy job.ticket_number) _ _ (or_null-IsPlain job.ticket_number) tt,
          (
            or_null-IsPlain job.serial,
            (
              or_null-IsPlain job.method,
              (
                number_or_null-IsPlain job.data_written_at_wipe,
                (or_null-IsPlain job.write_counter_source, tt),
              ),
            ),
          ),
        ),
      ),
    ),
  ),
)

abbrev tail_of : List Field → List Field
tail_of [] = []
tail_of (f ∷ fs) = fs

summed_plain : (c : Crypto) (now : String) (job : MarkedJob) → ArePlain (tail_of (summed c now job))
unfolding with_checksum payload_fields
summed_plain c now job =
    let sum = c.sha256 (dumps (sort_keys (payload_fields now job))) in
    ArePlain-append (tail_of (payload_fields now job)) (("checksum", text sum) ∷ [])
      (payload_fields-ArePlain now job).1 (tt, tt)

module _ (c : Crypto) (now : String) (job : MarkedJob) (passphrase : Option String)
    (hex : PrintsHex c)
    (law : c.loads (dumps (marker_fields c now job passphrase))
      ≡ some (marker_fields c now job passphrase))
    (fits : length (build_marker_payload c now job passphrase) ≤ max_json_size) where
  -- The fields of the marker, by whether there is a passphrase, begin with the signature.
  parsed_as :
      (fs : List Field) (r : MarkerStatus) (rest : List ℕ)
      → marker_fields c now job passphrase ≡ begins fs
      → ArePlain fs
      → check_fields c passphrase (begins fs) ≡ r
      → marker_in c passphrase (build_marker_payload c now job passphrase ++ rest) ≡ r
  unfolding build_marker_payload
  parsed_as fs r rest e plain h =
      rw e (parsed_whole c passphrase fs rest plain (rw e at fits) (rw e at law) ∙ h)

  marker_in-payload :
      (rest : List ℕ)
      → marker_in c passphrase (build_marker_payload c now job passphrase ++ rest)
        ≡ checksum_valid (truthy passphrase) (told now job)
  unfolding marker_fields with_hmac with_checksum payload_fields
  marker_in-payload rest = elim (Bool-cases (truthy passphrase)) [
    | inl signed ↦
        let seal = c.keyed (get_or passphrase "") (dumps (sort_keys (summed c now job))) in
        rw signed (
          parsed_as (tail_of (summed c now job ++ (("hmac", text seal) ∷ []))) _ rest
            (rw signed refl)
            (ArePlain-append (tail_of (summed c now job)) (("hmac", text seal) ∷ [])
              (summed_plain c now job) (tt, tt))
            (check_signed c now job passphrase hex signed))
    | inr plain ↦ rw plain (
        parsed_as (tail_of (summed c now job)) _ rest (rw plain refl) (summed_plain c now job)
          (check_summed c now job passphrase plain))
  ]

-- What stands on the bench for a marker of the job that can be read back.
pub record Readable (c : Crypto) (now : String) (job : MarkedJob) (passphrase : Option String)
    (drive : MarkerDrive) : Type 0 where
  pub hex : PrintsHex c
  pub law :
      c.loads (dumps (marker_fields c now job passphrase))
      ≡ some (marker_fields c now job passphrase)
  pub fits : length (build_marker_payload c now job passphrase) < marker_block_size
  pub tool : truthy drive.dd_path ≡ true
  pub kept : drive.direct ≡ exited 0 (block_of (build_marker_payload c now job passphrase))

-- A marker that was written is read back: its checksum is valid, its HMAC is verified exactly if there is
-- a passphrase, and the details are those of the job, whatever braces or quotes its texts hold. It takes
-- a valid device path, a payload that leaves room in the block of 4096 bytes, a drive that gives the block
-- back, a keyed hash that prints ASCII and not nothing, and `json.loads` that undoes `json.dumps` on
-- the fields of this marker.
pub read_marker_status-block_of :
    (c : Crypto) (now : String) (job : MarkedJob) (passphrase : Option String) (drive : MarkerDrive)
    (device : String)
    → Readable c now job passphrase drive
    → validate_device_path (some device) ≡ true
    → read_marker_status c drive device passphrase
      ≡ checksum_valid (truthy passphrase) (told now job)
unfolding read_marker_status first_read block_of
read_marker_status-block_of c now job passphrase drive device r valid =
    let payload = build_marker_payload c now job passphrase in
    let small : length payload ≤ max_json_size = omega (arith, r.fits) in
    rw (valid, r.tool, r.kept, not, first_read)
      (marker_in-payload c now job passphrase r.hex r.law small
        (10 ∷ padding (marker_block_size - length payload - 1)))
