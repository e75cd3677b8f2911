-- ===== src/Marker/Read.antt =====
-- `read_marker_status` of backend/disk_utils.py. SHA-256, the keyed hash and `json.loads` are parameters.
use drive_eraser.Prelude.{
  ℕ, zero, suc, ◌+◌, ◌-◌, String, Bool, true, false, not, ◌&&◌, Option, none, some, List, [], ◌∷◌,
  ◌++◌, ltb, ◌==◌, all, codes, length, drop, str_eq, truthy, get_or, if◌then◌else◌,
}
use drive_eraser.Device.{validate_device_path}
use drive_eraser.Device.Json.{find_json_bounds}
use drive_eraser.Marker.Dumps.{Value, null, number, text, other, Field, dumps, sort_keys}

abbrev pub marker_signature : String
marker_signature = "DWS_MARKER_V1"

abbrev pub marker_block_size : ℕ
marker_block_size = 4096

abbrev pub max_json_size : ℕ
max_json_size = 65536

-- `hashlib.sha256(data).hexdigest()`, the HMAC under the key that PBKDF2 derives from the passphrase, and
-- `json.loads` of bytes that must be UTF-8; no value means that it raises.
pub record Crypto : Type 0 where
  pub sha256 : List ℕ → String
  pub keyed : (passphrase : String) → List ℕ → String
  pub loads : List ℕ → Option (List Field)

-- What a run of dd comes to.
pub data DdRun : Type 0 where
  exited : (code : ℕ) → (output : List ℕ) → DdRun
  run_raises : (message : String) → DdRun

-- The fields of `details`
pub record MarkerDetails : Type 0 where
  pub job_id : Value
  pub finished_at : Value
  pub method : Value
  pub serial : Value
  pub ticket_number : Value
  pub data_written_at_wipe : Value
  pub write_counter_source : Value

pub data MarkerStatus : Type 0 where
  unread : (error : String) → MarkerStatus
  absent : MarkerStatus
  corrupted : (error : String) → MarkerStatus
  checksum_valid : (hmac_verified : Bool) → MarkerDetails → MarkerStatus
  -- `hmac.compare_digest` raises TypeError, which nothing catches
  status_raises : MarkerStatus

is_prefix : List ℕ → List ℕ → Bool
is_prefix [] bs = true
is_prefix (a ∷ as') [] = false
is_prefix (a ∷ as') (b ∷ bs) = a == b && is_prefix as' bs

-- `output_bytes.find(needle)`, from a position on
unfoldable pub find_bytes : List ℕ → ℕ → List ℕ → Option ℕ
unfolding is_prefix
find_bytes needle i [] = if is_prefix needle [] then some i else none
find_bytes needle i (b ∷ bs) =
    let rest = find_bytes needle (i + 1) bs in if is_prefix needle (b ∷ bs) then some i else rest

unfoldable pub take : ℕ → List ℕ → List ℕ
take zero bs = []
take (suc n) [] = []
take (suc n) (b ∷ bs) = b ∷ take n bs

-- `output_bytes[start:end + 1]`
unfoldable pub slice : (start end : ℕ) → List ℕ → List ℕ
unfolding take
slice start end bs = take (end + 1 - start) (drop start bs)

-- `parsed.get(key)` and the removal by `parsed.pop(key, None)`
unfoldable pub get : String → List Field → Option Value
get key [] = none
get key ((k, v) ∷ fs) = if str_eq key k then some v else get key fs

unfoldable pub remove : String → List Field → List Field
remove key [] = []
remove key ((k, v) ∷ fs) = let rest = remove key fs in if str_eq key k then rest else (k, v) ∷ rest

-- `value == s` for a text
unfoldable pub is_text : String → Option Value → Bool
is_text s none = false
is_text s (some null) = false
is_text s (some (number n)) = false
is_text s (some (text t)) = str_eq s t
is_text s (some (other printed truth)) = false

unfoldable pub value_true : Option Value → Bool
value_true none = false
value_true (some null) = false
value_true (some (number n)) = not (n == 0)
value_true (some (text t)) = not (str_eq t "")
value_true (some (other printed truth)) = truth

-- `hmac.compare_digest(calculated, stored)`: it wants ASCII texts
unfoldable pub compare_digest : String → Option Value → Option Bool
compare_digest s none = none
compare_digest s (some null) = none
compare_digest s (some (number n)) = none
compare_digest s (some (text t)) =
    if all (λ c. ltb c 128) (codes t) then some (str_eq s t) else none
compare_digest s (some (other printed truth)) = none

unfoldable pub details_in : List Field → MarkerDetails
details_in fs = record {
  job_id = get_or (get "job_id" fs) null;
  finished_at = get_or (get "finished_at" fs) null;
  method = get_or (get "method" fs) null;
  serial = get_or (get "serial" fs) null;
  ticket_number = get_or (get "ticket_number" fs) null;
  data_written_at_wipe = get_or (get "data_written_at_wipe" fs) null;
  write_counter_source = get_or (get "write_counter_source" fs) null;
}

unfoldable pub with_hmac_result : List Field → Option Bool → MarkerStatus
with_hmac_result fs none = status_raises
with_hmac_result fs (some verified) = checksum_valid verified (details_in fs)

-- Behind the checksum: the fields with it, and the stored HMAC.
unfoldable pub check_hmac : Crypto → Option String → List Field → Option Value → MarkerStatus
check_hmac c passphrase fs stored =
    if truthy passphrase && value_true stored
    then with_hmac_result fs
        (compare_digest (c.keyed (get_or passphrase "") (dumps (sort_keys fs))) stored)
    else checksum_valid false (details_in fs)

unfoldable pub check_fields : Crypto → Option String → List Field → MarkerStatus
check_fields c passphrase fs =
    let bare = remove "hmac" (remove "checksum" fs) in
    let checksum = c.sha256 (dumps (sort_keys bare)) in
    if not (is_text marker_signature (get "signature" fs))
    then corrupted "invalid_signature"
    else if not (is_text checksum (get "checksum" fs))
    then corrupted "checksum_mismatch"
    else check_hmac c passphrase (bare ++ (("checksum", text checksum) ∷ [])) (get "hmac" fs)

unfoldable pub check_parsed : Crypto → Option String → Option (List Field) → MarkerStatus
check_parsed c passphrase none = corrupted "json_parse_failed"
check_parsed c passphrase (some fs) = check_fields c passphrase fs

unfoldable pub check_bounds : Crypto → Option String → List ℕ → Option (ℕ × ℕ) → MarkerStatus
check_bounds c passphrase bytes none = corrupted "json_parse_failed"
check_bounds c passphrase bytes (some (start, end)) =
    if ltb max_json_size (length (slice start end bytes))
    then corrupted "json_too_large"
    else check_parsed c passphrase (c.loads (slice start end bytes))

unfoldable pub check_marker : Crypto → Option String → List ℕ → Option ℕ → MarkerStatus
check_marker c passphrase bytes none = absent
check_marker c passphrase bytes (some index) =
    check_bounds c passphrase bytes (find_json_bounds bytes index)

unfoldable pub marker_in : Crypto → Option String → List ℕ → MarkerStatus
marker_in c passphrase bytes =
    check_marker c passphrase bytes (find_bytes (codes marker_signature) 0 bytes)

unfoldable pub second_read : Crypto → Option String → DdRun → MarkerStatus
second_read c passphrase (run_raises message) = unread "marker_read_exception"
second_read c passphrase (exited code output) =
    if code == 0 then marker_in c passphrase output else unread "marker_read_failed"

-- The block is read past the page cache, and through it where that fails.
unfoldable pub first_read :
    Crypto → Option String → (buffered : DdRun) → (direct : DdRun) → MarkerStatus
first_read c passphrase buffered (run_raises message) = unread "marker_read_exception"
first_read c passphrase buffered (exited code output) =
    if code == 0 then marker_in c passphrase output else second_read c passphrase buffered

-- The reads of the first block, and the path of dd.
pub record MarkerDrive : Type 0 where
  pub dd_path : Option String
  pub direct : DdRun
  pub buffered : DdRun

unfoldable pub read_marker_status : Crypto → MarkerDrive → String → Option String → MarkerStatus
read_marker_status c drive device passphrase =
    if not (validate_device_path (some device))
    then unread "invalid_device_path"
    else if not (truthy drive.dd_path)
    then unread "dd_not_available_for_marker_read"
    else first_read c passphrase drive.buffered drive.direct
