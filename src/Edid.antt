-- ===== src/Edid.antt =====
-- server/src/vm/edid.rs: the check of an EDID, and the handlers that program, keep and read it. The
-- I2C read, the tool and the files answer through parameters, the text of an OS error left out; `programmed` is what the tool last wrote.
pub mod Checksum
pub mod Device
mod Tests
use rustykvm.Prelude.{
  ℕ, zero, suc, ◌+◌, ◌-◌, ◌*◌, ◌/◌, ◌%◌, ◌^◌, ◌≤◌, ◌<◌, min, String, ◌≡◌, refl, sym, ap, ◌∙◌, ◌≢◌,
  ◌↔◌, ◌⊎◌, inl, inr, Bool, true, false, not, ◌&&◌, ◌||◌, Option, none, some, List, [], ◌∷◌, ◌++◌,
  map, arith, eq_iff, str_eq, ltb, leb, ◌==◌, if◌then◌else◌, ltb→lt, lt→ltb, ltb_of_le, leb→le,
  ==_iff, tests, Bool-cases, Option-cases, is_some_and, length, get_elem?, get_elem?-of_lt, get_or,
  take, drop, replicate, any, all, retain, All, sum, sum-append, list_eq, list_eq→eq, list_eq_refl,
  length-append, length-take, length-drop, take-append-drop, length-retain-le,
}
use rustykvm.Prelude.{str_append}
use rustykvm.Prelude.Result.{Result, ok, err}
use rustykvm.Passkey.Bytes.{byte, slice}
use rustykvm.Api.{ApiResponse, api_ok, api_ok_empty, api_err}
use rustykvm.Api.ErrorCodes

abbrev pub edid_size : ℕ
edid_size = 256

abbrev pub edid_header : List ℕ
edid_header = 0x00 ∷ 0xff ∷ 0xff ∷ 0xff ∷ 0xff ∷ 0xff ∷ 0xff ∷ 0x00 ∷ []

-- `sum = sum.wrapping_add(*b)` over the bytes, from `acc` on
unfoldable pub wrapping_sum : ℕ → List ℕ → ℕ
wrapping_sum acc [] = acc
wrapping_sum acc (b ∷ bs) = wrapping_sum ((acc + b) % 2 ^ 8) bs

-- `0x100u16.wrapping_sub(sum as u16) as u8`
abbrev pub checksum_of : ℕ → ℕ
checksum_of sum = (0x100 + 2 ^ 16 - sum) % 2 ^ 16 % 2 ^ 8

unfoldable pub validate_edid : List ℕ → Result {0, 0} String Unit
validate_edid bytes =
    if not (length bytes == edid_size)
    then err "EDID must be exactly 256 bytes"
    else if not (list_eq (take 8 bytes) edid_header)
    then err "Invalid EDID header"
    else if not (checksum_of (wrapping_sum 0 (slice bytes 0 127)) == byte bytes 127)
    then err "Checksum for first 128 bytes is incorrect"
    else if not (checksum_of (wrapping_sum 0 (slice bytes 128 127)) == byte bytes 255)
    then err "Checksum for second 128 bytes is incorrect"
    else ok tt

abbrev pub is_valid : List ℕ → Bool
is_valid bytes = elim (validate_edid bytes) [ ok _ ↦ true | err _ ↦ false ]

-- What the receiver was programmed with, and the file /etc/kvm/edid.bin.
pub record EdidDevice : Type 0 where
  pub programmed : Option (List ℕ)
  pub custom_file : Option (List ℕ)

-- The outcomes of the steps of one request.
pub record EdidIo : Type 0 where
  pub tool_exists : Bool
  pub tmp_written : Bool
  pub tool_executed : Bool
  pub tool_succeeded : Bool
  pub custom_written : Bool
  pub custom_renamed : Bool
  pub custom_removed : Bool

unfoldable pub write_edid_via_tool :
    EdidIo → List ℕ → EdidDevice → EdidDevice × Result {0, 0} String Unit
write_edid_via_tool io bytes d =
    if not io.tool_exists
    then (
      d,
      err "EDID tool not present on this device (expected at /usr/local/bin/nanokvm_update_edid)",
    )
    else if not io.tmp_written
    then (d, err "Failed to write temporary EDID file")
    else if not io.tool_executed
    then (d, err "Failed to execute EDID tool")
    else if not io.tool_succeeded
    then (d, err "EDID tool failed to program the new EDID (see device logs for details)")
    else (record d { programmed = some bytes }, ok tt)

-- The bytes are written beside the file and renamed over it.
abbrev pub save_custom_edid : EdidIo → List ℕ → EdidDevice → EdidDevice
save_custom_edid io bytes d =
    if io.custom_written && io.custom_renamed then record d { custom_file = some bytes } else d

abbrev pub remove_custom_edid : EdidIo → EdidDevice → EdidDevice
remove_custom_edid io d = if io.custom_removed then record d { custom_file = none } else d

-- After the tool: the file on success, else the error with its prefix.
abbrev pub finish_set :
    {T : Type 0}
    → ApiResponse T
    → (EdidDevice → EdidDevice)
    → String
    → EdidDevice × Result {0, 0} String Unit
    → EdidDevice × ApiResponse T
finish_set success keep prefix (d, ok _) = (keep d, success)
finish_set success keep prefix (d, err e) = (d, api_err ErrorCodes.hardware (str_append prefix e))

-- `set_edid_handler`, on what base64 made of the request.
abbrev pub set_valid :
    EdidIo → List ℕ → EdidDevice → Result {0, 0} String Unit → EdidDevice × ApiResponse {0} Unit
set_valid io bytes d (err e) = (d, api_err ErrorCodes.validation e)
set_valid io bytes d (ok _) =
    finish_set api_ok_empty (save_custom_edid io bytes) "Failed to write EDID: "
      (write_edid_via_tool io bytes d)

unfoldable pub set_edid_handler :
    EdidIo → Option (List ℕ) → EdidDevice → EdidDevice × ApiResponse {0} Unit
set_edid_handler io none d = (d, api_err ErrorCodes.validation "invalid base64 EDID data")
set_edid_handler io (some bytes) d = set_valid io bytes d (validate_edid bytes)

-- `apply_default_edid_handler`; the built-in template is a parameter.
abbrev pub apply_valid :
    EdidIo → List ℕ → EdidDevice → Result {0, 0} String Unit → EdidDevice × ApiResponse String
apply_valid io template d (err e) =
    (d, api_err ErrorCodes.generic (str_append "built-in default EDID template is invalid: " e))
apply_valid io template d (ok _) =
    finish_set (api_ok "default 1080p EDID applied") (remove_custom_edid io)
      "Failed to apply default EDID: " (write_edid_via_tool io template d)

unfoldable pub apply_default_edid_handler :
    EdidIo → List ℕ → EdidDevice → EdidDevice × ApiResponse String
apply_default_edid_handler io template d =
    if not (length template == edid_size)
    then (d, api_err ErrorCodes.generic "built-in default EDID template has invalid size")
    else apply_valid io template d (validate_edid template)

-- The kept EDID, if the file can be read and is valid.
abbrev pub persisted : EdidDevice → Option (List ℕ)
persisted d = elim d.custom_file [
  | none ↦ none
  | some bytes ↦ if (length bytes == edid_size) && is_valid bytes then some bytes else none
]

abbrev pub apply_persisted : EdidIo → EdidDevice → Option (List ℕ) → EdidDevice
apply_persisted io d none = d
apply_persisted io d (some bytes) = (write_edid_via_tool io bytes d).0

unfoldable pub load_and_apply_custom_edid_on_boot : EdidIo → EdidDevice → EdidDevice
load_and_apply_custom_edid_on_boot io d = apply_persisted io d (persisted d)

-- The answer's bytes before base64, and whether the EDID is a custom one.
pub record GetEdidRsp : Type 0 where
  pub bytes : List ℕ
  pub custom : Bool

abbrev pub has_custom_file : EdidDevice → Bool
has_custom_file d = elim d.custom_file [ none ↦ false | some _ ↦ true ]

abbrev pub checked_read : EdidDevice → List ℕ → Result {0, 0} String Unit → ApiResponse GetEdidRsp
checked_read d bytes (err e) =
    api_err ErrorCodes.hardware (str_append "Read EDID failed validation: " e)
checked_read d bytes (ok _) = api_ok (record { bytes = bytes; custom = has_custom_file d })

abbrev pub persisted_answer : String → Option (List ℕ) → ApiResponse GetEdidRsp
persisted_answer e none = api_err ErrorCodes.hardware e
persisted_answer e (some bytes) = api_ok (record { bytes = bytes; custom = true })

-- `get_edid_handler`, on what the I2C read answers.
unfoldable pub get_edid_handler :
    Result {0, 0} String (List ℕ) → EdidDevice → ApiResponse GetEdidRsp
get_edid_handler (ok bytes) d = checked_read d bytes (validate_edid bytes)
get_edid_handler (err e) d = persisted_answer e (persisted d)
