-- ===== src/Edid/Tests.antt =====
-- Runs of server/src/vm/edid.rs, and the theorems at concrete inputs.
use rustykvm.Prelude.{
  ℕ, ◌%◌, ◌≡◌, refl, ◌↔◌, true, none, some, List, [], ◌∷◌, ◌++◌, arith, length, take, drop,
  replicate, sum,
}
use rustykvm.Prelude.Result.{ok, err}
use rustykvm.Edid.{edid_header, wrapping_sum, validate_edid, EdidDevice, EdidIo}
use rustykvm.Edid.Checksum.{validate_edid-ok}
use rustykvm.Edid.Device.{IsSafe, set_edid, boot, replace_file, handle_all, handle_all-IsSafe}

-- A block's header, zeros, and the bytes that make both blocks sum to 0.
abbrev plain_edid : List ℕ
plain_edid = edid_header ++ (replicate 119 0 ++ (6 ∷ replicate 128 0))

abbrev io : EdidIo
io = record {
  tool_exists = true;
  tmp_written = true;
  tool_executed = true;
  tool_succeeded = true;
  custom_written = true;
  custom_renamed = true;
  custom_removed = true;
}

abbrev device : EdidDevice
device = record { programmed = none; custom_file = none }

accepts : validate_edid plain_edid ≡ ok tt
unfolding validate_edid wrapping_sum
accepts = refl

refuses :
    (validate_edid (replicate 255 0) ≡ err "EDID must be exactly 256 bytes")
    × (validate_edid (edid_header ++ replicate 248 0)
        ≡ err "Checksum for first 128 bytes is incorrect")
unfolding validate_edid wrapping_sum
refuses = (refl, refl)

validate_edid-ok_example : (validate_edid plain_edid ≡ ok tt) ↔ (
    (length plain_edid ≡ 256)
    × (take 8 plain_edid ≡ edid_header)
    × (sum (take 128 plain_edid) % 256 ≡ 0)
    × (sum (drop 128 plain_edid) % 256 ≡ 0))
validate_edid-ok_example = validate_edid-ok plain_edid (omega arith)

nothing_programmed : IsSafe device
nothing_programmed = λ bytes e. cc

handle_all-IsSafe_example : IsSafe (
    handle_all plain_edid
      (set_edid io (some plain_edid) ∷ replace_file (some (1 ∷ [])) ∷ boot io ∷ [])
      device)
handle_all-IsSafe_example =
    handle_all-IsSafe plain_edid
      (set_edid io (some plain_edid) ∷ replace_file (some (1 ∷ [])) ∷ boot io ∷ []) device
      nothing_programmed
