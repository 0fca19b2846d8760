-- ===== src/Vm/Settings.antt =====
-- server/src/vm.rs: the limit of the memory, the title of the page, the capture of HDMI, and the flags of
-- SSH and mDNS. Files are texts, none where one is missing.
pub mod Kept
use rustykvm.Prelude.{
  ℕ, zero, suc, ◌+◌, ◌-◌, ◌*◌, ◌/◌, ◌%◌, ◌^◌, ◌≤◌, ◌<◌, min, String, ◌≡◌, refl, sym, ap, ◌∙◌, ◌≢◌,
  ◌↔◌, ◌⊎◌, inl, inr, Bool, true, false, not, ◌&&◌, ◌||◌, Option, none, some, List, [], ◌∷◌, ◌++◌,
  map, arith, eq_iff, str_eq, ltb, leb, ◌==◌, if◌then◌else◌, ltb→lt, lt→ltb, ltb_of_le, leb→le,
  ==_iff, tests, Bool-cases, Option-cases, is_some_and, length, get_elem?, get_elem?-of_lt, get_or,
  take, drop, replicate, any, all, retain, All, sum, sum-append, list_eq, list_eq→eq, list_eq_refl,
  length-append, length-take, length-drop, take-append-drop, length-retain-le,
}
use rustykvm.Prelude.Int.{ℤ, pos, negsuc, int_lt}
use rustykvm.Prelude.Result.{FileWrite, complete, broken, written_file}
use rustykvm.Prelude.Text.{Text, codes, trim, parse_unsigned, push_digits}
use rustykvm.Api.{ApiResponse, api_ok, api_ok_empty, api_err}
use rustykvm.Api.ErrorCodes.{generic}
use rustykvm.Vm.Scripts.{is_empty}
use rustykvm.Vm.Screen.{digits}

pub record MemoryLimit : Type 0 where
  pub enabled : Bool
  pub limit : ℤ

abbrev pub negated : ℕ → ℤ
negated zero = pos 0
negated (suc n) = negsuc n

abbrev pub positive_or_zero : Option ℕ → ℤ
positive_or_zero none = pos 0
positive_or_zero (some n) = pos n

abbrev pub negative_or_zero : Option ℕ → ℤ
negative_or_zero none = pos 0
negative_or_zero (some n) = negated n

-- `parse::<i64>().unwrap_or(0)`
unfoldable pub parse_i64_or_zero : Text → ℤ
unfolding parse_unsigned push_digits
parse_i64_or_zero [] = pos 0
parse_i64_or_zero (c ∷ []) = positive_or_zero (parse_unsigned (2 ^ 63 - 1) (c ∷ []))
parse_i64_or_zero (c ∷ d ∷ s) =
    if c == b'-'
    then negative_or_zero (push_digits (2 ^ 63) 0 (d ∷ s))
    else positive_or_zero (parse_unsigned (2 ^ 63 - 1) (c ∷ d ∷ s))

-- The reading of a file that exists may fail.
unfoldable pub get_memory_limit_handler : Bool → Option Text → ApiResponse {0} MemoryLimit
unfolding parse_i64_or_zero trim
get_memory_limit_handler is_read none = api_ok (record { enabled = false; limit = pos 0 })
get_memory_limit_handler is_read (some content) =
    if is_read
    then api_ok (record { enabled = true; limit = parse_i64_or_zero (trim content) })
    else api_err (negsuc 0) "failed to read memory limit"

-- `limit.max(50)`
abbrev pub at_least_50 : ℤ → ℕ
at_least_50 (pos n) = if ltb n 50 then 50 else n
at_least_50 (negsuc n) = 50

abbrev pub limit_answer : FileWrite Text → ApiResponse {0} Unit
limit_answer complete = api_ok_empty
limit_answer (broken left) = api_err (negsuc 1) "failed to set memory limit"

-- With the write of the file, and whether it is removed. An i64 has nineteen digits at most.
unfoldable pub set_memory_limit_handler :
    FileWrite Text → Bool → MemoryLimit → Option Text → ApiResponse {0} Unit × Option Text
set_memory_limit_handler w is_removed req file =
    if req.enabled
    then (limit_answer w, written_file w (digits 19 (at_least_50 req.limit)))
    else (api_ok_empty, if is_removed then none else file)

unfoldable pub get_web_title_handler : Option Text → ApiResponse {0} Text
unfolding trim
get_web_title_handler file =
    api_ok (trim (elim file [ none ↦ codes "NanoKVM" | some content ↦ content ]))

-- Neither failure is reported.
unfoldable pub set_web_title_handler :
    FileWrite Text → Bool → Text → Option Text → ApiResponse {0} Unit × Option Text
set_web_title_handler w is_removed title file = (
  api_ok_empty,
  if is_empty title || list_eq title (codes "NanoKVM")
      then if is_removed then none else file
      else written_file w title,
)

-- Whether the capture is on, and whether the file that turns it off at the start is there.
pub record Hdmi : Type 0 where
  pub is_on : Bool
  pub disable_file : Bool

-- Whether the library takes the switch, and whether the file is written or removed; nothing is reported.
pub record HdmiIo : Type 0 where
  pub is_switched : Bool
  pub is_done : Bool

abbrev pub switch_hdmi : HdmiIo → Bool → Hdmi → Hdmi
switch_hdmi io on h = record {
  is_on = if io.is_switched then on else h.is_on;
  disable_file = if io.is_done then not on else h.disable_file;
}

unfoldable pub enable_hdmi_handler : HdmiIo → Hdmi → ApiResponse {0} Unit × Hdmi
enable_hdmi_handler io h = (api_ok_empty, switch_hdmi io true h)

unfoldable pub disable_hdmi_handler : HdmiIo → Hdmi → ApiResponse {0} Unit × Hdmi
disable_hdmi_handler io h = (api_ok_empty, switch_hdmi io false h)

-- Off and on again, with the outcomes of both switches and of removing the file.
unfoldable pub reset_hdmi_handler : Bool → HdmiIo → Hdmi → ApiResponse {0} Unit × Hdmi
reset_hdmi_handler is_switched_off io h = (
  api_ok_empty,
  switch_hdmi io true (record {
    is_on = if is_switched_off then false else h.is_on;
    disable_file = h.disable_file;
  }),
)

unfoldable pub get_hdmi_state_handler : Hdmi → ApiResponse {0} Bool
get_hdmi_state_handler h = api_ok (not h.disable_file)

-- By the file that stops SSH, and the process file of mDNS.
unfoldable pub get_ssh_handler : Bool → ApiResponse {0} Bool
get_ssh_handler stop_flag = api_ok (not stop_flag)

unfoldable pub get_mdns_handler : Bool → ApiResponse {0} Bool
get_mdns_handler pid_file = api_ok pid_file

-- By whether the script succeeds; mDNS without a process file needs none to be disabled.
abbrev pub succeeded : Bool → ApiResponse {0} Unit
succeeded true = api_ok_empty
succeeded false = api_err generic "failed"

unfoldable pub switch_ssh_handler : Bool → ApiResponse {0} Unit
switch_ssh_handler is_done = succeeded is_done

unfoldable pub enable_mdns_handler : Bool → ApiResponse {0} Unit
enable_mdns_handler is_done = succeeded is_done

unfoldable pub disable_mdns_handler : Option Text → Bool → ApiResponse {0} Unit
disable_mdns_handler none is_done = api_ok_empty
disable_mdns_handler (some pid) is_done = succeeded is_done
