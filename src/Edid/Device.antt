-- ===== src/Edid/Device.antt =====
-- What the handlers program, keep and answer.
use rustykvm.Prelude.{
  ℕ, String, ◌≡◌, refl, sym, ap, ◌∙◌, ◌⊎◌, inl, inr, Bool, true, ◌&&◌, Option, none, some, List, [],
  ◌∷◌, arith, ◌==◌, Bool-cases, Option-cases, length,
}
use rustykvm.Prelude.Result.{Result, ok, err}
use rustykvm.Api.{ApiResponse, api_ok_empty, api_ok}
use rustykvm.Edid.Checksum.{validate_edid-tests}
use rustykvm.Edid.{
  edid_size, validate_edid, is_valid, EdidDevice, EdidIo, write_edid_via_tool, save_custom_edid,
  remove_custom_edid, set_edid_handler, finish_set, set_valid, apply_default_edid_handler,
  apply_valid, persisted, apply_persisted, persisted_answer, load_and_apply_custom_edid_on_boot,
  get_edid_handler,
}

-- Every EDID that was programmed is valid.
abbrev pub IsSafe : EdidDevice → Type 0
IsSafe d = (bytes : List ℕ) → d.programmed ≡ some bytes → is_valid bytes ≡ true

-- The requests and the start of the server, each with the outcomes of its steps.
pub data EdidEvent : Type 0 where
  set_edid : EdidIo → Option (List ℕ) → EdidEvent
  apply_default : EdidIo → EdidEvent
  boot : EdidIo → EdidEvent
  -- Another program changes the file.
  replace_file : Option (List ℕ) → EdidEvent

pub handle : List ℕ → EdidEvent → EdidDevice → EdidDevice
handle template (set_edid io data_) d = (set_edid_handler io data_ d).0
handle template (apply_default io) d = (apply_default_edid_handler io template d).0
handle template (boot io) d = load_and_apply_custom_edid_on_boot io d
handle template (replace_file file) d = record d { custom_file = file }

pub handle_all : List ℕ → List EdidEvent → EdidDevice → EdidDevice
handle_all template [] d = d
handle_all template (e ∷ es) d = handle_all template es (handle template e d)

-- What one step programs: nothing, or a valid EDID.
abbrev Programs : EdidDevice → EdidDevice → Type 0
Programs d d' =
    (d'.programmed ≡ d.programmed)
    ⊎ ((bytes : List ℕ) × (d'.programmed ≡ some bytes) × (is_valid bytes ≡ true))

tool-Programs :
    (io : EdidIo) (bytes : List ℕ) (d : EdidDevice)
    → is_valid bytes ≡ true
    → Programs d (write_edid_via_tool io bytes d).0
unfolding write_edid_via_tool
tool-Programs io bytes d valid =
    elim (Bool-cases (io.tool_exists && io.tmp_written && io.tool_executed && io.tool_succeeded)) [
      | inl done ↦ inr (bytes, ground arith, valid)
      | inr broken ↦ inl (ground arith)
    ]

finish_set-Programs :
    {T : Type 0} (success : ApiResponse T) (keep : EdidDevice → EdidDevice) (prefix : String)
    (d : EdidDevice) (r : EdidDevice × Result {0, 0} String Unit)
    → ((x : EdidDevice) → (keep x).programmed ≡ x.programmed)
    → Programs d r.0
    → Programs d (finish_set success keep prefix r).0
finish_set-Programs success keep prefix d (x, ok u) same h = rw (same x) h
finish_set-Programs success keep prefix d (x, err e) same h = h

set_valid-Programs :
    (io : EdidIo) (bytes : List ℕ) (d : EdidDevice) (r : Result {0, 0} String Unit)
    → validate_edid bytes ≡ r
    → Programs d (set_valid io bytes d r).0
set_valid-Programs io bytes d (err e) checked = inl refl
set_valid-Programs io bytes d (ok u) checked =
    finish_set-Programs api_ok_empty (save_custom_edid io bytes) "Failed to write EDID: " d
      (write_edid_via_tool io bytes d) (λ x. ground arith)
      (tool-Programs io bytes d (rw (checked, is_valid) refl))

apply_valid-Programs :
    (io : EdidIo) (template : List ℕ) (d : EdidDevice) (r : Result {0, 0} String Unit)
    → validate_edid template ≡ r
    → Programs d (apply_valid io template d r).0
apply_valid-Programs io template d (err e) checked = inl refl
apply_valid-Programs io template d (ok u) checked =
    finish_set-Programs (api_ok "default 1080p EDID applied") (remove_custom_edid io)
      "Failed to apply default EDID: " d (write_edid_via_tool io template d) (λ x. ground arith)
      (tool-Programs io template d (rw (checked, is_valid) refl))

persisted-valid :
    (d : EdidDevice) {bytes : List ℕ} → persisted d ≡ some bytes → is_valid bytes ≡ true
persisted-valid d {bytes} e = elim (Option-cases d.custom_file) [
  | inl missing ↦ absurd (ground arith)
  | inr (bs, found) ↦ elim (Bool-cases ((length bs == edid_size) && is_valid bs)) [
    | inl good ↦ let same : bs ≡ bytes = ground arith in rw (← same) (ground arith)
    | inr bad ↦ absurd (ground arith)
  ]
]

apply_persisted-Programs :
    (io : EdidIo) (d : EdidDevice) (o : Option (List ℕ))
    → persisted d ≡ o
    → Programs d (apply_persisted io d o)
apply_persisted-Programs io d none e = inl refl
apply_persisted-Programs io d (some bytes) e = tool-Programs io bytes d (persisted-valid d e)

handle-Programs :
    (template : List ℕ) (e : EdidEvent) (d : EdidDevice) → Programs d (handle template e d)
unfolding handle set_edid_handler apply_default_edid_handler load_and_apply_custom_edid_on_boot
handle-Programs template (set_edid io none) d = inl refl
handle-Programs template (set_edid io (some bytes)) d =
    set_valid-Programs io bytes d (validate_edid bytes) refl
handle-Programs template (apply_default io) d = elim (Bool-cases (length template == edid_size)) [
  | inl sized ↦
      rw (sized, handle) (apply_valid-Programs io template d (validate_edid template) refl)
  | inr odd ↦ inl (rw (odd, handle) refl)
]
handle-Programs template (boot io) d = apply_persisted-Programs io d (persisted d) refl
handle-Programs template (replace_file file) d = inl refl

-- Over any requests and starts of the server, whatever their outcomes, and whatever else is written
-- over the kept file, the tool only ever programs EDIDs that pass the check.
pub handle_all-IsSafe :
    (template : List ℕ) (es : List EdidEvent) (d : EdidDevice)
    → IsSafe d
    → IsSafe (handle_all template es d)
unfolding handle_all
handle_all-IsSafe template [] d safe = safe
handle_all-IsSafe template (e ∷ es) d safe =
    handle_all-IsSafe template es (handle template e d) (λ bytes h.
      elim (handle-Programs template e d) [
        | inl same ↦ safe bytes (sym same ∙ h)
        | inr (bs, now, valid) ↦ let one : bs ≡ bytes = ground (arith, now, h) in rw (← one) valid
      ])

abbrev works : EdidIo → Bool
works io = io.tool_exists && io.tmp_written && io.tool_executed && io.tool_succeeded

write_edid_via_tool-works :
    (io : EdidIo) (bytes : List ℕ) (d : EdidDevice)
    → (write_edid_via_tool io bytes d).1 ≡ ok tt
    → works io ≡ true
unfolding write_edid_via_tool
write_edid_via_tool-works io bytes d e = ground arith

works-write_edid_via_tool :
    (io : EdidIo) (bytes : List ℕ) (d : EdidDevice)
    → works io ≡ true
    → write_edid_via_tool io bytes d ≡ (record d { programmed = some bytes }, ok tt)
unfolding write_edid_via_tool
works-write_edid_via_tool io bytes d e = ground arith

finish_set-ok :
    (keep : EdidDevice → EdidDevice) (prefix : String) (r : EdidDevice × Result {0, 0} String Unit)
    → (finish_set api_ok_empty keep prefix r).1 ≡ api_ok_empty
    → r.1 ≡ ok tt
finish_set-ok keep prefix (x, ok u) e = refl
finish_set-ok keep prefix (x, err y) e = absurd (ground arith)

set_valid-kept :
    (io : EdidIo) (bytes : List ℕ) (d : EdidDevice) (r : Result {0, 0} String Unit)
    → (set_valid io bytes d r).1 ≡ api_ok_empty
    → io.custom_written && io.custom_renamed ≡ true
    → (r ≡ ok tt)
      × ((set_valid io bytes d r).0 ≡ record { programmed = some bytes; custom_file = some bytes })
set_valid-kept io bytes d (err e) answered kept = absurd (ground arith)
set_valid-kept io bytes d (ok u) answered kept =
    let tool = write_edid_via_tool io bytes d in
    let done = finish_set-ok (save_custom_edid io bytes) "Failed to write EDID: " tool answered in
    (
      refl,
      rw (works-write_edid_via_tool io bytes d (write_edid_via_tool-works io bytes d done), kept)
          refl,
    )

-- An EDID that was set and kept is programmed again at the next start where the tool works, and is
-- the answer where the receiver cannot be read.
pub set_edid_kept :
    (io io' : EdidIo) (bytes : List ℕ) (d : EdidDevice) (reason : String)
    → (set_edid_handler io (some bytes) d).1 ≡ api_ok_empty
    → io.custom_written && io.custom_renamed ≡ true
    → (write_edid_via_tool io' bytes d).1 ≡ ok tt
    → let after = (set_edid_handler io (some bytes) d).0 in
      ((load_and_apply_custom_edid_on_boot io' after).programmed ≡ some bytes)
      × (get_edid_handler (err reason) after ≡ api_ok (record { bytes = bytes; custom = true }))
unfolding set_edid_handler load_and_apply_custom_edid_on_boot get_edid_handler
set_edid_kept io io' bytes d reason answered kept works_again =
    let (valid, state) = set_valid-kept io bytes d (validate_edid bytes) answered kept in
    let after : EdidDevice = record { programmed = some bytes; custom_file = some bytes } in
    let file : persisted after ≡ some bytes =
      rw ((validate_edid-tests bytes valid).0, valid, is_valid) refl in
    let tool =
      works-write_edid_via_tool io' bytes after
        (write_edid_via_tool-works io' bytes d works_again) in
    let boots =
      ap (λ o. (apply_persisted io' after o).programmed) file
      ∙ ap (λ (r : EdidDevice × Result {0, 0} String Unit). r.0.programmed) tool in
    rw state (boots, ap (persisted_answer reason) file)
