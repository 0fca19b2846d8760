-- ===== src/Vm/Settings/Kept.antt =====
-- What is read back after a request.
use rustykvm.Prelude.{
  ◌≡◌, refl, inl, inr, Bool, true, false, Option, Bool-cases, list_eq, list_eq→eq,
}
use rustykvm.Prelude.Result.{complete}
use rustykvm.Prelude.Text.{Text, codes, trim}
use rustykvm.Api.{api_ok}
use rustykvm.Vm.Scripts.{is_empty}
use rustykvm.Vm.Settings.{
  set_web_title_handler, get_web_title_handler, Hdmi, enable_hdmi_handler, disable_hdmi_handler,
  get_hdmi_state_handler,
}

default_title : trim (codes "NanoKVM") ≡ codes "NanoKVM"
unfolding trim
default_title = refl

-- A title that is not empty is read back without the white space around it, once its file is written, or
-- removed for the default title.
pub get_web_title-set_web_title :
    (title : Text) (file : Option Text)
    → is_empty title ≡ false
    → get_web_title_handler (set_web_title_handler complete true title file).1 ≡ api_ok (trim title)
unfolding get_web_title_handler set_web_title_handler
get_web_title-set_web_title title file h = elim (Bool-cases (list_eq title (codes "NanoKVM"))) [
  | inl e ↦
      let same : title ≡ codes "NanoKVM" = list_eq→eq title (codes "NanoKVM") e in rw same refl
  | inr e ↦ rw h (rw e refl)
]

-- The state that is shown follows the file, whether the library took the switch or not.
pub shown-switched :
    (switched : Bool) (h : Hdmi)
    → (get_hdmi_state_handler
          (enable_hdmi_handler (record { is_switched = switched; is_done = true }) h).1
        ≡ api_ok true)
      × (get_hdmi_state_handler
            (disable_hdmi_handler (record { is_switched = switched; is_done = true }) h).1
          ≡ api_ok false)
unfolding enable_hdmi_handler disable_hdmi_handler get_hdmi_state_handler
shown-switched switched h = (refl, refl)
