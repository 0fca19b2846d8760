-- ===== src/Vm/Gpio.antt =====
-- vm/src/lib.rs, vm/src/gpio.rs and server/src/vm.rs: the pins behind the host's buttons and lights. A pin
-- is the text of its file.
pub mod Pulses
use rustykvm.Prelude.{
  ℕ, zero, suc, ◌+◌, ◌-◌, ◌*◌, ◌/◌, ◌%◌, ◌^◌, ◌≤◌, ◌<◌, min, String, ◌≡◌, refl, sym, ap, ◌∙◌, ◌≢◌,
  ◌↔◌, ◌⊎◌, inl, inr, Bool, true, false, not, ◌&&◌, ◌||◌, Option, none, some, List, [], ◌∷◌, ◌++◌,
  map, arith, eq_iff, str_eq, ltb, leb, ◌==◌, if◌then◌else◌, ltb→lt, lt→ltb, ltb_of_le, leb→le,
  ==_iff, tests, Bool-cases, Option-cases, is_some_and, length, get_elem?, get_elem?-of_lt, get_or,
  take, drop, replicate, any, all, retain, All, sum, sum-append, list_eq, list_eq→eq, list_eq_refl,
  length-append, length-take, length-drop, take-append-drop, length-retain-le,
}
use rustykvm.Prelude.Int.{negsuc}
use rustykvm.Prelude.{str_append}
use rustykvm.Prelude.Result.{Result, ok, err}
use rustykvm.Prelude.Text.{Text, codes, trim}
use rustykvm.Api.{ApiResponse, api_ok, api_ok_empty, api_err}

pub data HardwareVersion : Type 0 where
  alpha : HardwareVersion
  beta : HardwareVersion
  pcie : HardwareVersion

-- The file may be missing.
unfoldable pub detect : Option Text → HardwareVersion
unfolding trim
detect none = alpha
detect (some content) =
    if list_eq (trim content) (codes "alpha")
    then alpha
    else if list_eq (trim content) (codes "beta")
    then beta
    else if list_eq (trim content) (codes "pcie")
    then pcie
    else alpha

pub record HardwareConfig : Type 0 where
  pub version : HardwareVersion
  pub gpio_reset : String
  pub gpio_power : String
  pub gpio_power_led : String
  pub gpio_hdd_led : Option String

abbrev pub hardware_config : HardwareVersion → HardwareConfig
hardware_config alpha = record {
  version = alpha;
  gpio_reset = "/sys/class/gpio/gpio507/value";
  gpio_power = "/sys/class/gpio/gpio503/value";
  gpio_power_led = "/sys/class/gpio/gpio504/value";
  gpio_hdd_led = some "/sys/class/gpio/gpio505/value";
}
hardware_config beta = record {
  version = beta;
  gpio_reset = "/sys/class/gpio/gpio505/value";
  gpio_power = "/sys/class/gpio/gpio503/value";
  gpio_power_led = "/sys/class/gpio/gpio504/value";
  gpio_hdd_led = none;
}
hardware_config pcie = record {
  version = pcie;
  gpio_reset = "/sys/class/gpio/gpio505/value";
  gpio_power = "/sys/class/gpio/gpio503/value";
  gpio_power_led = "/sys/class/gpio/gpio504/value";
  gpio_hdd_led = none;
}

-- A pin's file by its path; none where reading it fails.
abbrev pub Pins : Type 0
Pins = String → Option Text

abbrev pub write_pin : String → Text → Pins → Pins
write_pin path content pins other = if str_eq other path then some content else pins other

-- The outcomes of the two writes, none for success; one that fails leaves the pin.
pub record PulseIo : Type 0 where
  pub press : Option String
  pub release : Option String

-- The wait between the writes is not modelled.
unfoldable pub pulse_gpio : PulseIo → String → Pins → Result {0, 0} String Unit × Pins
pulse_gpio io path pins = elim io.press [
  | some e ↦ (err e, pins)
  | none ↦ elim io.release [
    | some e ↦ (err e, write_pin path (codes "1") pins)
    | none ↦ (ok tt, write_pin path (codes "0") (write_pin path (codes "1") pins))
  ]
]

-- Lights are active low.
unfoldable pub read_gpio : Pins → String → Result {0, 0} Unit Bool
unfolding trim
read_gpio pins path = elim (pins path) [
  | none ↦ err tt
  | some content ↦ ok (list_eq (trim content) (codes "0"))
]

abbrev pub get_power_led : HardwareConfig → Pins → Result {0, 0} Unit Bool
get_power_led config pins = read_gpio pins config.gpio_power_led

abbrev pub get_hdd_led : HardwareConfig → Pins → Result {0, 0} Unit Bool
get_hdd_led config pins = elim config.gpio_hdd_led [
  | none ↦ ok false
  | some path ↦ read_gpio pins path
]

abbrev pub answered : Result {0, 0} String Unit × Pins → ApiResponse {0} Unit × Pins
answered (ok u, pins) = (api_ok_empty, pins)
answered (err e, pins) = (api_err (negsuc 0) (str_append "gpio error: IO Error: " e), pins)

unfoldable pub set_gpio_handler :
    HardwareConfig → PulseIo → String → Pins → ApiResponse {0} Unit × Pins
unfolding pulse_gpio
set_gpio_handler config io gpio_type pins =
    if str_eq gpio_type "power"
    then answered (pulse_gpio io config.gpio_power pins)
    else if str_eq gpio_type "reset"
    then answered (pulse_gpio io config.gpio_reset pins)
    else (api_err (negsuc 0) "invalid gpio type", pins)

-- `unwrap_or(false)`
abbrev pub or_off : Result {0, 0} Unit Bool → Bool
or_off (ok b) = b
or_off (err e) = false

-- The two lights.
unfoldable pub get_gpio_handler : HardwareConfig → Pins → ApiResponse {0} (Bool × Bool)
unfolding read_gpio
get_gpio_handler config pins =
    api_ok (or_off (get_power_led config pins), or_off (get_hdd_led config pins))
