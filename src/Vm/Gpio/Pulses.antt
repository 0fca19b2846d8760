-- ===== src/Vm/Gpio/Pulses.antt =====
-- What a press of a button leaves on the pins.
use rustykvm.Prelude.{
  String, ◌≡◌, refl, inl, inr, false, none, some, arith, eq_iff, str_eq, Option-cases,
}
use rustykvm.Prelude.Result.{ok}
use rustykvm.Prelude.Text.{Text, codes}
use rustykvm.Vm.Gpio.{Pins, write_pin, PulseIo, pulse_gpio}

written_pin :
    (path : String) (content : Text) (pins : Pins) → write_pin path content pins path ≡ some content
written_pin path content pins = rw ((eq_iff path path).1 refl) refl

-- A press that reports success has let go of the button: its pin holds 0.
pub released :
    (io : PulseIo) (path : String) (pins : Pins)
    → (pulse_gpio io path pins).0 ≡ ok tt
    → (pulse_gpio io path pins).1 path ≡ some (codes "0")
unfolding pulse_gpio
released io path pins h = elim (Option-cases io.press) [
  | inl e ↦ elim (Option-cases io.release) [
    | inl k ↦ rw e (rw k (written_pin path (codes "0") (write_pin path (codes "1") pins)))
    | inr (m, k) ↦ absurd (ground (arith, e, k, h))
  ]
  | inr (m, e) ↦ absurd (ground (arith, e, h))
]

-- When only the second write fails, the button stays pressed.
pub stays_pressed :
    (io : PulseIo) (path : String) (pins : Pins) (e : String)
    → io.press ≡ none
    → io.release ≡ some e
    → (pulse_gpio io path pins).1 path ≡ some (codes "1")
unfolding pulse_gpio
stays_pressed io path pins e h k = rw h (rw k (written_pin path (codes "1") pins))

-- No press changes another pin.
pub other_pins :
    (io : PulseIo) (path other : String) (pins : Pins)
    → str_eq other path ≡ false
    → (pulse_gpio io path pins).1 other ≡ pins other
unfolding pulse_gpio
other_pins io path other pins h = elim (Option-cases io.press) [
  | inl e ↦ elim (Option-cases io.release) [
    | inl k ↦ rw e (rw k (rw h refl))
    | inr (m, k) ↦ rw e (rw k (rw h refl))
  ]
  | inr (m, e) ↦ rw e refl
]
