-- ===== src/Vm/Hostname/Applied.antt =====
-- What a request leaves in the files.
use rustykvm.Prelude.{
  ℕ, ◌≡◌, refl, ap, inl, inr, Bool, true, false, ◌||◌, some, [], ◌∷◌, arith, ltb, Bool-cases, all,
  All,
}
use rustykvm.Prelude.{both_true}
use rustykvm.Prelude.Result.{complete}
use rustykvm.Prelude.Text.{Text, trim, is_whitespace, has_prefix}
use rustykvm.Prelude.Trim.{IsVisible, trim_visible}
use rustykvm.Api.{api_ok}
use rustykvm.Vm.Scripts.{is_alphanumeric, is_empty, ends_with}
use rustykvm.Vm.Hostname.{
  byte_length, is_host_char, validate_hostname, HostFiles, HostIo, set_hostname_handler,
  get_hostname_handler,
}

-- No character of the tables is white space.
abbrev pub AreVisible : (ℕ → Bool) → Type 0
AreVisible alphabet = (c : ℕ) → alphabet c ≡ true → is_whitespace c ≡ false

host_char-IsVisible :
    (alphabet : ℕ → Bool) (c : ℕ)
    → AreVisible alphabet
    → is_host_char alphabet c ≡ true
    → is_whitespace c ≡ false
unfolding is_alphanumeric is_whitespace
host_char-IsVisible alphabet c v h = elim (Bool-cases (alphabet c)) [
  | inl e ↦ v c e
  | inr e ↦ ground (arith, e, h)
]

host_chars-AreVisible :
    (alphabet : ℕ → Bool) (s : Text)
    → AreVisible alphabet
    → all (is_host_char alphabet) s ≡ true
    → All IsVisible s
host_chars-AreVisible alphabet [] v h = tt
host_chars-AreVisible alphabet (c ∷ s) v h =
    let both = both_true (is_host_char alphabet c) (all (is_host_char alphabet) s) h in
    (host_char-IsVisible alphabet c v both.0, host_chars-AreVisible alphabet s v both.1)

valid-characters :
    (alphabet : ℕ → Bool) (s : Text)
    → validate_hostname alphabet s ≡ true
    → all (is_host_char alphabet) s ≡ true
unfolding validate_hostname
valid-characters alphabet s h = elim (Bool-cases (is_empty s || ltb 63 (byte_length s))) [
  | inl e ↦ absurd (ground (arith, e, h))
  | inr e ↦ elim (Bool-cases (has_prefix (b'.' ∷ []) s || ends_with (b'.' ∷ []) s)) [
    | inl k ↦ absurd (ground (arith, e, k, h))
    | inr k ↦ ground (arith, e, k, h)
  ]
]

abbrev pub all_done : HostIo
all_done = record { hosts = complete; etc = complete; boot = complete; is_set = true }

-- After an accepted request whose writes all take place, the name that is read back, the one for the next
-- start and the system's are the requested one without the white space around it.
pub accepted_hostname :
    (alphabet : ℕ → Bool) (requested : Text) (f : HostFiles)
    → AreVisible alphabet
    → validate_hostname alphabet (trim requested) ≡ true
    → (get_hostname_handler (set_hostname_handler alphabet all_done requested f).1
        ≡ api_ok (trim requested))
      × ((set_hostname_handler alphabet all_done requested f).1.boot_hostname
          ≡ some (trim requested))
      × ((set_hostname_handler alphabet all_done requested f).1.system_name ≡ trim requested)
unfolding get_hostname_handler set_hostname_handler
accepted_hostname alphabet requested f v h = (
  rw h (
      ap api_ok (
        trim_visible (trim requested) (
          host_chars-AreVisible alphabet (trim requested) v
            (valid-characters alphabet (trim requested) h)))),
  rw h refl,
  rw h refl,
)
