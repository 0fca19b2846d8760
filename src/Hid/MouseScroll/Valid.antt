-- ===== src/Hid/MouseScroll/Valid.antt =====
-- The profile is always one that clients can use.
use rustykvm.Prelude.{
  ◌≤◌, String, ◌≡◌, refl, ap, ◌⊎◌, inl, inr, Bool, true, Option, none, some, List, [], ◌∷◌, arith,
  ==_iff, Bool-cases,
}
use rustykvm.Prelude.Int.{ℤ, pos, negsuc, int_eq}
use rustykvm.Prelude.Result.{Result, ok, err}
use rustykvm.Prelude.Text.{Text, trim}
use rustykvm.Hid.MouseScroll.{
  MouseScrollConfig, default, MouseScrollStoreFile, ScrollLibrary, MouseScrollStore, validate,
  taken, stored_or, is_blank, load_from_disk, new, apply_checked, set, set_mouse_scroll_handler,
}

-- The direction is 1 or -1, and the interval at most 2000 milliseconds.
abbrev pub IsValid : MouseScrollConfig → Type 0
IsValid cfg = ((cfg.direction ≡ pos 1) ⊎ (cfg.direction ≡ negsuc 0)) × (cfg.interval ≤ 2000)

int_eq→eq : (a b : ℤ) → int_eq a b ≡ true → a ≡ b
int_eq→eq (pos m) (pos n) h = ap (λ k. pos k) ((==_iff m n).0 h)
int_eq→eq (pos m) (negsuc n) h = cc
int_eq→eq (negsuc m) (pos n) h = cc
int_eq→eq (negsuc m) (negsuc n) h = ap (λ k. negsuc k) ((==_iff m n).0 h)

validate-IsValid : (cfg : MouseScrollConfig) → validate cfg ≡ ok tt → IsValid cfg
unfolding validate
validate-IsValid cfg h = elim (Bool-cases (int_eq cfg.direction (pos 1))) [
  | inl e ↦ (inl (int_eq→eq cfg.direction (pos 1) e), ground (arith, e, h))
  | inr e ↦ elim (Bool-cases (int_eq cfg.direction (negsuc 0))) [
    | inl k ↦ (inr (int_eq→eq cfg.direction (negsuc 0) k), ground (arith, e, k, h))
    | inr k ↦ absurd (ground (arith, e, k, h))
  ]
]

default-IsValid : IsValid default
default-IsValid = (inr refl, omega arith)

taken-IsValid :
    (old cfg : MouseScrollConfig) (r : Result {0, 0} String Unit)
    → validate cfg ≡ r
    → IsValid old
    → IsValid (taken old cfg r)
taken-IsValid old cfg (ok u) e h = validate-IsValid cfg e
taken-IsValid old cfg (err m) e h = h

stored-IsValid :
    (old : MouseScrollConfig) (bare : Option MouseScrollConfig)
    (stored : Option MouseScrollStoreFile)
    → IsValid old
    → IsValid (stored_or old bare stored)
stored-IsValid old none none h = h
stored-IsValid old (some cfg) none h = taken-IsValid old cfg (validate cfg) refl h
stored-IsValid old bare (some stored) h =
    taken-IsValid old stored.config (validate stored.config) refl h

new-IsValid : (lib : ScrollLibrary) (file : Option Text) → IsValid (new lib file).config
unfolding new load_from_disk
new-IsValid lib none = default-IsValid
new-IsValid lib (some content) = elim (Bool-cases (is_blank (trim content))) [
  | inl e ↦ rw e default-IsValid
  | inr e ↦
      rw e
        (stored-IsValid default (lib.from_bare_str content) (lib.from_str content) default-IsValid)
]

applied-IsValid :
    (lib : ScrollLibrary) (is_written : Bool) (cfg : MouseScrollConfig) (s : MouseScrollStore)
    (r : Result {0, 0} String Unit)
    → validate cfg ≡ r
    → IsValid s.config
    → IsValid (apply_checked lib is_written cfg s r).1.config
applied-IsValid lib is_written cfg s (ok u) e h = validate-IsValid cfg e
applied-IsValid lib is_written cfg s (err m) e h = h

-- Any run of requests.
abbrev pub set_all :
    ScrollLibrary → List (Bool × MouseScrollConfig) → MouseScrollStore → MouseScrollStore
set_all lib [] s = s
set_all lib ((is_written, cfg) ∷ requests) s =
    set_all lib requests (set_mouse_scroll_handler lib is_written cfg s).1

run-IsValid :
    (lib : ScrollLibrary) (requests : List (Bool × MouseScrollConfig)) (s : MouseScrollStore)
    → IsValid s.config
    → IsValid (set_all lib requests s).config
unfolding set_mouse_scroll_handler set
run-IsValid lib [] s h = h
run-IsValid lib ((is_written, cfg) ∷ requests) s h =
    run-IsValid lib requests (set_mouse_scroll_handler lib is_written cfg s).1
      (applied-IsValid lib is_written cfg s (validate cfg) refl h)

-- From a start on any file, after any requests and whatever is written of them, the profile in memory is
-- valid: its direction is 1 or -1, and its interval at most 2000.
pub set_all-new-IsValid :
    (lib : ScrollLibrary) (file : Option Text) (requests : List (Bool × MouseScrollConfig))
    → IsValid (set_all lib requests (new lib file)).config
set_all-new-IsValid lib file requests =
    run-IsValid lib requests (new lib file) (new-IsValid lib file)
