-- ===== src/Vm/Swap.antt =====
-- server/src/vm.rs: the swap file and its line in the inittab. What the shell does is a parameter.
pub mod Unmounted
use rustykvm.Prelude.{
  ℕ, zero, suc, ◌+◌, ◌-◌, ◌*◌, ◌/◌, ◌%◌, ◌^◌, ◌≤◌, ◌<◌, min, String, ◌≡◌, refl, sym, ap, ◌∙◌, ◌≢◌,
  ◌↔◌, ◌⊎◌, inl, inr, Bool, true, false, not, ◌&&◌, ◌||◌, Option, none, some, List, [], ◌∷◌, ◌++◌,
  map, arith, eq_iff, str_eq, ltb, leb, ◌==◌, if◌then◌else◌, ltb→lt, lt→ltb, ltb_of_le, leb→le,
  ==_iff, tests, Bool-cases, Option-cases, is_some_and, length, get_elem?, get_elem?-of_lt, get_or,
  take, drop, replicate, any, all, retain, All, sum, sum-append, list_eq, list_eq→eq, list_eq_refl,
  length-append, length-take, length-drop, take-append-drop, length-retain-le,
}
use rustykvm.Prelude.Int.{ℤ, pos, int_eq}
use rustykvm.Prelude.Result.{FileWrite, written_file}
use rustykvm.Prelude.Text.{Text, codes, lines, contains}
use rustykvm.Api.{ApiResponse, api_ok, api_ok_empty}

-- The swap file's bytes, none without it, and the inittab, none where it cannot be read.
pub record SwapFiles : Type 0 where
  pub swap_file : Option ℕ
  pub inittab : Option Text

-- What the removing command leaves, what the allocating one does, by whether it succeeds, and the
-- two writes of the inittab.
pub record SwapIo : Type 0 where
  pub removed : Option ℕ → Option ℕ
  pub is_allocated : Bool
  pub allocated : Option ℕ → Option ℕ
  pub appended : FileWrite Text
  pub rewritten : FileWrite Text

abbrev pub size_or : Option ℕ → ℕ
size_or none = 0
size_or (some bytes) = bytes / 1024 / 1024

-- `join("\n")`
abbrev pub join_lines : List Text → Text
join_lines [] = []
join_lines (l ∷ []) = l
join_lines (l ∷ m ∷ ls) = l ++ (10 ∷ join_lines (m ∷ ls))

abbrev pub swap_path : Text
swap_path = codes "/swapfile"

unfoldable pub enable_inittab_swap : SwapIo → SwapFiles → SwapFiles
enable_inittab_swap io f = elim f.inittab [
  | none ↦ f
  | some content ↦ record {
    swap_file = f.swap_file;
    inittab = written_file io.appended (content ++ codes "\nsi11::sysinit:/sbin/swapon /swapfile");
  }
]

abbrev pub without_swap : Text → Text
without_swap content = join_lines (retain (λ line. not (contains swap_path line)) (lines content))

unfoldable pub disable_inittab_swap : SwapIo → SwapFiles → SwapFiles
unfolding lines contains
disable_inittab_swap io f = elim f.inittab [
  | none ↦ f
  | some content ↦ record {
    swap_file = f.swap_file;
    inittab = written_file io.rewritten (without_swap content);
  }
]

abbrev pub with_swap_file : Option ℕ → SwapFiles → SwapFiles
with_swap_file size f = record { swap_file = size; inittab = f.inittab }

abbrev pub allocate : SwapIo → SwapFiles → SwapFiles
allocate io f =
    let g = with_swap_file (io.allocated f.swap_file) f in
    if io.is_allocated then enable_inittab_swap io g else g

unfoldable pub get_swap_handler : SwapFiles → ApiResponse {0} ℕ
get_swap_handler f = api_ok (size_or f.swap_file)

unfoldable pub set_swap_handler : SwapIo → ℤ → SwapFiles → ApiResponse {0} Unit × SwapFiles
unfolding enable_inittab_swap disable_inittab_swap
set_swap_handler io size f =
    let current_size = size_or f.swap_file in
    let dropped = with_swap_file (io.removed f.swap_file) f in
    (
      api_ok_empty,
      if int_eq size (pos current_size)
          then f
          else if int_eq size (pos 0)
          then disable_inittab_swap io dropped
          else allocate io (if ltb 0 current_size then dropped else f),
    )
