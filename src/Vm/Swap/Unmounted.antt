-- ===== src/Vm/Swap/Unmounted.antt =====
-- Turning the swap file off takes every mention of it out of the inittab.
use rustykvm.Prelude.{
  ◌<◌, ◌≡◌, refl, inl, inr, false, not, some, List, [], ◌∷◌, ◌++◌, arith, ◌==◌, Bool-cases, any,
  retain, All,
}
use rustykvm.Prelude.Int.{pos, int_eq}
use rustykvm.Prelude.Result.{complete}
use rustykvm.Prelude.Text.{Text, lines, has_prefix, contains}
use rustykvm.Vm.Swap.{
  SwapFiles, SwapIo, size_or, join_lines, swap_path, without_swap, disable_inittab_swap,
  set_swap_handler,
}

-- A pattern without line feeds.
abbrev pub IsLine : Text → Type 0
IsLine pattern = any (λ c. c == 10) pattern ≡ false

has_prefix-line :
    (pattern l rest : Text)
    → IsLine pattern
    → has_prefix pattern (l ++ (10 ∷ rest)) ≡ has_prefix pattern l
unfolding has_prefix
has_prefix-line [] l rest h = refl
has_prefix-line (p ∷ pattern) [] rest h = ground (arith, h)
has_prefix-line (p ∷ pattern) (c ∷ l) rest h =
    rw (has_prefix-line pattern l rest (ground (arith, h))) refl

contains-line :
    (pattern l rest : Text)
    → IsLine pattern
    → contains pattern l ≡ false
    → contains pattern rest ≡ false
    → contains pattern (l ++ (10 ∷ rest)) ≡ false
unfolding contains
contains-line pattern [] rest h k r = rw (has_prefix-line pattern [] rest h) (rw k r)
contains-line pattern (c ∷ l) rest h k r =
    rw (has_prefix-line pattern (c ∷ l) rest h)
      (ground (arith, k, contains-line pattern l rest h (ground (arith, k)) r))

contains-join_lines :
    (pattern : Text) (ls : List Text)
    → IsLine pattern
    → contains pattern [] ≡ false
    → All (λ l. contains pattern l ≡ false) ls
    → contains pattern (join_lines ls) ≡ false
contains-join_lines pattern [] h e a = e
contains-join_lines pattern (l ∷ []) h e a = a.0
contains-join_lines pattern (l ∷ m ∷ ls) h e a =
    contains-line pattern l (join_lines (m ∷ ls)) h a.0
      (contains-join_lines pattern (m ∷ ls) h e a.1)

retained-free :
    (pattern : Text) (ls : List Text)
    → All (λ l. contains pattern l ≡ false) (retain (λ l. not (contains pattern l)) ls)
retained-free pattern [] = tt
retained-free pattern (l ∷ ls) = elim (Bool-cases (contains pattern l)) [
  | inl e ↦ rw e (retained-free pattern ls)
  | inr e ↦ rw e (e, retained-free pattern ls)
]

without_swap-free : (content : Text) → contains swap_path (without_swap content) ≡ false
unfolding contains has_prefix
without_swap-free content =
    contains-join_lines swap_path _ refl refl (retained-free swap_path (lines content))

-- A request for size 0 where there is a swap file of a megabyte or more, and the inittab is read and
-- written: nothing in it mentions the swap file after that.
pub swap_off-free :
    (io : SwapIo) (f : SwapFiles) (content : Text)
    → f.inittab ≡ some content
    → io.rewritten ≡ complete
    → 0 < size_or f.swap_file
    → (set_swap_handler io (pos 0) f).1.inittab ≡ some (without_swap content)
      × (contains swap_path (without_swap content) ≡ false)
unfolding set_swap_handler disable_inittab_swap
swap_off-free io f content h w l =
    let changed : int_eq (pos 0) (pos (size_or f.swap_file)) ≡ false = ground (arith, l) in
    (rw changed (rw h (rw w refl)), without_swap-free content)
