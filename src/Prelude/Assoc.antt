-- ===== src/Prelude/Assoc.antt =====
-- `HashMap<String, V>` as an association list with distinct keys. Iteration order is not modelled.
use Prim.Native.Nat.{◌+◌, ◌≤◌}
use Prim.Native.String.{String}
use mathlib.Core.Path.{◌≡◌, refl}
use mathlib.Core.Bool.{Bool}
use mathlib.Core.Option.{Option, none, some}
use mathlib.Core.List.{List, [], ◌∷◌}
use native.Mathlib.Omega.{arith}
use text.Mathlib.Text.{◌==◌}
use text.Mathlib.TextEquality.{eq_iff}
use text.Mathlib.TextPositions.{eq_refl}
use rustykvm.Prelude.Tests.{if◌then◌else◌}
use rustykvm.Prelude.Lists.{length}

abbrev pub Assoc {ℓ} : Type ℓ → Type ℓ
Assoc V = List (String × V)

-- A value kept only if it passes the test.
abbrev pub filter {ℓ} : {V : Type ℓ} → (V → Bool) → Option V → Option V
filter p none = none
filter p (some v) = if p v then some v else none

module _ {ℓ} {V : Type ℓ} where
  -- get
  abbrev pub lookup : String → Assoc V → Option V
  lookup k [] = none
  lookup k ((j, v) ∷ m) = if j == k then some v else lookup k m

  -- entry(k) written with v
  abbrev pub insert : String → V → Assoc V → Assoc V
  insert k v [] = (k, v) ∷ []
  insert k v ((j, w) ∷ m) = if j == k then (k, v) ∷ m else (j, w) ∷ insert k v m

  abbrev pub remove : String → Assoc V → Assoc V
  remove k [] = []
  remove k ((j, w) ∷ m) = let rest = remove k m in if j == k then rest else (j, w) ∷ rest

  -- retain(|_, v| p(v))
  abbrev pub retain_values : (V → Bool) → Assoc V → Assoc V
  retain_values p [] = []
  retain_values p ((j, w) ∷ m) = let rest = retain_values p m in if p w then (j, w) ∷ rest else rest

  -- Keys are distinct.
  abbrev pub UniqueKeys : Assoc V → Type ℓ
  UniqueKeys [] = Unit
  UniqueKeys ((k, v) ∷ m) = (lookup k m ≡ none) × UniqueKeys m

module _ {ℓ} {V : Type ℓ} where
  pub lookup-insert :
      (k j : String) (v : V) (m : Assoc V)
      → lookup j (insert k v m) ≡ (if k == j then some v else lookup j m)
  lookup-insert k j v [] = refl
  lookup-insert k j v ((i, w) ∷ m) =
      ground (arith, eq_iff k j, eq_iff i k, eq_iff i j, lookup-insert k j v m)

  pub lookup-insert_self : (k : String) (v : V) (m : Assoc V) → lookup k (insert k v m) ≡ some v
  lookup-insert_self k v m = simp (lookup-insert, eq_refl)

  pub lookup-remove :
      (k j : String) (m : Assoc V) → lookup j (remove k m) ≡ (if k == j then none else lookup j m)
  lookup-remove k j [] = ground arith
  lookup-remove k j ((i, w) ∷ m) =
      ground (arith, eq_iff k j, eq_iff i k, eq_iff i j, lookup-remove k j m)

  lookup-retain_none :
      (p : V → Bool) (j : String) (m : Assoc V)
      → lookup j m ≡ none
      → lookup j (retain_values p m) ≡ none
  lookup-retain_none p j [] h = refl
  lookup-retain_none p j ((i, w) ∷ m) h = ground (arith, lookup-retain_none p j m)

  pub lookup-retain_values :
      (p : V → Bool) (j : String) (m : Assoc V)
      → UniqueKeys m
      → lookup j (retain_values p m) ≡ filter p (lookup j m)
  lookup-retain_values p j [] u = refl
  lookup-retain_values p j ((i, w) ∷ m) (u, us) =
      ground (arith, lookup-retain_values p j m us, eq_iff i j, lookup-retain_none p i m u)

  pub insert-UniqueKeys :
      (k : String) (v : V) (m : Assoc V) → UniqueKeys m → UniqueKeys (insert k v m)
  insert-UniqueKeys k v [] u = (refl, tt)
  insert-UniqueKeys k v ((i, w) ∷ m) (u, us) =
      ground (arith, insert-UniqueKeys k v m us, lookup-insert k i v m, eq_iff i k, eq_iff k i)

  pub remove-UniqueKeys : (k : String) (m : Assoc V) → UniqueKeys m → UniqueKeys (remove k m)
  remove-UniqueKeys k [] u = tt
  remove-UniqueKeys k ((i, w) ∷ m) (u, us) =
      ground (arith, remove-UniqueKeys k m us, lookup-remove k i m)

  pub retain_values-UniqueKeys :
      (p : V → Bool) (m : Assoc V) → UniqueKeys m → UniqueKeys (retain_values p m)
  retain_values-UniqueKeys p [] u = tt
  retain_values-UniqueKeys p ((i, w) ∷ m) (u, us) =
      ground (arith, retain_values-UniqueKeys p m us, lookup-retain_none p i m u)

  pub length-insert-le : (k : String) (v : V) (m : Assoc V) → length (insert k v m) ≤ length m + 1
  length-insert-le k v [] = omega arith
  length-insert-le k v ((i, w) ∷ m) = ground (arith, length-insert-le k v m)

  pub length-remove-le : (k : String) (m : Assoc V) → length (remove k m) ≤ length m
  length-remove-le k [] = omega arith
  length-remove-le k ((i, w) ∷ m) = ground (arith, length-remove-le k m)

  pub length-retain_values-le : (p : V → Bool) (m : Assoc V) → length (retain_values p m) ≤ length m
  length-retain_values-le p [] = omega arith
  length-retain_values-le p ((i, w) ∷ m) = ground (arith, length-retain_values-le p m)

  pub length-insert_of_some :
      (k : String) (v : V) {w : V} (m : Assoc V)
      → lookup k m ≡ some w
      → length (insert k v m) ≡ length m
  length-insert_of_some k v [] h = cc
  length-insert_of_some k v {w} ((i, x) ∷ m) h = ground (arith, length-insert_of_some k v {w = w} m)
