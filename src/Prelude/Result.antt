-- ===== src/Prelude/Result.antt =====
-- Rust's `Result` with the error first, and `?` as `>>=`.
use mathlib.Core.Path.{◌≡◌, refl}
use mathlib.Core.Bool.{Bool, true, false}
use mathlib.Core.Option.{Option, some}

pub data Result {ℓ κ} (E : Type κ) (A : Type ℓ) : Type (ℓ ⊔ κ) where
  ok : A → Result E A
  err : E → Result E A

abbrev pub is_ok {ℓ κ} : {E : Type κ} {A : Type ℓ} → Result E A → Bool
is_ok (err e) = false
is_ok (ok a) = true

abbrev pub map_err {ℓ κ μ} :
    {E : Type μ} {F : Type κ} {A : Type ℓ} → (E → F) → Result E A → Result F A
map_err f (err e) = err (f e)
map_err f (ok a) = ok a

-- `r?` before the rest of the function.
infixl 5 ◌>>=◌
abbrev pub ◌>>=◌ {ℓ κ μ} :
    {E : Type μ} {A : Type ℓ} {B : Type κ} → Result E A → (A → Result E B) → Result E B
◌>>=◌ (err e) rest = err e
◌>>=◌ (ok a) rest = rest a

-- The outcome of `fs::write`, which empties the file before it writes: after one that fails, a later read
-- finds what is `left`, none where that does not load.
pub data FileWrite {ℓ} (A : Type ℓ) : Type ℓ where
  complete : FileWrite A
  broken : (left : Option A) → FileWrite A

abbrev pub is_complete {ℓ} : {A : Type ℓ} → FileWrite A → Bool
is_complete complete = true
is_complete (broken left) = false

-- The file after the write of `content`.
abbrev pub written_file {ℓ} : {A : Type ℓ} → FileWrite A → A → Option A
written_file complete content = some content
written_file (broken left) content = left

pub written_file-is_complete {ℓ} :
    {A : Type ℓ} (w : FileWrite A) (content : A)
    → is_complete w ≡ true
    → written_file w content ≡ some content
written_file-is_complete complete content h = refl
written_file-is_complete (broken left) content h = cc
