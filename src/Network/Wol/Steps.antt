-- ===== src/Network/Wol/Steps.antt =====
-- Each operation on the file keeps what its entries are.
use rustykvm.Prelude.{
  ℕ, String, ◌≡◌, refl, sym, ap, ◌∙◌, inl, inr, Bool, false, not, Option, none, some, List, [], ◌∷◌,
  ◌++◌, arith, ◌==◌, ==_iff, Bool-cases, length, any, retain, All, list_eq, length-retain-le,
}
use rustykvm.Prelude.{append_assoc, append-nil}
use rustykvm.Prelude.Result.{Result, ok}
use rustykvm.Prelude.Text.{Text, codes, lines}
use rustykvm.Network.Error.{NetworkError, written}
use rustykvm.Network.Mac.{is_hex, sanitize_name}
use rustykvm.Network.Mac.Canonical.{IsMacDigit}
use rustykvm.Network.Wol.{
  WolEntry, WolFile, WolIo, is_empty, entries_of, get_wol_macs, line_of, print_entries,
  save_all_macs, rename_first, set_wol_mac_name, without_mac, delete_wol_mac, append_line, save_mac,
  save_renamed,
}
use rustykvm.Network.Wol.Lines.{IsLineChar, IsMacChar, All-append}
use rustykvm.Network.Wol.Format.{IsClean, entries-print}
use rustykvm.Network.Wol.Abstract.{Represents, add_entry, renamed_or}

-- Every outcome is good: nothing fails to be read or written.
abbrev pub IsWorking : WolIo → Type 0
IsWorking o = (o.read ≡ none) × (o.create_dir ≡ none) × (o.write ≡ written)

pub get_represented :
    (o : WolIo) (file : WolFile) (entries : List WolEntry)
    → o.read ≡ none
    → Represents file entries
    → get_wol_macs o file ≡ ok entries
unfolding get_wol_macs entries_of lines
get_represented o none entries r (p, c) =
    ap (λ l. ok l) (ap (λ t. entries_of (lines t)) p ∙ entries-print entries c)
get_represented o (some t) entries r (p, c) = rw (r, p, entries-print entries c)

retain-All {ℓ κ} :
    {A : Type ℓ} (P : A → Type κ) (p : A → Bool) (xs : List A) → All P xs → All P (retain p xs)
retain-All P p [] h = tt
retain-All P p (x ∷ xs) (a, h) = elim (Bool-cases (p x)) [
  | inl e ↦ rw e (a, retain-All P p xs h)
  | inr e ↦ rw e (retain-All P p xs h)
]

-- Nothing is dropped if the length is kept.
retain_whole {ℓ} :
    {A : Type ℓ} (p : A → Bool) (xs : List A) → length (retain p xs) ≡ length xs → retain p xs ≡ xs
retain_whole p [] h = refl
retain_whole p (x ∷ xs) h = ground (arith, retain_whole p xs, length-retain-le p xs)

AreClean : Option (List WolEntry) → Type 0
AreClean none = Unit
AreClean (some entries) = All IsClean entries

after-AreClean :
    (e : WolEntry) (o : Option (List WolEntry))
    → IsClean e
    → AreClean o
    → AreClean (elim o [ none ↦ none | some renamed ↦ some (e ∷ renamed) ])
unfolding AreClean
after-AreClean e none c h = tt
after-AreClean e (some renamed) c h = (c, h)

rename_first-AreClean :
    (mac name : Text) (entries : List WolEntry)
    → All IsLineChar name
    → All IsClean entries
    → AreClean (rename_first mac name entries)
unfolding rename_first AreClean
rename_first-AreClean mac name [] n h = tt
rename_first-AreClean mac name (e ∷ entries) n ((a, b, c), h) =
    elim (Bool-cases (list_eq e.mac mac)) [
      | inl q ↦ rw q ((a, b, n), h)
      | inr q ↦ rw q (
          after-AreClean e (rename_first mac name entries) (a, b, c)
            (rename_first-AreClean mac name entries n h))
    ]

pub MacDigits-MacChars : (t : Text) → All IsMacDigit t → All IsMacChar t
unfolding is_hex
MacDigits-MacChars [] h = tt
MacDigits-MacChars (c ∷ t) (inl d, h) =
    ((ground arith, (ground arith, ground arith)), MacDigits-MacChars t h)
MacDigits-MacChars (c ∷ t) (inr d, h) =
    ((ground arith, (ground arith, ground arith)), MacDigits-MacChars t h)

pub long_not_empty : (t : Text) → length t ≡ 17 → is_empty t ≡ false
long_not_empty [] h = absurd (omega arith)
long_not_empty (c ∷ t) h = refl

print-append :
    (xs ys : List WolEntry) → print_entries (xs ++ ys) ≡ print_entries xs ++ print_entries ys
unfolding print_entries
print-append [] ys = refl
print-append (x ∷ xs) ys =
    rw (print-append xs ys)
      (sym (append_assoc (line_of x.mac x.name) (print_entries xs) (print_entries ys)))

-- One step: the answers are the same, and the new file represents the new list.
abbrev pub Agree :
    Result {0, 0} NetworkError Unit × WolFile
    → Result {0, 0} NetworkError Unit × List WolEntry
    → Type 0
Agree concrete abstract = (concrete.0 ≡ abstract.0) × Represents concrete.1 abstract.1

written-Agree :
    (o : WolIo) (entries : List WolEntry)
    → IsWorking o
    → All IsClean entries
    → Agree (save_all_macs o entries) (ok tt, entries)
unfolding save_all_macs
written-Agree o entries (r, d, w) c = rw w (refl, (refl, c))

renamed-Agree :
    (o : WolIo) (mac : String) (file : WolFile) (entries : List WolEntry)
    (renamed : Option (List WolEntry))
    → IsWorking o
    → Represents file entries
    → AreClean renamed
    → Agree (save_renamed o mac file renamed) (renamed_or mac entries renamed)
unfolding AreClean
renamed-Agree o mac file entries none g h c = (refl, h)
renamed-Agree o mac file entries (some renamed) g h c = written-Agree o renamed g c

pub set_name-Agree :
    (o : WolIo) (mac name : String) (file : WolFile) (entries : List WolEntry)
    → IsWorking o
    → All IsLineChar (codes name)
    → Represents file entries
    → Agree
        (set_wol_mac_name o mac name file)
        (renamed_or mac entries (rename_first (codes mac) (codes name) entries))
unfolding set_wol_mac_name
set_name-Agree o mac name file entries g n h = rw (get_represented o file entries g.0 h) (
    renamed-Agree o mac file entries (rename_first (codes mac) (codes name) entries) g h
      (rename_first-AreClean (codes mac) (codes name) entries n h.1))

pub delete-Agree :
    (o : WolIo) (mac : String) (file : WolFile) (entries : List WolEntry)
    → IsWorking o
    → Represents file entries
    → Agree (delete_wol_mac o mac file) (ok tt, without_mac (codes mac) entries)
unfolding delete_wol_mac
delete-Agree o mac file entries g h =
    let kept = without_mac (codes mac) entries in
    rw (get_represented o file entries g.0 h) (elim (Bool-cases (length kept == length entries)) [
      | inl e ↦ rw e (
          let same : kept ≡ entries =
            retain_whole (λ e. not (list_eq e.mac (codes mac))) entries
              ((==_iff (length kept) (length entries)).0 e) in
          rw same (refl, h))
      | inr e ↦ rw e (
          written-Agree o kept g
            (retain-All IsClean (λ e. not (list_eq e.mac (codes mac))) entries h.1))
    ])

append-Agree :
    (o : WolIo) (is_alphanumeric : ℕ → Bool) (mac : Text) (file : WolFile) (entries : List WolEntry)
    → IsWorking o
    → IsClean (record { mac = mac; name = [] })
    → Represents file entries
    → Agree
        (append_line o is_alphanumeric mac [] file)
        (ok tt, entries ++ (record { mac = mac; name = [] } ∷ []))
unfolding append_line sanitize_name print_entries
append-Agree o is_alphanumeric mac file entries (r, d, w) m (p, c) =
    rw (d, w)
      (
        refl,
        (
          ap (λ t. t ++ line_of mac []) p
              ∙ ap (λ l. print_entries entries ++ l) (sym (append-nil (line_of mac [])))
              ∙ sym (print-append entries (record { mac = mac; name = [] } ∷ [])),
          All-append IsClean entries (record { mac = mac; name = [] } ∷ []) c (m, tt),
        ),
      )

pub save_mac-Agree :
    (o : WolIo) (is_alphanumeric : ℕ → Bool) (mac : Text) (file : WolFile) (entries : List WolEntry)
    → IsWorking o
    → IsClean (record { mac = mac; name = [] })
    → Represents file entries
    → Agree (save_mac o is_alphanumeric mac [] file) (ok tt, add_entry mac entries)
unfolding save_mac
save_mac-Agree o is_alphanumeric mac file entries g m h =
    rw (get_represented o file entries g.0 h)
      (elim (Bool-cases (any (λ e. list_eq e.mac mac) entries)) [
        | inl e ↦ rw e (refl, h)
        | inr e ↦ rw e (append-Agree o is_alphanumeric mac file entries g m h)
      ])
