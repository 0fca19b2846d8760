-- ===== src/Network/Wol/Format.antt =====
-- The list that is read from the file is the one that was written.
use rustykvm.Prelude.{
  ◌≡◌, refl, sym, ap, ◌∙◌, false, Option, none, some, List, [], ◌∷◌, ◌++◌, arith, All,
}
use rustykvm.Prelude.{append_assoc}
use rustykvm.Prelude.Result.{ok}
use rustykvm.Prelude.Text.{Text, lines}
use rustykvm.Network.Error.{written}
use rustykvm.Network.Wol.{
  WolEntry, WolIo, or_empty, is_empty, push_entry, entries_of, get_wol_macs, line_of, print_entries,
  save_all_macs,
}
use rustykvm.Network.Wol.Lines.{
  IsLineChar, IsMacChar, MacChars-LineChars, All-append, lines-line, splitn-mac, splitn-line,
}

-- An address without white space or line ends, and a name without line ends.
abbrev pub IsClean : WolEntry → Type 0
IsClean e = (is_empty e.mac ≡ false) × All IsMacChar e.mac × All IsLineChar e.name

push_entry_kept :
    (mac : Text) (rest : Option Text) (entries : List WolEntry)
    → is_empty mac ≡ false
    → push_entry (mac, rest) entries ≡ record { mac = mac; name = or_empty rest } ∷ entries
push_entry_kept [] rest entries h = cc
push_entry_kept (c ∷ mac) rest entries h = refl

pub entries-line_of :
    (mac name s : Text)
    → is_empty mac ≡ false
    → All IsMacChar mac
    → All IsLineChar name
    → entries_of (lines (line_of mac name ++ s))
      ≡ record { mac = mac; name = name } ∷ entries_of (lines s)
unfolding line_of entries_of
entries-line_of mac [] s h m n =
    rw (lines-line mac s (MacChars-LineChars mac m), splitn-mac mac m)
      (push_entry_kept mac none (entries_of (lines s)) h)
entries-line_of mac (c ∷ name) s h m n =
    rw
      (
        sym (append_assoc mac (b' ' ∷ c ∷ name) (10 ∷ [])),
        lines-line (mac ++ (b' ' ∷ c ∷ name)) s (
            All-append IsLineChar mac (b' ' ∷ c ∷ name) (MacChars-LineChars mac m)
              (((omega arith), (omega arith)), n)),
        splitn-line mac (c ∷ name) m,
      )
      (push_entry_kept mac (some (c ∷ name)) (entries_of (lines s)) h)

pub entries-print :
    (entries : List WolEntry)
    → All IsClean entries
    → entries_of (lines (print_entries entries)) ≡ entries
unfolding print_entries lines entries_of
entries-print [] h = refl
entries-print (e ∷ entries) ((a, b, c), h) =
    entries-line_of e.mac e.name (print_entries entries) a b c
    ∙ ap (λ r. e ∷ r) (entries-print entries h)

-- What save_all_macs writes without an error is what get_wol_macs then reads, for addresses that are not
-- empty and have no space or line end, and names without line ends.
pub get_wol_macs-save_all_macs :
    (o : WolIo) (entries : List WolEntry)
    → o.read ≡ none
    → o.write ≡ written
    → All IsClean entries
    → get_wol_macs o (save_all_macs o entries).1 ≡ ok entries
unfolding get_wol_macs save_all_macs
get_wol_macs-save_all_macs o entries r w h = rw (w, r, entries-print entries h)
