-- ===== src/Network/Wol/Refinement.antt =====
-- The file of devices keeps a list of entries: an abstract list answers every run the same.
use rustykvm.Prelude.{ℕ, String, ◌≡◌, refl, ap, ◌∙◌, Bool, Option, none, some, List, [], ◌∷◌, All}
use rustykvm.Prelude.Result.{ok, err}
use rustykvm.Prelude.Text.{Text, codes}
use rustykvm.Network.Error.{io, command_failed}
use rustykvm.Network.Mac.{parse_mac_text, or_invalid}
use rustykvm.Network.Mac.Canonical.{parse_mac-IsCanonical}
use rustykvm.Network.Wol.{
  WolEntry, WolFile, WolIo, get_wol_macs, print_entries, save_mac, Command, not_started,
  unsuccessful, success, wake_with, wake_on_lan,
}
use rustykvm.Network.Wol.Abstract.{
  WolOp, wake, set_name, delete, IsCleanOp, Represents, add_entry, add_woken, step_list, step_file,
  run_list, run_file,
}
use rustykvm.Network.Wol.Steps.{
  IsWorking, get_represented, MacDigits-MacChars, long_not_empty, Agree, set_name-Agree,
  delete-Agree, save_mac-Agree,
}

module _ (tables : ℕ → Text) (is_alphanumeric : ℕ → Bool) (ether_wake : Text → Command) where
  wake-Agree :
      (o : WolIo) (mac : String) (parsed : Option Text) (file : WolFile) (entries : List WolEntry)
      → IsWorking o
      → parse_mac_text tables (codes mac) ≡ parsed
      → Represents file entries
      → Agree
          (wake_with o is_alphanumeric ether_wake file (or_invalid mac parsed))
          (add_woken tables is_alphanumeric ether_wake entries (or_invalid mac parsed))
  wake-Agree o mac none file entries g p h = (refl, h)
  wake-Agree o mac (some t) file entries g p h =
      let (l, d, c) = parse_mac-IsCanonical tables (codes mac) t p in
      sent (ether_wake t)
        (save_mac-Agree o is_alphanumeric t file entries g
          (long_not_empty t l, MacDigits-MacChars t d, tt) h).1
    where
      sent :
          (answer : Command)
          → Represents (save_mac o is_alphanumeric t [] file).1 (add_entry t entries)
          → Agree
              (elim answer [
                | not_started e ↦ (err (io e), file)
                | unsuccessful err_msg ↦ (err (command_failed err_msg), file)
                | success ↦ (ok tt, (save_mac o is_alphanumeric t [] file).1)
              ])
              (elim answer [
                | not_started e ↦ (err (io e), entries)
                | unsuccessful err_msg ↦ (err (command_failed err_msg), entries)
                | success ↦ (ok tt, add_entry t entries)
              ])
      sent (not_started e) s = (refl, h)
      sent (unsuccessful err_msg) s = (refl, h)
      sent success s = (refl, s)

  step-Agree :
      (o : WolIo) (op : WolOp) (file : WolFile) (entries : List WolEntry)
      → IsWorking o
      → IsCleanOp op
      → Represents file entries
      → Agree
          (step_file tables is_alphanumeric ether_wake o op file)
          (step_list tables is_alphanumeric ether_wake op entries)
  unfolding wake_on_lan
  step-Agree o (wake mac) file entries g c h =
      wake-Agree o mac (parse_mac_text tables (codes mac)) file entries g refl h
  step-Agree o (set_name mac name) file entries g c h = set_name-Agree o mac name file entries g c h
  step-Agree o (delete mac) file entries g c h = delete-Agree o mac file entries g h

  run-Agree :
      (o : WolIo) (ops : List WolOp) (file : WolFile) (entries : List WolEntry)
      → IsWorking o
      → All IsCleanOp ops
      → Represents file entries
      → ((run_file tables is_alphanumeric ether_wake o ops file).0
          ≡ (run_list tables is_alphanumeric ether_wake ops entries).0)
        × Represents
            (run_file tables is_alphanumeric ether_wake o ops file).1
            (run_list tables is_alphanumeric ether_wake ops entries).1
  run-Agree o [] file entries g c h = (refl, h)
  run-Agree o (op ∷ ops) file entries g (c, cs) h =
      let (a, s) = step-Agree o op file entries g c h in
      let (answers, e) =
        run-Agree o ops (step_file tables is_alphanumeric ether_wake o op file).1
          (step_list tables is_alphanumeric ether_wake op entries).1 g cs s in
      (
        ap
              (λ x.
                x
                ∷ (run_file tables is_alphanumeric ether_wake o ops
                    (step_file tables is_alphanumeric ether_wake o op file).1).0)
              a
            ∙ ap (λ xs. (step_list tables is_alphanumeric ether_wake op entries).0 ∷ xs) answers,
        e,
      )

  -- While files can be read and written, and new names have no line ends: from no file, a run of
  -- wake-ups, renames and deletions answers on the file what it answers on a list of entries, and
  -- get_wol_macs then reads that list.
  pub run_file-refines :
      (o : WolIo) (ops : List WolOp)
      → IsWorking o
      → All IsCleanOp ops
      → ((run_file tables is_alphanumeric ether_wake o ops none).0
          ≡ (run_list tables is_alphanumeric ether_wake ops []).0)
        × (get_wol_macs o (run_file tables is_alphanumeric ether_wake o ops none).1
            ≡ ok (run_list tables is_alphanumeric ether_wake ops []).1)
  unfolding print_entries
  run_file-refines o ops g c =
      let (a, h) = run-Agree o ops none [] g c (refl, tt) in
      (
        a,
        get_represented o (run_file tables is_alphanumeric ether_wake o ops none).1
            (run_list tables is_alphanumeric ether_wake ops []).1 g.0 h,
      )
