-- ===== src/Vm/Scripts/Inside.antt =====
-- Scripts that are run or deleted lie in their directory.
use rustykvm.Prelude.{
  ℕ, ◌≡◌, refl, sym, ap, ◌∙◌, inl, inr, Bool, true, false, Option, none, some, List, [], ◌∷◌, ◌++◌,
  arith, str_eq, ◌==◌, ==_iff, Bool-cases, Option-cases, any, retain, All,
}
use rustykvm.Prelude.Text.{Text, codes, has_prefix, contains}
use rustykvm.Vm.Scripts.{
  script_directory, is_kept, is_alphanumeric, is_empty, checked_name, sanitize_file_name, join,
  path_starts_with, validate_script_path, RunScriptReq, Started, ScriptSystem, run_at,
  run_script_handler, delete_script_handler, ScriptField, Uploads, store_at, store_named, store_all,
  upload_script_handler, is_script,
}

abbrev pub has_slash : Text → Bool
has_slash s = any (λ c. c == b'/') s

-- A file name that is not empty and has neither a slash nor two dots in a row.
pub record IsFileName (file : Text) : Type 0 where
  pub no_slash : has_slash file ≡ false
  pub no_dots : contains (codes "..") file ≡ false
  pub some_character : is_empty file ≡ false

abbrev pub IsInside : Text → Type 0
IsInside path = (file : Text) × ((path ≡ script_directory ++ (b'/' ∷ file)) × IsFileName file)

kept-no_slash : (alphabet : ℕ → Bool) (c : ℕ) → is_kept alphabet c ≡ true → (c == b'/') ≡ false
unfolding is_alphanumeric
kept-no_slash alphabet c h = elim (Bool-cases (c == b'/')) [
  | inl e ↦
      let slash : c ≡ b'/' = (==_iff c b'/').0 e in
      let kept : is_kept alphabet b'/' ≡ true = sym (ap (is_kept alphabet) slash) ∙ h in
      absurd (ground (arith, kept))
  | inr e ↦ e
]

retained-no_slash :
    (alphabet : ℕ → Bool) (s : Text) → has_slash (retain (is_kept alphabet) s) ≡ false
retained-no_slash alphabet [] = refl
retained-no_slash alphabet (c ∷ s) = elim (Bool-cases (is_kept alphabet c)) [
  | inl e ↦ rw e (rw (kept-no_slash alphabet c e) (retained-no_slash alphabet s))
  | inr e ↦ rw e (retained-no_slash alphabet s)
]

checked_name-IsFileName :
    (s file : Text) → has_slash s ≡ false → checked_name s ≡ some file → IsFileName file
checked_name-IsFileName s file n h = elim (Bool-cases (is_empty s)) [
  | inl e ↦ absurd (ground (arith, e, h))
  | inr e ↦ elim (Bool-cases (contains (codes "..") s)) [
    | inl k ↦ absurd (ground (arith, e, k, h))
    | inr k ↦
        let same : s ≡ file = ground (arith, e, k, h) in
        rw (sym same) (record { no_slash = n; no_dots = k; some_character = e })
  ]
]

pub sanitize_file_name-IsFileName :
    (alphabet : ℕ → Bool) (name file : Text)
    → sanitize_file_name alphabet name ≡ some file
    → IsFileName file
unfolding sanitize_file_name
sanitize_file_name-IsFileName alphabet name file h =
    checked_name-IsFileName (retain (is_kept alphabet) name) file (retained-no_slash alphabet name)
      h

join-file :
    (file : Text) → IsFileName file → join script_directory file ≡ script_directory ++ (b'/' ∷ file)
unfolding join has_prefix
join-file [] h = absurd (ground (arith, h.some_character))
join-file (c ∷ s) h = elim (Bool-cases (c == b'/')) [
  | inl e ↦ absurd (ground (arith, e, h.no_slash))
  | inr e ↦ rw e refl
]

pub validate_script_path-IsInside :
    (alphabet : ℕ → Bool) (name path : Text)
    → validate_script_path alphabet script_directory name ≡ some path
    → IsInside path
unfolding validate_script_path
validate_script_path-IsInside alphabet name path h =
    elim (Option-cases (sanitize_file_name alphabet name)) [
      | inl e ↦ absurd (ground (arith, e, h))
      | inr (file, e) ↦
          let valid : IsFileName file = sanitize_file_name-IsFileName alphabet name file e in
          elim (Bool-cases (path_starts_with (join script_directory file) script_directory)) [
            | inl k ↦
                let same : join script_directory file ≡ path = ground (arith, e, k, h) in
                (file, (sym same ∙ join-file file valid, valid))
            | inr k ↦ absurd (ground (arith, e, k, h))
          ]
    ]

run_at-started :
    (sys : ScriptSystem) (req : RunScriptReq) (o : Option Text) (script : Started)
    → (run_at sys req o).1 ≡ some script
    → (o ≡ some script.path) × (sys.exists script.path ≡ true)
run_at-started sys req none script h = absurd (ground (arith, h))
run_at-started sys req (some path) script h = elim (Bool-cases (sys.exists path)) [
  | inl e ↦ elim (Bool-cases (str_eq req.script_type "foreground")) [
    | inl k ↦ ground (arith, e, k, h)
    | inr k ↦ ground (arith, e, k, h)
  ]
  | inr e ↦ absurd (ground (arith, e, h))
]

-- Whatever name a request has, the program that is started is given an existing path in the directory of
-- scripts, under a file name with neither a slash nor two dots in a row.
pub started_script-IsInside :
    (alphabet : ℕ → Bool) (sys : ScriptSystem) (req : RunScriptReq) (script : Started)
    → (run_script_handler alphabet sys req).1 ≡ some script
    → IsInside script.path × (sys.exists script.path ≡ true)
unfolding run_script_handler
started_script-IsInside alphabet sys req script h =
    let r =
      run_at-started sys req (validate_script_path alphabet script_directory req.name) script h in
    (validate_script_path-IsInside alphabet req.name script.path r.0, r.1)

-- Nor is any path outside of it deleted.
pub deleted_script-IsInside :
    (alphabet : ℕ → Bool) (sys : ScriptSystem) (name path : Text)
    → (delete_script_handler alphabet sys name).1 ≡ some path
    → IsInside path
unfolding delete_script_handler
deleted_script-IsInside alphabet sys name path h =
    elim (Option-cases (validate_script_path alphabet script_directory name)) [
      | inl e ↦ absurd (ground (arith, e, h))
      | inr (p, e) ↦
          let same : p ≡ path = ground (arith, e, h) in
          rw (sym same) (validate_script_path-IsInside alphabet name p e)
    ]

abbrev pub AllInside : List (Text × Text) → Type 0
AllInside files = All (λ f. IsInside f.0) files

stored-AllInside :
    (alphabet : ℕ → Bool) (name : Text) (is_written : Bool) (o content : Option Text) (u : Uploads)
    → validate_script_path alphabet script_directory name ≡ o
    → AllInside u.files
    → AllInside (store_at is_written o content u).files
stored-AllInside alphabet name is_written none content u e h = h
stored-AllInside alphabet name is_written (some path) none u e h = h
stored-AllInside alphabet name true (some path) (some content) u e h =
    (validate_script_path-IsInside alphabet name path e, h)
stored-AllInside alphabet name false (some path) (some content) u e h = h

named-AllInside :
    (alphabet : ℕ → Bool) (sys : ScriptSystem) (field : ScriptField) (o : Option Text) (u : Uploads)
    → AllInside u.files
    → AllInside (store_named alphabet sys field o u).files
named-AllInside alphabet sys field none u h = h
named-AllInside alphabet sys field (some name) u h = elim (Bool-cases (is_script sys name)) [
  | inl e ↦ rw e (
      stored-AllInside alphabet name field.is_written
        (validate_script_path alphabet script_directory name) field.content u refl h)
  | inr e ↦ rw e h
]

all-AllInside :
    (alphabet : ℕ → Bool) (sys : ScriptSystem) (fields : List ScriptField) (u : Uploads)
    → AllInside u.files
    → AllInside (store_all alphabet sys fields u).files
all-AllInside alphabet sys [] u h = h
all-AllInside alphabet sys (field ∷ fields) u h =
    all-AllInside alphabet sys fields (store_named alphabet sys field field.file_name u)
      (named-AllInside alphabet sys field field.file_name u h)

-- Whatever file names an upload has, every file it writes is in the directory of scripts, under a file
-- name with neither a slash nor two dots in a row.
pub uploaded_scripts-AllInside :
    (alphabet : ℕ → Bool) (sys : ScriptSystem) (fields : List ScriptField)
    → AllInside (upload_script_handler alphabet sys fields).1
unfolding upload_script_handler
uploaded_scripts-AllInside alphabet sys fields =
    all-AllInside alphabet sys fields (record { uploaded_file = none; files = [] }) tt
