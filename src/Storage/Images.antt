-- ===== src/Storage/Images.antt =====
-- storage/src/lib.rs and server/src/storage.rs: the disk image that the device shows its host. The files
-- of the USB gadget are the state; each write is an outcome, and one that fails changes nothing.
pub mod Mounting
use rustykvm.Prelude.{
  ℕ, zero, suc, ◌+◌, ◌-◌, ◌*◌, ◌/◌, ◌%◌, ◌^◌, ◌≤◌, ◌<◌, min, String, ◌≡◌, refl, sym, ap, ◌∙◌, ◌≢◌,
  ◌↔◌, ◌⊎◌, inl, inr, Bool, true, false, not, ◌&&◌, ◌||◌, Option, none, some, List, [], ◌∷◌, ◌++◌,
  map, arith, eq_iff, str_eq, ltb, leb, ◌==◌, if◌then◌else◌, ltb→lt, lt→ltb, ltb_of_le, leb→le,
  ==_iff, tests, Bool-cases, Option-cases, is_some_and, length, get_elem?, get_elem?-of_lt, get_or,
  take, drop, replicate, any, all, retain, All, sum, sum-append, list_eq, list_eq→eq, list_eq_refl,
  length-append, length-take, length-drop, take-append-drop, length-retain-le,
}
use rustykvm.Prelude.Int.{ℤ, pos, negsuc}
use rustykvm.Prelude.Result.{Result, ok, err}
use rustykvm.Prelude.Text.{Text, codes, trim, split, has_prefix}
use rustykvm.Api.{ApiResponse, api_ok, api_ok_empty, api_err}

pub data StorageError : Type 0 where
  io : String → StorageError
  invalid_filename : String → StorageError

abbrev pub image_directory : Text
image_directory = codes "/data"

abbrev pub image_none : Text
image_none = codes "/dev/mmcblk0p3"

pub record Gadget : Type 0 where
  pub ro : Text
  pub cdrom : Text
  pub inquiry_string : Text
  pub mount_device : Text
  pub udc : Text

-- The outcomes of the writes, none for success, and the first entry of the directory of controllers:
-- its reading may fail, and there may be none.
pub record GadgetIo : Type 0 where
  pub detached : Bool
  pub ro : Option String
  pub cdrom : Option String
  pub inquiry_string : Option String
  pub mount_device : Option String
  pub udc_cleared : Option String
  pub udc_name : Result {0, 0} String (Option Text)
  pub udc_set : Option String

-- A write before the rest.
abbrev pub step :
    Option String
    → Gadget
    → Gadget
    → (Gadget → Result {0, 0} StorageError Unit × Gadget)
    → Result {0, 0} StorageError Unit × Gadget
step (some e) before after rest = (err (io e), before)
step none before after rest = rest after

-- `{:<8}` and `{:<16}`: spaces behind the text up to the width.
abbrev pub padded : ℕ → Text → Text
padded width s = s ++ replicate (width - length s) b' '

abbrev pub inquiry_data : Bool → Text
inquiry_data cdrom =
    padded 8 (codes "NanoKVM")
    ++ (padded 16 (if cdrom then codes "USB CD/DVD-ROM" else codes "USB Disk") ++ codes "0520")

abbrev pub image_or : Option Text → Text
image_or none = image_none
image_or (some path) = path

-- No path, or the path of the data partition.
abbrev pub is_none : Option Text → Bool
is_none none = true
is_none (some path) = list_eq path image_none

abbrev pub flag : Bool → Text
flag true = b'1' ∷ []
flag false = b'0' ∷ []

abbrev pub set_udc :
    GadgetIo
    → Gadget
    → Result {0, 0} String (Option Text)
    → Result {0, 0} StorageError Unit × Gadget
set_udc o g (err e) = (err (io e), g)
set_udc o g (ok none) = (ok tt, g)
set_udc o g (ok (some name)) =
    step o.udc_set g
      (record {
        ro = g.ro;
        cdrom = g.cdrom;
        inquiry_string = g.inquiry_string;
        mount_device = g.mount_device;
        udc = name;
      })
      (λ g. (ok tt, g))

unfoldable pub reset_usb_gadget : GadgetIo → Gadget → Result {0, 0} StorageError Unit × Gadget
reset_usb_gadget o g =
    step o.udc_cleared g
      (record {
        ro = g.ro;
        cdrom = g.cdrom;
        inquiry_string = g.inquiry_string;
        mount_device = g.mount_device;
        udc = 10 ∷ [];
      })
      (λ g. set_udc o g o.udc_name)

abbrev pub with_mount : Gadget → Text → Gadget
with_mount g image = record {
  ro = g.ro;
  cdrom = g.cdrom;
  inquiry_string = g.inquiry_string;
  mount_device = image;
  udc = g.udc;
}

unfoldable pub mount_image :
    GadgetIo → Option Text → Bool → Gadget → Result {0, 0} StorageError Unit × Gadget
unfolding reset_usb_gadget
mount_image o file_path cdrom g0 =
    let g = if o.detached then with_mount g0 (10 ∷ []) else g0 in
    step o.ro g
      (record {
        ro = flag (cdrom || is_none file_path);
        cdrom = g.cdrom;
        inquiry_string = g.inquiry_string;
        mount_device = g.mount_device;
        udc = g.udc;
      })
      (λ g.
        step o.cdrom g
          (record {
            ro = g.ro;
            cdrom = flag cdrom;
            inquiry_string = g.inquiry_string;
            mount_device = g.mount_device;
            udc = g.udc;
          })
          (λ g.
            step o.inquiry_string g
              (record {
                ro = g.ro;
                cdrom = g.cdrom;
                inquiry_string = inquiry_data cdrom;
                mount_device = g.mount_device;
                udc = g.udc;
              })
              (λ g.
                step o.mount_device g (with_mount g (image_or file_path))
                  (λ g. reset_usb_gadget o g))))

abbrev pub mounted : Text → Option Text
mounted [] = none
mounted (c ∷ s) = if list_eq (c ∷ s) image_none then none else some (c ∷ s)

-- The outcome of the reading is the argument.
unfoldable pub get_mounted_image : Option String → Gadget → Result StorageError (Option Text)
unfolding trim
get_mounted_image (some e) g = err (io e)
get_mounted_image none g = ok (mounted (trim g.mount_device))

unfoldable pub get_cdrom_flag : Option String → Gadget → Result StorageError Bool
unfolding trim
get_cdrom_flag (some e) g = err (io e)
get_cdrom_flag none g = ok (list_eq (trim g.cdrom) (b'1' ∷ []))

-- `Path::extension` of an absolute path: of its last component that is not empty and no dot, what stands
-- behind the last dot, unless that dot is its first character or the component is two dots.
abbrev pub last_name : List Text → Text → Text
last_name [] found = found
last_name (p ∷ parts) found =
    last_name parts (if list_eq p [] || list_eq p (b'.' ∷ []) then found else p)

abbrev pub last_dot : Text → Option Text
last_dot [] = none
last_dot (c ∷ s) = elim (last_dot s) [
  | some ext ↦ some ext
  | none ↦ if c == b'.' then some s else none
]

abbrev pub name_extension : Text → Option Text
name_extension [] = none
name_extension (c ∷ s) = if list_eq (c ∷ s) (codes "..") then none else last_dot s

unfoldable pub extension : Text → Option Text
unfolding split
extension path = name_extension (last_name (split b'/' path) [])

abbrev pub lower : ℕ → ℕ
lower c = if leb b'A' c && leb c b'Z' then c + 32 else c

-- Whether the extension in lower case, here that of ASCII, is `iso` or `img`.
abbrev pub is_image : Option Text → Bool
is_image none = false
is_image (some ext) = list_eq (map lower ext) (codes "iso") || list_eq (map lower ext) (codes "img")

-- The path that is removed, if the checks pass; what the removal answers is the argument.
unfoldable pub delete_image : Option String → Text → Result {0, 0} StorageError Unit × Option Text
unfolding has_prefix extension
delete_image removal path =
    if not (has_prefix image_directory path)
    then (err (invalid_filename "Not in image directory"), none)
    else if not (is_image (extension path))
    then (err (invalid_filename "Invalid extension"), none)
    else (elim removal [ some e ↦ (err (io e), none) | none ↦ (ok tt, some path) ])

-- The handlers.
abbrev pub answer_or : String → Result {0, 0} StorageError Unit → ApiResponse {0} Unit
answer_or msg (ok u) = api_ok_empty
answer_or msg (err e) = api_err (negsuc 0) msg

abbrev pub path_of : Text → Option Text
path_of [] = none
path_of (c ∷ s) = some (c ∷ s)

unfoldable pub mount_image_handler : GadgetIo → Text → Bool → Gadget → ApiResponse {0} Unit × Gadget
unfolding mount_image
mount_image_handler o file cdrom g =
    let (r, next) = mount_image o (path_of file) cdrom g in
    (answer_or "failed to mount image" r, next)

abbrev pub or_default : Option Text → Text
or_default none = []
or_default (some image) = image

abbrev pub mounted_answer : Result StorageError (Option Text) → ApiResponse Text
mounted_answer (ok image) = api_ok (or_default image)
mounted_answer (err e) = api_err (negsuc 0) "failed to retrieve mounted image"

unfoldable pub get_mounted_image_handler : Option String → Gadget → ApiResponse Text
unfolding get_mounted_image
get_mounted_image_handler reading g = mounted_answer (get_mounted_image reading g)

abbrev pub cdrom_answer : Result StorageError Bool → ApiResponse ℤ
cdrom_answer (ok is_cdrom) = api_ok (if is_cdrom then pos 1 else pos 0)
cdrom_answer (err e) = api_err (negsuc 0) "failed to retrieve cdrom status"

unfoldable pub get_cdrom_handler : Option String → Gadget → ApiResponse ℤ
unfolding get_cdrom_flag
get_cdrom_handler reading g = cdrom_answer (get_cdrom_flag reading g)

unfoldable pub delete_image_handler : Option String → Text → ApiResponse {0} Unit × Option Text
unfolding delete_image
delete_image_handler removal file =
    let (r, removed) = delete_image removal file in (answer_or "failed to delete image" r, removed)
