-- ===== src/Storage/Images/Mounting.antt =====
-- What is mounted is what is then shown.
use rustykvm.Prelude.{
  ℕ, ◌≡◌, refl, ap, Bool, true, false, ◌||◌, Option, none, some, [], ◌∷◌, All, list_eq,
}
use rustykvm.Prelude.Result.{Result, ok}
use rustykvm.Prelude.Text.{Text, trim}
use rustykvm.Prelude.Trim.{IsVisible, trim_visible}
use rustykvm.Storage.Images.{
  StorageError, image_none, image_or, is_none, flag, Gadget, GadgetIo, mount_image, mounted,
  get_mounted_image, get_cdrom_flag, reset_usb_gadget, inquiry_data,
}

-- Every write succeeds, and there is a controller.
pub record IsWorking (o : GadgetIo) (name : Text) : Type 0 where
  pub ro : o.ro ≡ none
  pub cdrom : o.cdrom ≡ none
  pub inquiry_string : o.inquiry_string ≡ none
  pub mount_device : o.mount_device ≡ none
  pub udc_cleared : o.udc_cleared ≡ none
  pub udc_name : o.udc_name ≡ ok (some name)
  pub udc_set : o.udc_set ≡ none

mount_image_lem :
    (o : GadgetIo) (name : Text) (file_path : Option Text) (cdrom : Bool) (g : Gadget)
    → IsWorking o name
    → mount_image o file_path cdrom g ≡ (
      ok tt,
      record {
        ro = flag (cdrom || is_none file_path);
        cdrom = flag cdrom;
        inquiry_string = inquiry_data cdrom;
        mount_device = image_or file_path;
        udc = name;
      },
    )
unfolding mount_image reset_usb_gadget
mount_image_lem o name file_path cdrom g w =
    rw (w.ro, w.cdrom, w.inquiry_string, w.mount_device, w.udc_cleared, w.udc_name, w.udc_set) refl

get_flag : (cdrom : Bool) → list_eq (trim (flag cdrom)) (b'1' ∷ []) ≡ cdrom
unfolding trim
get_flag true = refl
get_flag false = refl

mounted_visible :
    (c : ℕ) (s : Text) → list_eq (c ∷ s) image_none ≡ false → mounted (c ∷ s) ≡ some (c ∷ s)
mounted_visible c s h = rw h refl

-- What the files say after an image is mounted.
abbrev pub IsMounted : Text → Bool → Result {0, 0} StorageError Unit × Gadget → Type 0
IsMounted path cdrom r =
    (r.0 ≡ ok tt)
    × (get_mounted_image none r.1 ≡ ok (some path))
    × (get_cdrom_flag none r.1 ≡ ok cdrom)
    × (r.1.ro ≡ flag cdrom)

-- An image whose path has no white space, and is not the data partition's, is mounted where every write
-- succeeds: it is then the image that is answered, with the flag of a CD that was asked for, and can be
-- written exactly if it is no CD.
pub mount_image-IsMounted :
    (o : GadgetIo) (name : Text) (c : ℕ) (s : Text) (cdrom : Bool) (g : Gadget)
    → IsWorking o name
    → All IsVisible (c ∷ s)
    → list_eq (c ∷ s) image_none ≡ false
    → IsMounted (c ∷ s) cdrom (mount_image o (some (c ∷ s)) cdrom g)
unfolding get_mounted_image get_cdrom_flag
mount_image-IsMounted o name c s cdrom g w v h =
    rw (mount_image_lem o name (some (c ∷ s)) cdrom g w, trim_visible (c ∷ s) v)
      (
        refl,
        ap (λ i. ok i) (mounted_visible c s h),
        ap (λ f. ok f) (get_flag cdrom),
        rw h (ap flag (kept cdrom)),
      )
  where
    kept : (b : Bool) → (b || false) ≡ b
    kept true = refl
    kept false = refl
