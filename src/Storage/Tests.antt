-- ===== src/Storage/Tests.antt =====
-- The health of the card and the images at concrete inputs.
use rustykvm.Prelude.{◌≡◌, refl, true, false, none, some, [], ◌∷◌, if◌then◌else◌, list_eq}
use rustykvm.Prelude.Result.{ok}
use rustykvm.Prelude.Text.{codes, is_whitespace, trim}
use rustykvm.Storage.Health.{good, normal, Sysfs, compute_health_score, assess_status}
use rustykvm.Storage.Images.{GadgetIo, Gadget, mount_image, delete_image}
use rustykvm.Storage.Images.Mounting.{IsMounted, mount_image-IsMounted}

assessed_good :
    assess_status (compute_health_score (some 80) 3 none (some normal)) 3 (some normal) ≡ good
unfolding assess_status compute_health_score
assessed_good = refl

-- A card as the kernel shows it, and no card at all.
abbrev card : Sysfs
card = record {
  read = λ path.
      if list_eq path (codes "p/life_time")
      then some (codes "0x0b 0x0b\n")
      else if list_eq path (codes "p/pre_eol_info")
      then some (codes "0x03\n")
      else none;
  try_exists = λ path. true;
}

abbrev nothing : Sysfs
nothing = record { read = λ path. none; try_exists = λ path. false }

life : trim (codes "0x0b 0x0b\n") ≡ b'0' ∷ b'x' ∷ codes "0b 0x0b"
unfolding trim
life = refl

eol : trim (codes "0x03\n") ≡ b'0' ∷ b'x' ∷ codes "03"
unfolding trim
eol = refl

abbrev gadget : Gadget
gadget = record { ro = []; cdrom = []; inquiry_string = []; mount_device = []; udc = [] }

abbrev working : GadgetIo
working = record {
  detached = true;
  ro = none;
  cdrom = none;
  inquiry_string = none;
  mount_device = none;
  udc_cleared = none;
  udc_name = ok (some (codes "4340000.usb"));
  udc_set = none;
}

mount_image-IsMounted_example :
    IsMounted
      (codes "/data/a.iso")
      true
      (mount_image working (some (codes "/data/a.iso")) true gadget)
unfolding is_whitespace
mount_image-IsMounted_example =
    mount_image-IsMounted working (codes "4340000.usb") b'/' (codes "data/a.iso") true gadget
      (record {
        ro = refl;
        cdrom = refl;
        inquiry_string = refl;
        mount_device = refl;
        udc_cleared = refl;
        udc_name = refl;
        udc_set = refl;
      })
      (refl, (refl, (refl, (refl, (refl, (refl, (refl, (refl, (refl, (refl, (refl, tt)))))))))))
      refl

-- A path can leave the directory of images.
leaves_directory :
    delete_image none (codes "/data/../root/backup.img")
    ≡ (ok tt, some (codes "/data/../root/backup.img"))
unfolding delete_image
leaves_directory = refl

other_extension : (delete_image none (codes "/data/notes.txt")).1 ≡ none
unfolding delete_image
other_extension = refl
