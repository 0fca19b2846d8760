-- ===== src/Vm/Autostart/Escape.antt =====
-- Where the names of autostart files lead.
use rustykvm.Prelude.{◌≡◌, refl, true, none, some, list_eq_refl}
use rustykvm.Prelude.Text.{Text, codes, has_prefix}
use rustykvm.Api.{api_ok}
use rustykvm.Vm.Scripts.{join}
use rustykvm.Vm.Autostart.{
  autostart_directory, Files, content_of, get_autostart_content_handler, upload_autostart_handler,
  delete_autostart_handler,
}

join-absolute : (base path : Text) → has_prefix (codes "/") path ≡ true → join base path ≡ path
unfolding join
join-absolute base path h = rw h refl

-- What is uploaded is read back under the same name.
pub uploaded-read :
    (name content : Text) (files : Files)
    → get_autostart_content_handler name (upload_autostart_handler none name content files).1
      ≡ api_ok content
unfolding upload_autostart_handler get_autostart_content_handler
uploaded-read name content files = rw (list_eq_refl (join autostart_directory name)) refl

-- A name that is itself an absolute path is that path, anywhere on the device: the handlers read the file
-- there, write it, and remove it after that, provided that the system lets them.
pub absolute_name-reaches :
    (name content : Text) (files : Files)
    → has_prefix (codes "/") name ≡ true
    → (get_autostart_content_handler name files ≡ content_of (files name))
      × ((upload_autostart_handler none name content files).1 name ≡ some content)
      × ((delete_autostart_handler true name (upload_autostart_handler none name content files).1).1
            name
          ≡ none)
unfolding upload_autostart_handler get_autostart_content_handler delete_autostart_handler
absolute_name-reaches name content files h =
    rw (join-absolute autostart_directory name h)
      (rw (list_eq_refl name) (refl, refl, rw (list_eq_refl name) refl))
