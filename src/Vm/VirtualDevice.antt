-- ===== src/Vm/VirtualDevice.antt =====
-- server/src/vm.rs: the USB network and the USB disk, each turned on by a file of its own. Files are texts
-- by their paths; what a command does to them is a parameter.
pub mod Toggled
use rustykvm.Prelude.{
  ℕ, zero, suc, ◌+◌, ◌-◌, ◌*◌, ◌/◌, ◌%◌, ◌^◌, ◌≤◌, ◌<◌, min, String, ◌≡◌, refl, sym, ap, ◌∙◌, ◌≢◌,
  ◌↔◌, ◌⊎◌, inl, inr, Bool, true, false, not, ◌&&◌, ◌||◌, Option, none, some, List, [], ◌∷◌, ◌++◌,
  map, arith, eq_iff, str_eq, ltb, leb, ◌==◌, if◌then◌else◌, ltb→lt, lt→ltb, ltb_of_le, leb→le,
  ==_iff, tests, Bool-cases, Option-cases, is_some_and, length, get_elem?, get_elem?-of_lt, get_or,
  take, drop, replicate, any, all, retain, All, sum, sum-append, list_eq, list_eq→eq, list_eq_refl,
  length-append, length-take, length-drop, take-append-drop, length-retain-le,
}
use rustykvm.Prelude.Result.{FileWrite, written_file}
use rustykvm.Prelude.Text.{Text, codes, trim}
use rustykvm.Api.{ApiResponse, api_ok, api_err}
use rustykvm.Api.ErrorCodes.{validation}
use rustykvm.Vm.Autostart.{Files, with_file}

abbrev pub virtual_network : Text
virtual_network = codes "/boot/usb.rndis0"

abbrev pub virtual_disk : Text
virtual_disk = codes "/boot/usb.disk0"

abbrev pub disk_inquiry_file : Text
disk_inquiry_file = codes "/etc/kvm/virtual_disk_inquiry"

pub record GetVirtualDeviceRsp : Type 0 where
  pub network : Bool
  pub disk : Bool
  pub disk_inquiry : Option Text

abbrev pub exists : Files → Text → Bool
exists files path = elim (files path) [ none ↦ false | some content ↦ true ]

abbrev pub trimmed : Option Text → Option Text
trimmed none = none
trimmed (some content) = some (trim content)

-- A file that exists can be read.
unfoldable pub get_virtual_device_handler : Files → ApiResponse {0} GetVirtualDeviceRsp
unfolding trim
get_virtual_device_handler files = api_ok (record {
  network = exists files virtual_network;
  disk = exists files virtual_disk;
  disk_inquiry = if exists files virtual_disk then trimmed (files disk_inquiry_file) else none;
})

-- The file of a device, and the commands that turn it on and off.
pub record Device : Type 0 where
  pub path : Text
  pub mount_cmds : List String
  pub unmount_commands : List String

abbrev pub network_device : Device
network_device = record {
  path = virtual_network;
  mount_cmds =
      "touch /boot/usb.rndis0" ∷ "/etc/init.d/S03usbdev stop" ∷ "/etc/init.d/S03usbdev start" ∷ [];
  unmount_commands =
      "/etc/init.d/S03usbdev stop"
      ∷ "rm -rf /sys/kernel/config/usb_gadget/g0/configs/c.1/rndis.usb0" ∷ "rm /boot/usb.rndis0"
      ∷ "/etc/init.d/S03usbdev start" ∷ [];
}

abbrev pub disk_device : Device
disk_device = record {
  path = virtual_disk;
  mount_cmds =
      "touch /boot/usb.disk0" ∷ "/etc/init.d/S03usbdev stop" ∷ "/etc/init.d/S03usbdev start" ∷ [];
  unmount_commands =
      "/etc/init.d/S03usbdev stop"
      ∷ "rm -rf /sys/kernel/config/usb_gadget/g0/configs/c.1/mass_storage.disk0"
      ∷ "rm /boot/usb.disk0" ∷ "/etc/init.d/S03usbdev start" ∷ [];
}

abbrev pub inquiry_path : Text
inquiry_path =
    codes "/sys/kernel/config/usb_gadget/g0/functions/mass_storage.disk0/lun.0/inquiry_string"

abbrev pub run_all : (String → Files → Files) → List String → Files → Files
run_all sh [] files = files
run_all sh (cmd ∷ cmds) files = run_all sh cmds (sh cmd files)

abbrev pub switched : (String → Files → Files) → Device → Files → Files
switched sh device files =
    if not (exists files device.path)
    then run_all sh device.mount_cmds files
    else run_all sh device.unmount_commands files

-- The disk's name is kept, and given to the gadget where that write takes place.
abbrev pub with_inquiry : FileWrite Text → Bool → Option Text → Files → Files
with_inquiry w is_applied none files = files
with_inquiry w is_applied (some inquiry) files =
    let kept = with_file disk_inquiry_file (written_file w inquiry) files in
    if is_applied then with_file inquiry_path (some inquiry) kept else kept

abbrev pub answered : Text → Files → ApiResponse {0} Bool × Files
answered path files = (api_ok (exists files path), files)

-- The waits are not modelled.
unfoldable pub update_virtual_device_handler :
    (String → Files → Files)
    → FileWrite Text
    → Bool
    → String
    → Option Text
    → Files
    → ApiResponse {0} Bool × Files
update_virtual_device_handler sh w is_applied device inquiry files =
    if str_eq device "network"
    then answered virtual_network (switched sh network_device files)
    else if str_eq device "disk"
    then answered virtual_disk (with_inquiry w is_applied inquiry (switched sh disk_device files))
    else (api_err validation "invalid arguments", files)
