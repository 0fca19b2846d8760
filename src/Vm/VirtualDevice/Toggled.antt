-- ===== src/Vm/VirtualDevice/Toggled.antt =====
-- Requests turn a device on and off in turns.
use rustykvm.Prelude.{
  String, ◌≡◌, refl, ap, inl, inr, Bool, true, false, not, Option, none, some, Bool-cases,
}
use rustykvm.Prelude.Result.{FileWrite}
use rustykvm.Prelude.Text.{Text}
use rustykvm.Api.{api_ok}
use rustykvm.Vm.Autostart.{Files}
use rustykvm.Vm.VirtualDevice.{
  virtual_network, virtual_disk, exists, Device, disk_device, network_device, run_all, switched,
  with_inquiry, update_virtual_device_handler,
}

-- The commands do what their names say: those that turn a device on leave its file, and those that turn
-- it off do not.
pub record Switches (sh : String → Files → Files) (device : Device) : Type 0 where
  pub mounts : (files : Files) → exists (run_all sh device.mount_cmds files) device.path ≡ true
  pub unmounts :
      (files : Files) → exists (run_all sh device.unmount_commands files) device.path ≡ false

exists-switched :
    (sh : String → Files → Files) (device : Device) (files : Files)
    → Switches sh device
    → exists (switched sh device files) device.path ≡ not (exists files device.path)
exists-switched sh device files h = elim (Bool-cases (exists files device.path)) [
  | inl e ↦ rw e (h.unmounts files)
  | inr e ↦ rw e (h.mounts files)
]

with_inquiry-disk :
    (w : FileWrite Text) (is_applied : Bool) (inquiry : Option Text) (files : Files)
    → with_inquiry w is_applied inquiry files virtual_disk ≡ files virtual_disk
with_inquiry-disk w is_applied none files = refl
with_inquiry-disk w true (some inquiry) files = refl
with_inquiry-disk w false (some inquiry) files = refl

-- A request for the disk answers the opposite of what it found, whatever becomes of its name, provided
-- that the commands leave and remove the disk's file.
pub disk_toggled :
    (sh : String → Files → Files) (w : FileWrite Text) (is_applied : Bool) (inquiry : Option Text)
    (files : Files)
    → Switches sh disk_device
    → (update_virtual_device_handler sh w is_applied "disk" inquiry files).0
      ≡ api_ok (not (exists files virtual_disk))
unfolding update_virtual_device_handler
disk_toggled sh w is_applied inquiry files h = ap api_ok (
    rw (with_inquiry-disk w is_applied inquiry (switched sh disk_device files), exists)
      (exists-switched sh disk_device files h))

-- The same for the network.
pub network_toggled :
    (sh : String → Files → Files) (w : FileWrite Text) (is_applied : Bool) (inquiry : Option Text)
    (files : Files)
    → Switches sh network_device
    → (update_virtual_device_handler sh w is_applied "network" inquiry files).0
      ≡ api_ok (not (exists files virtual_network))
unfolding update_virtual_device_handler
network_toggled sh w is_applied inquiry files h =
    ap api_ok (exists-switched sh network_device files h)
