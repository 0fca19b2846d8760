-- ===== src/Vm/Tests.antt =====
-- Tests and examples.
use rustykvm.Prelude.{String}
use rustykvm.Prelude.{
  ℕ, ◌≡◌, refl, Bool, true, false, none, some, List, [], ◌∷◌, arith, str_eq, if◌then◌else◌,
}
use rustykvm.Prelude.Int.{pos, negsuc}
use rustykvm.Prelude.Text.{codes}
use rustykvm.Prelude.Result.{ok, complete}
use rustykvm.Api.{api_ok}
use rustykvm.Vm.Gpio.{
  Pins, hardware_config, detect, HardwareVersion, set_gpio_handler, get_gpio_handler,
}
use rustykvm.Vm.Scripts.{
  Started, ScriptSystem, RunScriptReq, run_script_handler, ScriptField, upload_script_handler,
  sanitize_file_name,
}
use rustykvm.Vm.Scripts.Inside.{
  IsInside, AllInside, uploaded_scripts-AllInside, started_script-IsInside,
}
use rustykvm.Vm.Autostart.{
  Files, get_autostart_content_handler, upload_autostart_handler, delete_autostart_handler,
  content_of,
}
use rustykvm.Vm.Autostart.Escape.{absolute_name-reaches}
use rustykvm.Prelude.Text.{trim, has_prefix}
use rustykvm.Vm.Hostname.{
  HostFiles, set_hostname_handler, get_hostname_handler, validate_hostname, replace,
}
use rustykvm.Vm.Hostname.Applied.{all_done, accepted_hostname}
use rustykvm.Vm.Settings.{set_memory_limit_handler, get_memory_limit_handler}
use rustykvm.Vm.Swap.{SwapIo, set_swap_handler}
use rustykvm.Vm.VirtualDevice.{update_virtual_device_handler}
use rustykvm.Vm.Autostart.{with_file}
use rustykvm.Vm.Info.{Iface, get_info_handler, get_oled_handler}
use rustykvm.Vm.Screen.{new, ScreenState, set_screen_handler, print_i32}
use rustykvm.Vm.Screen.Valid.{IsValidState, set_all, screen_requests-IsValidState}

decimal : print_i32 (negsuc 2147483647) ≡ codes "-2147483648"
unfolding print_i32
decimal = refl

abbrev start : ScreenState
start = record {
  config = new;
  h264_gop = none;
  type_file = some (codes "mjpeg");
  fps_file = none;
  quality_file = none;
  resolution_file = none;
}

screen_requests-IsValidState_example : IsValidState (
    set_all
      ((complete, record { screen_type = "fps"; value = pos 500 })
        ∷ (complete, record { screen_type = "gop"; value = negsuc 3 })
        ∷ [])
      start)
screen_requests-IsValidState_example =
    screen_requests-IsValidState
      ((complete, record { screen_type = "fps"; value = pos 500 })
        ∷ (complete, record { screen_type = "gop"; value = negsuc 3 })
        ∷ [])
      (some (codes "mjpeg")) none none none

-- A rate of 500 is 60 in memory and 500 in the file.
file_unclamped :
    (set_screen_handler complete (record { screen_type = "fps"; value = pos 500 }) start).1.fps_file
    ≡ some (codes "500")
unfolding set_screen_handler print_i32
file_unclamped = refl

abbrev pins : Pins
pins path = if str_eq path "/sys/class/gpio/gpio504/value" then some (codes "0\n") else none

-- The button of the power is left pressed when letting go of it fails, and the light is on at 0.
left_pressed :
    (set_gpio_handler
        (hardware_config (detect (some (codes "beta\n"))))
        (record { press = none; release = some "busy" })
        "power"
        pins).1
      "/sys/class/gpio/gpio503/value"
    ≡ some (codes "1")
unfolding set_gpio_handler detect
left_pressed = refl

light :
    ((get_gpio_handler (hardware_config HardwareVersion.alpha) pins).payload) ≡ some (true, false)
unfolding get_gpio_handler
light = refl

abbrev ascii : ℕ → Bool
ascii c = false

abbrev sys : ScriptSystem
sys = record {
  exists = λ path. true;
  lowercase = λ name. name;
  output = λ script. ok "done";
  remove_file = λ path. ok tt;
}

abbrev backup : RunScriptReq
backup = record { name = codes "sub/backup.py"; script_type = "foreground" }

abbrev started : Started
started = record { program = "python"; path = codes "/etc/kvm/scripts/subbackup.py" }

runs : (run_script_handler ascii sys backup).1 ≡ some started
unfolding run_script_handler
runs = refl

climbs : sanitize_file_name ascii (codes "../x.sh") ≡ none
unfolding sanitize_file_name
climbs = refl

started_script-IsInside_example :
    IsInside (codes "/etc/kvm/scripts/subbackup.py")
    × (sys.exists (codes "/etc/kvm/scripts/subbackup.py") ≡ true)
started_script-IsInside_example = started_script-IsInside ascii sys backup started runs

abbrev fields : List ScriptField
fields =
    record {
      file_name = some (codes "/root/.x.sh");
      content = some (codes "reboot");
      is_written = true;
    }
    ∷ record { file_name = some (codes "../y.sh"); content = some []; is_written = true }
    ∷ []

uploads :
    upload_script_handler ascii sys fields
    ≡ (api_ok (codes "root.x.sh"), (codes "/etc/kvm/scripts/root.x.sh", codes "reboot") ∷ [])
unfolding upload_script_handler
uploads = refl

uploaded_scripts-AllInside_example : AllInside (upload_script_handler ascii sys fields).1
uploaded_scripts-AllInside_example = uploaded_scripts-AllInside ascii sys fields

abbrev files : Files
files path = none

absolute : has_prefix (codes "/") (codes "/etc/passwd") ≡ true
unfolding has_prefix
absolute = refl

absolute_name-reaches_example :
    (get_autostart_content_handler (codes "/etc/passwd") files
      ≡ content_of (files (codes "/etc/passwd")))
    × ((upload_autostart_handler none (codes "/etc/passwd") (codes "x") files).1
          (codes "/etc/passwd")
        ≡ some (codes "x"))
    × ((delete_autostart_handler true
            (codes "/etc/passwd")
            (upload_autostart_handler none (codes "/etc/passwd") (codes "x") files).1).1
          (codes "/etc/passwd")
        ≡ none)
absolute_name-reaches_example =
    absolute_name-reaches (codes "/etc/passwd") (codes "x") files absolute

abbrev unnamed : HostFiles
unnamed = record {
  etc_hostname = some [];
  boot_hostname = none;
  etc_hosts = some (codes "::1 a");
  system_name = [];
}

named : validate_hostname ascii (trim (codes " kvm\n")) ≡ true
unfolding validate_hostname trim
named = refl

accepted_hostname_example :
    (get_hostname_handler (set_hostname_handler ascii all_done (codes " kvm\n") unnamed).1
      ≡ api_ok (trim (codes " kvm\n")))
    × ((set_hostname_handler ascii all_done (codes " kvm\n") unnamed).1.boot_hostname
        ≡ some (trim (codes " kvm\n")))
    × ((set_hostname_handler ascii all_done (codes " kvm\n") unnamed).1.system_name
        ≡ trim (codes " kvm\n"))
accepted_hostname_example =
    accepted_hostname ascii (codes " kvm\n") unnamed (λ c h. absurd (ground (arith, h))) named

-- With an empty file for the old name, the new one is put before every character of the hosts.
hosts_spoiled :
    (set_hostname_handler ascii all_done (codes "k") unnamed).1.etc_hosts
    ≡ some (codes "k:k:k1k kak")
unfolding set_hostname_handler
hosts_spoiled = refl

replaces : replace (codes "ab") (codes "x") (codes "abcaab") ≡ codes "xcax"
unfolding replace
replaces = refl

-- A limit below 50 is kept as 50, and read back.
limited :
    get_memory_limit_handler true
      (set_memory_limit_handler complete true (record { enabled = true; limit = negsuc 6 }) none).1
    ≡ api_ok (record { enabled = true; limit = pos 50 })
unfolding set_memory_limit_handler get_memory_limit_handler
limited = refl

abbrev swap_io : SwapIo
swap_io = record {
  removed = λ size. none;
  is_allocated = true;
  allocated = λ size. some 67108864;
  appended = complete;
  rewritten = complete;
}

-- A change of the size leaves a second line for the swap file.
two_lines :
    (set_swap_handler swap_io (pos 64) (record {
      swap_file = some 33554432;
      inittab = some (codes "a\nsi11::sysinit:/sbin/swapon /swapfile");
    })).1.inittab
    ≡ some (codes "a\nsi11::sysinit:/sbin/swapon /swapfile\nsi11::sysinit:/sbin/swapon /swapfile")
unfolding set_swap_handler
two_lines = refl

swap_off :
    (set_swap_handler swap_io (pos 0) (record {
      swap_file = some 33554432;
      inittab = some (codes "a\nsi11::sysinit:/sbin/swapon /swapfile\nb\n");
    })).1
    ≡ record { swap_file = none; inittab = some (codes "a\nb") }
unfolding set_swap_handler
swap_off = refl

abbrev shell : String → Files → Files
shell cmd files =
    if str_eq cmd "touch /boot/usb.disk0"
    then with_file (codes "/boot/usb.disk0") (some []) files
    else files

disk_on :
    (update_virtual_device_handler shell complete true "disk" (some (codes "My disk ")) files).0
    ≡ api_ok true
unfolding update_virtual_device_handler
disk_on = refl

abbrev wired : Iface
wired = record { name = codes "eth0"; is_loopback = false; is_v4 = true; addr = codes "10.0.0.5" }

abbrev loopback : Iface
loopback = record { name = codes "lo"; is_loopback = true; is_v4 = true; addr = codes "127.0.0.1" }

info :
    get_info_handler (some (loopback ∷ wired ∷ [])) (record {
      hostname = some (codes "kvm\n");
      image = none;
      application = none;
      device_key = some (codes " key ");
    })
    ≡ api_ok (record {
      ips =
          record {
            name = codes "eth0";
            addr = codes "10.0.0.5";
            version = "IPv4";
            ip_type = "Wired";
          }
          ∷ [];
      mdns = codes "kvm.local";
      image = [];
      application = codes "1.0.0";
      device_key = codes "key";
    })
unfolding get_info_handler
info = refl

oled_sleep : get_oled_handler true (some (codes "-15\n")) ≡ api_ok (true, negsuc 14)
unfolding get_oled_handler
oled_sleep = refl
