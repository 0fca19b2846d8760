-- ===== src/Lib.antt =====
-- A model of RustyKVM's server, and what holds of it.
--
-- RustyKVM is an HTTP server for a network KVM. This library models the parts of it that decide
-- who may log in and what a session may do, and the parts that drive the device: the login with a
-- password and its protection against guessing, the passkeys with their recovery codes, sessions and
-- the account, the addresses that the server may fetch from, the controller of the video quality, the
-- EDID, the network settings, the SD card with its disk images, the reports of the mouse, the settings
-- of the stream, the host's buttons, and the scripts kept on the device.
--
-- Prelude: the names that all modules share; lists over the native numbers (Lists), hash maps keyed
--   by strings as association lists (Assoc), Rust's Result (Result), and i64 with its casts (Int).
-- Api: server/src/api.rs, the response wrapper; ErrorCodes has the codes that are used here.
-- Auth/BruteForce: server/src/auth/brute_force.rs. `BruteForce` is the table under its lock, and
--   `check`, `record_failure`, `clear` and `cleanup` are the methods and one tick of the clean-up
--   task. `record_failure_kept` and `clear_kept` add the state file to them.
-- Auth/Password: server/src/utils.rs, `decrypt_password` and `derive_key_iv`.
-- Auth/Login: server/src/auth.rs, `login_handler_inner`; it takes and returns the table and its file,
--   and answers the response with the token of the cookie.
-- Auth/Session: server/src/auth.rs. `Sessions` holds the signing key and the account's file;
--   `auth_middleware` checks a request, `logout_handler` and `change_password_handler` change the state.
-- Auth/ClientIp: `client_ip` of the same file.
-- Quality: server/src/quality.rs. `QualityState` holds the atomics of the controller, and
--   `on_frame_result`, `on_remb_received` and `get_stats` are its methods.
-- Passkey/Cbor, Passkey/CoseKey: server/src/passkey/cbor.rs, models.rs and crypto.rs, the readers of
--   byte strings and integers, the keys that `from_cbor` reads, and `verify_signature`.
-- Passkey/AuthData: `AuthenticatorData::parse` of server/src/passkey/crypto.rs.
-- Passkey/Recovery: server/src/passkey/recovery.rs, the rate limit, the codes, and
--   `validate_and_consume_code`, whose state is `Recovery`.
-- Passkey/Challenge: server/src/passkey/mod.rs. `PasskeyServer` holds the failed logins, the pending
--   challenge and codes, and the file of credentials; the handlers below take it and return it.
-- Passkey/Protocol: what a login with a passkey takes and answers, its early returns, and the
--   functions of the libraries as one record.
-- Passkey/Login: `login_challenge_inner` and `login_verify_inner` of server/src/passkey/handlers.rs.
--   `judge` is the part up to the signature and `commit` the rest; `login_verify_inner` runs the one
--   after the other, and requests that overlap are other orders of the two.
-- Passkey/Attestation: `extract_public_key_from_attestation` of the same file.
-- Passkey/Enroll: `passkey_setup_handler`, `enroll_complete_handler` and
--   `setup_recovery_codes_handler` of the same file.
-- Edid: server/src/vm/edid.rs. `EdidDevice` holds what the receiver was programmed with and the kept
--   file; `validate_edid` and the handlers take the outcomes of the tool and of the files.
-- Passkey/RecoverLogin: `recover_handler_inner` and `qr_code_handler` of the same file, and qr.rs.
-- UrlSafety: server/src/url_safety.rs, `validate_remote_http_url` and `is_blocked_ip`.
-- Network/Wol, Network/Mac: the Wake-on-LAN list of network/src/lib.rs, whose file is a text; Wol/Abstract
--   has the same operations on a list of entries.
-- Network/Netmask, Network/Wifi, Network/Ethernet: the rest of that file, over the files it writes.
-- Network/Handlers: server/src/network.rs.
-- Storage/Health: storage/src/health.rs, whose files are a function from paths to texts; Refresh has the
--   handlers of server/src/storage_health.rs.
-- Storage/Images: storage/src/lib.rs and server/src/storage.rs. `Gadget` holds the USB gadget's files.
-- Hid/Engine, Hid/Jiggler, Hid/MouseScroll: hid/src/lib.rs, vm/src/jiggler.rs and
--   server/src/hid/mouse_scroll.rs.
-- Hid/Layouts, Hid/Paste, Hid/Shortcuts: server/src/hid.rs.
-- Vm/Screen: `set_screen_handler` of server/src/vm.rs and `ScreenConfig` of server/src/webrtc/screen.rs.
-- Vm/Gpio: vm/src/lib.rs, vm/src/gpio.rs and their two handlers; a pin is the text of its file.
-- Vm/Scripts, Vm/Autostart, Vm/Hostname, Vm/Swap, Vm/VirtualDevice, Vm/Settings, Vm/Info: the
--   handlers of these in server/src/vm.rs.
-- Passkey/Bytes, Prelude/Text: byte slices and big-endian numbers; texts as code points where the
--   code walks them.
--
-- The parts meet in `PasskeyServer`: a login reads and writes the table of Auth/BruteForce through
-- `check`, `record_failure_kept` and `clear_kept`, takes keys from Passkey/CoseKey, and an enrollment
-- makes the codes of Passkey/Recovery. A session's token is made by a login and read by
-- `auth_middleware`, and the change of the password writes the account that the logins read.
--
-- Numbers are natural, with the wrap of u16, u32 and u64 written where the code can reach it, and
-- subtraction that stops at 0 where the code's is saturating. Times are seconds, read by the caller.
-- An operation under a lock is one step. The loops over bytes run on fuel of one round for each byte,
-- which is enough because each round reads a byte or more, or makes one in the key derivation; the
-- readers have an outcome of its own for fuel that runs out, which is never met.
--
-- What other crates compute is a parameter: base64, serde_json, bcrypt, MD5, AES, sha2, ring,
-- jsonwebtoken, serde_yaml, url, the random source, the QR encoder, the resolver, the parser of IP
-- addresses, Unicode's tables, and the answers of the file system, of the tools and of Tailscale. The
-- statements about the state file assume that serde_json reads what it wrote. A file that is written in
-- place is emptied first: `FileWrite` of Prelude/Result has what a write that breaks off leaves.
--
-- Not modelled: the routing, the log and audit messages, the screen and audio streams, the other
-- handlers of server/src/vm.rs, those of downloads and of Tailscale, the kernel bindings, the web pages and
-- the shell scripts that start it.
pub mod Prelude
pub mod Api
pub mod Auth
pub mod Quality
pub mod Passkey
pub mod Edid
pub mod Network
pub mod UrlSafety
pub mod Storage
pub mod Hid
pub mod Vm
