-- ===== src/Network/Error.antt =====
-- network/src/lib.rs: `NetworkError`, and what the file system answers.
use rustykvm.Prelude.{String, str_append, Option, some}
use rustykvm.Prelude.Result.{Result, ok, err}
use rustykvm.Prelude.Text.{Text}

-- `io` with the text that its error displays.
pub data NetworkError : Type 0 where
  io : String → NetworkError
  invalid_mac : String → NetworkError
  command_failed : String → NetworkError

-- `to_string`, as thiserror derives it from the attributes.
abbrev pub to_string : NetworkError → String
to_string (io e) = str_append "IO Error: " e
to_string (invalid_mac mac) = str_append "Invalid MAC address: " mac
to_string (command_failed msg) = str_append "Command failed: " msg

-- The outcome of writing a file: a write that fails may leave anything behind.
pub data Write : Type 0 where
  written : Write
  failed : String → Option Text → Write

-- `fs::write(file, content).await?`: the result, and the file after it.
abbrev pub write : Write → Text → Result {0, 0} NetworkError Unit × Option Text
write written content = (ok tt, some content)
write (failed e left) content = (err (io e), left)
