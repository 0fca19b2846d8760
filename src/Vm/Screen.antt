-- ===== src/Vm/Screen.antt =====
-- server/src/webrtc/screen.rs (ScreenConfig) and server/src/vm.rs (set_screen_handler): the settings of
-- the video stream, the files that keep them, and the encoder's group of pictures.
pub mod Valid
use rustykvm.Prelude.{
  ℕ, zero, suc, ◌+◌, ◌-◌, ◌*◌, ◌/◌, ◌%◌, ◌^◌, ◌≤◌, ◌<◌, min, String, ◌≡◌, refl, sym, ap, ◌∙◌, ◌≢◌,
  ◌↔◌, ◌⊎◌, inl, inr, Bool, true, false, not, ◌&&◌, ◌||◌, Option, none, some, List, [], ◌∷◌, ◌++◌,
  map, arith, eq_iff, str_eq, ltb, leb, ◌==◌, if◌then◌else◌, ltb→lt, lt→ltb, ltb_of_le, leb→le,
  ==_iff, tests, Bool-cases, Option-cases, is_some_and, length, get_elem?, get_elem?-of_lt, get_or,
  take, drop, replicate, any, all, retain, All, sum, sum-append, list_eq, list_eq→eq, list_eq_refl,
  length-append, length-take, length-drop, take-append-drop, length-retain-le,
}
use rustykvm.Prelude.Int.{ℤ, pos, negsuc, int_eq, int_lt, as_unsigned}
use rustykvm.Prelude.Result.{FileWrite, written_file}
use rustykvm.Prelude.Text.{Text, codes}
use rustykvm.Api.{ApiResponse, api_ok_empty, api_err}

pub record ScreenConfig : Type 0 where
  pub stream_type : String
  pub fps : ℕ
  pub quality : ℕ
  pub width : ℕ
  pub height : ℕ
  pub bitrate : ℕ
  pub gop : ℕ

abbrev pub new : ScreenConfig
new = record {
  stream_type = "mjpeg";
  fps = 30;
  quality = 80;
  width = 1280;
  height = 720;
  bitrate = 2000;
  gop = 30;
}

pub record SetScreenReq : Type 0 where
  pub screen_type : String
  pub value : ℤ

-- The configuration in memory, the group of pictures last given to the encoder, and the four files,
-- none where one does not read.
pub record ScreenState : Type 0 where
  pub config : ScreenConfig
  pub h264_gop : Option ℕ
  pub type_file : Option Text
  pub fps_file : Option Text
  pub quality_file : Option Text
  pub resolution_file : Option Text

-- The decimal digits; a 32-bit number has ten of them at most.
abbrev pub digits : ℕ → ℕ → Text
digits zero n = []
digits (suc fuel) n =
    let higher = digits fuel (n / 10) in
    if ltb n 10 then (b'0' + n) ∷ [] else higher ++ ((b'0' + n % 10) ∷ [])

-- `i32::to_string`
unfoldable pub print_i32 : ℤ → Text
print_i32 (pos n) = digits 10 n
print_i32 (negsuc n) = b'-' ∷ digits 10 (n + 1)

-- `value.clamp(low, high)` for bounds that are not negative.
abbrev pub clamp : ℕ → ℕ → ℤ → ℤ
clamp low high value =
    if int_lt value (pos low) then pos low else if int_lt (pos high) value then pos high else value

abbrev pub stream_type_of : ℤ → String
stream_type_of value = if int_eq value (pos 0) then "mjpeg" else "h264"

-- The width and height that a value stands for, a height or an index; the present ones for others.
abbrev pub resolution_of : ScreenConfig → ℤ → ℕ × ℕ
resolution_of config value =
    if int_eq value (pos 0)
    then (0, 0)
    else if int_eq value (pos 1080) || int_eq value (pos 1)
    then (1920, 1080)
    else if int_eq value (pos 720) || int_eq value (pos 2)
    then (1280, 720)
    else if int_eq value (pos 600) || int_eq value (pos 3)
    then (800, 600)
    else if int_eq value (pos 480) || int_eq value (pos 4)
    then (640, 480)
    else (config.width, config.height)

abbrev pub with_type : ℤ → ScreenConfig → ScreenConfig
with_type value c = record {
  stream_type = stream_type_of value;
  fps = c.fps;
  quality = c.quality;
  width = c.width;
  height = c.height;
  bitrate = c.bitrate;
  gop = c.gop;
}

abbrev pub with_fps : ℤ → ScreenConfig → ScreenConfig
with_fps value c = record {
  stream_type = c.stream_type;
  fps = as_unsigned 16 (clamp 1 60 value);
  quality = c.quality;
  width = c.width;
  height = c.height;
  bitrate = c.bitrate;
  gop = c.gop;
}

-- Values up to 100 are a quality of pictures, larger ones a bit rate.
abbrev pub with_quality : ℤ → ScreenConfig → ScreenConfig
with_quality value c = record {
  stream_type = c.stream_type;
  fps = c.fps;
  quality = if int_lt (pos 100) value then c.quality else as_unsigned 16 (clamp 1 100 value);
  width = c.width;
  height = c.height;
  bitrate = if int_lt (pos 100) value then as_unsigned 16 (clamp 100 20000 value) else c.bitrate;
  gop = c.gop;
}

abbrev pub with_gop : ℤ → ScreenConfig → ScreenConfig
with_gop value c = record {
  stream_type = c.stream_type;
  fps = c.fps;
  quality = c.quality;
  width = c.width;
  height = c.height;
  bitrate = c.bitrate;
  gop = as_unsigned 8 (clamp 1 100 value);
}

abbrev pub with_resolution : ℤ → ScreenConfig → ScreenConfig
with_resolution value c = record {
  stream_type = c.stream_type;
  fps = c.fps;
  quality = c.quality;
  width = (resolution_of c value).0;
  height = (resolution_of c value).1;
  bitrate = c.bitrate;
  gop = c.gop;
}

abbrev pub set_type : FileWrite Text → ℤ → ScreenState → ScreenState
set_type w value s = record {
  config = with_type value s.config;
  h264_gop = s.h264_gop;
  type_file = written_file w (codes (stream_type_of value));
  fps_file = s.fps_file;
  quality_file = s.quality_file;
  resolution_file = s.resolution_file;
}

abbrev pub set_fps : FileWrite Text → ℤ → ScreenState → ScreenState
set_fps w value s = record {
  config = with_fps value s.config;
  h264_gop = s.h264_gop;
  type_file = s.type_file;
  fps_file = written_file w (print_i32 value);
  quality_file = s.quality_file;
  resolution_file = s.resolution_file;
}

abbrev pub set_quality : FileWrite Text → ℤ → ScreenState → ScreenState
set_quality w value s = record {
  config = with_quality value s.config;
  h264_gop = s.h264_gop;
  type_file = s.type_file;
  fps_file = s.fps_file;
  quality_file = written_file w (print_i32 value);
  resolution_file = s.resolution_file;
}

abbrev pub set_gop : ℤ → ScreenState → ScreenState
set_gop value s = record {
  config = with_gop value s.config;
  h264_gop = some (with_gop value s.config).gop;
  type_file = s.type_file;
  fps_file = s.fps_file;
  quality_file = s.quality_file;
  resolution_file = s.resolution_file;
}

abbrev pub set_resolution : FileWrite Text → ℤ → ScreenState → ScreenState
set_resolution w value s = record {
  config = with_resolution value s.config;
  h264_gop = s.h264_gop;
  type_file = s.type_file;
  fps_file = s.fps_file;
  quality_file = s.quality_file;
  resolution_file = written_file w (print_i32 value);
}

-- A failure to write the file is not reported.
unfoldable pub set_screen_handler :
    FileWrite Text → SetScreenReq → ScreenState → ApiResponse {0} Unit × ScreenState
set_screen_handler w req s =
    if str_eq req.screen_type "type"
    then (api_ok_empty, set_type w req.value s)
    else if str_eq req.screen_type "fps"
    then (api_ok_empty, set_fps w req.value s)
    else if str_eq req.screen_type "quality"
    then (api_ok_empty, set_quality w req.value s)
    else if str_eq req.screen_type "resolution"
    then (api_ok_empty, set_resolution w req.value s)
    else if str_eq req.screen_type "gop"
    then (api_ok_empty, set_gop req.value s)
    else (api_err (negsuc 0) "invalid arguments", s)
