-- ===== src/Vm/Screen/Valid.antt =====
-- The settings in memory are always within what the capture library takes.
use rustykvm.Prelude.{
  ℕ, ◌≤◌, ◌≡◌, refl, ◌⊎◌, inl, inr, Bool, true, false, Option, none, some, List, [], ◌∷◌, arith,
  str_eq, ltb, if◌then◌else◌, Bool-cases,
}
use rustykvm.Prelude.Int.{ℤ, pos, negsuc, int_eq, as_unsigned}
use rustykvm.Prelude.Result.{FileWrite}
use rustykvm.Prelude.Text.{Text}
use rustykvm.Api.{ApiResponse, api_ok_empty, api_err}
use rustykvm.Vm.Screen.{
  ScreenConfig, SetScreenReq, ScreenState, new, clamp, stream_type_of, resolution_of, with_type,
  with_fps, with_quality, with_gop, with_resolution, set_type, set_fps, set_quality, set_resolution,
  set_gop, set_screen_handler,
}

-- Height 0 stands for the host's own resolution.
abbrev pub IsResolution : ℕ → ℕ → Type 0
IsResolution w h =
    ((w ≡ 0) × (h ≡ 0))
    ⊎ (((w ≡ 1920) × (h ≡ 1080))
        ⊎ (((w ≡ 1280) × (h ≡ 720)) ⊎ (((w ≡ 800) × (h ≡ 600)) ⊎ ((w ≡ 640) × (h ≡ 480)))))

abbrev pub IsBetween : ℕ → ℕ → ℕ → Type 0
IsBetween low high n = (low ≤ n) × (n ≤ high)

pub record IsValid (c : ScreenConfig) : Type 0 where
  pub stream_type : (c.stream_type ≡ "mjpeg") ⊎ (c.stream_type ≡ "h264")
  pub fps : IsBetween 1 60 c.fps
  pub quality : IsBetween 1 100 c.quality
  pub resolution : IsResolution c.width c.height
  pub bitrate : IsBetween 100 20000 c.bitrate
  pub gop : IsBetween 1 100 c.gop

-- The encoder has the group of pictures of the configuration, once one was set.
abbrev pub IsCurrent : Option ℕ → ℕ → Type 0
IsCurrent none gop = Unit
IsCurrent (some given) gop = given ≡ gop

pub record IsValidState (s : ScreenState) : Type 0 where
  pub config : IsValid s.config
  pub h264_gop : IsCurrent s.h264_gop s.config.gop

new-IsValid : IsValid new
new-IsValid = record {
  stream_type = inl refl;
  fps = omega arith;
  quality = omega arith;
  resolution = inr (inr (inl (refl, refl)));
  bitrate = omega arith;
  gop = omega arith;
}

clamped :
    (low high : ℕ) (value : ℤ)
    → low ≤ high
    → (n : ℕ) × ((clamp low high value ≡ pos n) × IsBetween low high n)
clamped low high (pos n) h = elim (Bool-cases (ltb n low)) [
  | inl e ↦ rw e (low, (refl, omega arith))
  | inr e ↦ rw e (elim (Bool-cases (ltb high n)) [
    | inl k ↦ rw k (high, (refl, omega arith))
    | inr k ↦ rw k (n, (refl, ground (arith, e, k)))
  ])
]
clamped low high (negsuc n) h = (low, (refl, omega arith))

clamped_fps : (value : ℤ) → IsBetween 1 60 (as_unsigned 16 (clamp 1 60 value))
clamped_fps value = let c = clamped 1 60 value (omega arith) in rw c.1.0 (omega arith)

clamped_quality : (value : ℤ) → IsBetween 1 100 (as_unsigned 16 (clamp 1 100 value))
clamped_quality value = let c = clamped 1 100 value (omega arith) in rw c.1.0 (omega arith)

clamped_bitrate : (value : ℤ) → IsBetween 100 20000 (as_unsigned 16 (clamp 100 20000 value))
clamped_bitrate value = let c = clamped 100 20000 value (omega arith) in rw c.1.0 (omega arith)

clamped_gop : (value : ℤ) → IsBetween 1 100 (as_unsigned 8 (clamp 1 100 value))
clamped_gop value = let c = clamped 1 100 value (omega arith) in rw c.1.0 (omega arith)

choice-IsBetween :
    (low high : ℕ) (b : Bool) (n m : ℕ)
    → IsBetween low high n
    → IsBetween low high m
    → IsBetween low high (if b then n else m)
choice-IsBetween low high true n m h k = h
choice-IsBetween low high false n m h k = k

type_named : (value : ℤ) → (stream_type_of value ≡ "mjpeg") ⊎ (stream_type_of value ≡ "h264")
type_named value = elim (Bool-cases (int_eq value (pos 0))) [
  | inl e ↦ rw e (inl refl)
  | inr e ↦ rw e (inr refl)
]

choice-IsResolution :
    (b : Bool) (x y : ℕ × ℕ)
    → IsResolution x.0 x.1
    → IsResolution y.0 y.1
    → IsResolution (if b then x else y).0 (if b then x else y).1
choice-IsResolution true x y h k = h
choice-IsResolution false x y h k = k

resolution_of-IsResolution :
    (c : ScreenConfig) (value : ℤ)
    → IsResolution c.width c.height
    → IsResolution (resolution_of c value).0 (resolution_of c value).1
resolution_of-IsResolution c value h = choice-IsResolution _ _ _ (inl (refl, refl)) (
    choice-IsResolution _ _ _ (inr (inl (refl, refl))) (
      choice-IsResolution _ _ _ (inr (inr (inl (refl, refl)))) (
        choice-IsResolution _ _ _ (inr (inr (inr (inl (refl, refl)))))
          (choice-IsResolution _ _ _ (inr (inr (inr (inr (refl, refl))))) h))))

type-IsValid : (value : ℤ) (c : ScreenConfig) → IsValid c → IsValid (with_type value c)
type-IsValid value c h = record {
  stream_type = type_named value;
  fps = h.fps;
  quality = h.quality;
  resolution = h.resolution;
  bitrate = h.bitrate;
  gop = h.gop;
}

fps-IsValid : (value : ℤ) (c : ScreenConfig) → IsValid c → IsValid (with_fps value c)
fps-IsValid value c h = record {
  stream_type = h.stream_type;
  fps = clamped_fps value;
  quality = h.quality;
  resolution = h.resolution;
  bitrate = h.bitrate;
  gop = h.gop;
}

quality-IsValid : (value : ℤ) (c : ScreenConfig) → IsValid c → IsValid (with_quality value c)
quality-IsValid value c h = record {
  stream_type = h.stream_type;
  fps = h.fps;
  quality = choice-IsBetween 1 100 _ _ _ h.quality (clamped_quality value);
  resolution = h.resolution;
  bitrate = choice-IsBetween 100 20000 _ _ _ (clamped_bitrate value) h.bitrate;
  gop = h.gop;
}

gop-IsValid : (value : ℤ) (c : ScreenConfig) → IsValid c → IsValid (with_gop value c)
gop-IsValid value c h = record {
  stream_type = h.stream_type;
  fps = h.fps;
  quality = h.quality;
  resolution = h.resolution;
  bitrate = h.bitrate;
  gop = clamped_gop value;
}

resolution-IsValid : (value : ℤ) (c : ScreenConfig) → IsValid c → IsValid (with_resolution value c)
resolution-IsValid value c h = record {
  stream_type = h.stream_type;
  fps = h.fps;
  quality = h.quality;
  resolution = resolution_of-IsResolution c value h.resolution;
  bitrate = h.bitrate;
  gop = h.gop;
}

valid_if :
    (b : Bool) (s : ScreenState) (y : ApiResponse {0} Unit × ScreenState)
    → IsValidState s
    → IsValidState y.1
    → IsValidState (if b then (api_ok_empty, s) else y).1
valid_if true s y h k = h
valid_if false s y h k = k

set_screen-IsValidState :
    (w : FileWrite Text) (req : SetScreenReq) (s : ScreenState)
    → IsValidState s
    → IsValidState (set_screen_handler w req s).1
unfolding set_screen_handler
set_screen-IsValidState w req s h =
    valid_if (str_eq req.screen_type "type") (set_type w req.value s) _
      (record { config = type-IsValid req.value s.config h.config; h264_gop = h.h264_gop })
      (valid_if (str_eq req.screen_type "fps") (set_fps w req.value s) _
        (record { config = fps-IsValid req.value s.config h.config; h264_gop = h.h264_gop })
        (valid_if (str_eq req.screen_type "quality") (set_quality w req.value s) _
          (record { config = quality-IsValid req.value s.config h.config; h264_gop = h.h264_gop })
          (valid_if (str_eq req.screen_type "resolution") (set_resolution w req.value s) _
            (record {
              config = resolution-IsValid req.value s.config h.config;
              h264_gop = h.h264_gop;
            })
            (valid_if (str_eq req.screen_type "gop") (set_gop req.value s)
              (api_err (negsuc 0) "invalid arguments", s)
              (record { config = gop-IsValid req.value s.config h.config; h264_gop = refl }) h))))

-- Any run of requests.
abbrev pub set_all : List (FileWrite Text × SetScreenReq) → ScreenState → ScreenState
set_all [] s = s
set_all ((w, req) ∷ requests) s = set_all requests (set_screen_handler w req s).1

all-IsValidState :
    (requests : List (FileWrite Text × SetScreenReq)) (s : ScreenState)
    → IsValidState s
    → IsValidState (set_all requests s)
all-IsValidState [] s h = h
all-IsValidState ((w, req) ∷ requests) s h =
    all-IsValidState requests (set_screen_handler w req s).1 (set_screen-IsValidState w req s h)

-- From the start, whatever the files hold, after any requests and whatever is written of them: the type is
-- mjpeg or h264, frames per second are 1 to 60, the quality is 1 to 100, the bit rate 100 to 20000, the
-- group of pictures 1 to 100, the size one of five, and the encoder has the configured group of pictures
-- if it was given one.
pub screen_requests-IsValidState :
    (requests : List (FileWrite Text × SetScreenReq))
    (type_file fps_file quality_file resolution_file : Option Text)
    → IsValidState (
        set_all requests (record {
          config = new;
          h264_gop = none;
          type_file = type_file;
          fps_file = fps_file;
          quality_file = quality_file;
          resolution_file = resolution_file;
        }))
screen_requests-IsValidState requests type_file fps_file quality_file resolution_file =
    all-IsValidState requests _ (record { config = new-IsValid; h264_gop = tt })
