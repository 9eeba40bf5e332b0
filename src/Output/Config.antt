-- ===== src/Output/Config.antt =====
-- crates/omacam-output/src/config.rs: the backend and the format of the output. Text is its bytes,
-- and `str::parse` at usize is a parameter.
pub mod Bounds
use omalens.Prelude.{
  ℕ, ◌*◌, ◌/◌, ◌%◌, ◌^◌, Bool, not, ◌&&◌, ◌||◌, Option, none, some, List, [], ◌∷◌, Bytes, codes,
  bytes_eq, ◌==◌, leb, ltb, min, if◌then◌else◌, Result, ok, err, ◌>>=◌, ◌>>◌, reject_if, ok_or,
  replicate, ◌++◌, ◌-◌,
}

abbrev pub output_width : ℕ
output_width = 1_280

abbrev pub output_height : ℕ
output_height = 720

abbrev pub output_fps : ℕ
output_fps = 30

abbrev pub raw_frame_queue_capacity : ℕ
raw_frame_queue_capacity = 2

-- In milliseconds.
abbrev pub stale_frame_limit : ℕ
stale_frame_limit = 400

pub data OutputBackend : Type 0 where
  v4l2 pipe_wire : OutputBackend

-- One for each message.
pub data ConfigError : Type 0 where
  unknown_backend format_flags_required width_not_integer height_not_integer : ConfigError
  fps_not_integer unsupported_format : ConfigError

unfoldable pub parse_backend : Bytes → Result ConfigError OutputBackend
parse_backend value =
    if bytes_eq value (codes "v4l2")
    then ok v4l2
    else if bytes_eq value (codes "pipewire")
    then ok pipe_wire
    else err unknown_backend

pub record VideoFormat : Type 0 where
  pub width : ℕ  -- usize
  pub height : ℕ  -- usize
  pub fps : ℕ  -- usize

abbrev pub default_format : VideoFormat
default_format = record { width = output_width; height = output_height; fps = output_fps }

-- `saturating_mul` of usize, of 64 bits.
abbrev pub saturating_mul : ℕ → ℕ → ℕ
saturating_mul a b = min (a * b) 0xffff_ffff_ffff_ffff

abbrev pub is_supported : VideoFormat → Bool
is_supported f =
    leb 320 f.width
    && (leb f.width 4_096
        && (leb 240 f.height
            && (leb f.height 4_096
                && (f.width % 2 == 0
                    && (f.height % 2 == 0
                        && (leb (saturating_mul f.width f.height) 8_294_400
                            && (leb 15 f.fps && leb f.fps 60)))))))

module _ (parse_usize : Bytes → Option ℕ) where
  unfoldable pub parse_numbers : (width height fps : Bytes) → Result ConfigError VideoFormat
  parse_numbers width height fps = do
    w ← ok_or (parse_usize width) width_not_integer
    h ← ok_or (parse_usize height) height_not_integer
    f ← ok_or (parse_usize fps) fps_not_integer
    let format : VideoFormat = record { width = w; height = h; fps = f }
    reject_if (not (is_supported format)) unsupported_format
    ok format

  -- `VideoFormat::parse`, on the arguments that are left.
  unfoldable pub parse : List Bytes → Result ConfigError VideoFormat
  parse [] = ok default_format
  parse (width_flag ∷ width ∷ height_flag ∷ height ∷ fps_flag ∷ fps ∷ []) =
      if not (bytes_eq width_flag (codes "--width"))
        || (not (bytes_eq height_flag (codes "--height"))
            || not (bytes_eq fps_flag (codes "--fps")))
      then err format_flags_required
      else parse_numbers width height fps
  parse _ = err format_flags_required

unfoldable pub frame_bytes : VideoFormat → ℕ
frame_bytes f = f.width * f.height * 3 / 2

-- In nanoseconds.
unfoldable pub frame_interval : VideoFormat → ℕ
frame_interval f = 1_000_000_000 / f.fps

-- `black_i420_frame` of mux.rs: a vector of zeroes, whose two parts are filled.
unfoldable pub black_i420_frame : VideoFormat → Bytes
unfolding frame_bytes
black_i420_frame f =
    replicate (f.width * f.height) 16 ++ replicate (frame_bytes f - f.width * f.height) 128
