-- ===== src/Provider.antt =====
-- crates/omacam-daemon/src/browser/session.rs: the camera session of the browser provider. Instants are
-- in nanoseconds. `f64` is a type with the operations that the code calls, `V` is the JSON of the
-- phone's statistics, and texts that name a float, and the comparison of two JSON values, are given.
pub mod Session
pub mod Heartbeat
pub mod Access
pub mod Invariant
pub mod Beats
pub mod History
use omalens.Prelude.{
  ℕ, ◌+◌, ◌-◌, ◌*◌, ◌%◌, Bool, true, false, not, ◌&&◌, ◌||◌, Option, none, some, List, [], ◌∷◌,
  ◌++◌, Bytes, bytes_eq, codes, ◌==◌, leb, ltb, length, all, any, is_empty, is_some, is_some_and,
  if◌then◌else◌, Result, ok, err, saturating_add,
}
use omalens.Camera.{
  Floats, CameraCapabilities, AppliedCameraState, RequestedControls, CameraError,
  validate_requested,
}

abbrev pub phone_heartbeat_timeout : ℕ
phone_heartbeat_timeout = 8_000_000_000

abbrev pub command_timeout : ℕ
command_timeout = 10_000_000_000

abbrev pub max_output_pixels : ℕ
max_output_pixels = 8_294_400

abbrev pub recent_command_id_limit : ℕ
recent_command_id_limit = 256

-- u16, u16 and u8.
pub record VideoFormat : Type 0 where
  pub width : ℕ
  pub height : ℕ
  pub fps : ℕ

unfoldable pub is_output_format : VideoFormat → Bool
is_output_format f =
    (leb 320 f.width && leb f.width 4_096)
    && ((leb 240 f.height && leb f.height 4_096)
        && (f.width % 2 == 0
            && (f.height % 2 == 0
                && (leb (f.width * f.height) max_output_pixels && (leb 15 f.fps && leb f.fps 60)))))

-- The source's status is a string.
pub data Status : Type 0 where
  waiting live stopped : Status

abbrev pub is_waiting : Status → Bool
is_waiting waiting = true
is_waiting _ = false

abbrev pub is_live : Status → Bool
is_live live = true
is_live _ = false

abbrev pub is_stopped : Status → Bool
is_stopped stopped = true
is_stopped _ = false

pub record SessionStats (V : Type 0) : Type 0 where
  pub phone : Option V
  pub received_frames : ℕ
  pub received_keyframes : ℕ
  pub received_bytes : ℕ
  pub dropped_frames : ℕ
  pub written_frames : ℕ
  pub preview_frames : ℕ
  pub last_frame_age_ms : Option ℕ
  pub last_frame_at : Option ℕ

pub record CameraCommand (F : Type 0) : Type 0 where
  pub session_id : Bytes
  pub command_id : Bytes
  pub expected_revision : ℕ
  pub controls : RequestedControls F

pub data CommandOutcomeStatus : Type 0 where
  applied_as_asked adjusted rejected : CommandOutcomeStatus

pub record CommandOutcome : Type 0 where
  pub command_id : Bytes
  pub status : CommandOutcomeStatus
  pub message : Option Bytes

pub record PreviewFrame : Type 0 where
  pub captured_at : ℕ
  pub jpeg : Bytes

pub record CameraSession (F V : Type 0) : Type 0 where
  pub session_id : Bytes
  pub revision : ℕ
  pub status : Status
  pub capabilities : CameraCapabilities F
  pub applied : Option (AppliedCameraState F)
  pub pending : Option (CameraCommand F)
  pub last_command_id : Option Bytes
  pub last_command_outcome : Option CommandOutcome
  pub error : Option Bytes
  pub stats : SessionStats V
  pub heartbeat : ℕ
  pub cancel : Bool
  pub preview : Option PreviewFrame
  pub pending_since : Option ℕ
  pub output_format : Option VideoFormat
  pub seen_command_ids : List Bytes

pub data CommandError : Type 0 where
  not_live stale_revision pending_command invalid_id reused_id live_format_change : CommandError
  invalid_controls : CameraError → CommandError

abbrev pub is_id_byte : ℕ → Bool
is_id_byte b =
    (leb b'0' b && leb b b'9')
    || ((leb b'A' b && leb b b'Z') || ((leb b'a' b && leb b b'z') || (b == b'-' || b == b'_')))

abbrev pub is_command_id : Bytes → Bool
is_command_id id = not (is_empty id || (ltb 128 (length id) || not (all id is_id_byte)))

abbrev pub pop_front : List Bytes → List Bytes
pop_front [] = []
pop_front (x ∷ xs) = xs

abbrev pub remember : List Bytes → Bytes → List Bytes
remember seen id =
    if ltb recent_command_id_limit (length (seen ++ id ∷ []))
    then pop_front (seen ++ id ∷ [])
    else seen ++ id ∷ []

abbrev pub wants_stop : Option Bool → Bool
wants_stop (some b) = b
wants_stop none = false

abbrev pub id_of : {F : Type 0} → Option (CameraCommand F) → Bytes
id_of none = []
id_of (some c) = c.command_id

module _ {V : Type 0} where
  unfoldable pub note_received :
      SessionStats V → (keyframe : Bool) → (bytes now : ℕ) → SessionStats V
  note_received s keyframe bytes now = record s {
    received_frames = saturating_add s.received_frames 1;
    received_keyframes = saturating_add s.received_keyframes (if keyframe then 1 else 0);
    received_bytes = saturating_add s.received_bytes bytes;
    last_frame_at = some now;
    last_frame_age_ms = some 0;
  }

  abbrev pub note_dropped : SessionStats V → ℕ → SessionStats V
  note_dropped s count = record s { dropped_frames = saturating_add s.dropped_frames count }

  abbrev pub note_written : SessionStats V → SessionStats V
  note_written s = record s { written_frames = saturating_add s.written_frames 1 }

  abbrev pub note_preview : SessionStats V → SessionStats V
  note_preview s = record s { preview_frames = saturating_add s.preview_frames 1 }

  abbrev pub no_stats : SessionStats V
  no_stats = record {
    phone = none;
    received_frames = 0;
    received_keyframes = 0;
    received_bytes = 0;
    dropped_frames = 0;
    written_frames = 0;
    preview_frames = 0;
    last_frame_age_ms = none;
    last_frame_at = none;
  }

abbrev pub timeout_message : Bytes
timeout_message = codes "Phone did not acknowledge the camera command before its deadline"

abbrev pub Enqueued : Type 0 → Type 0 → Type 0
Enqueued F V = CameraSession F V × Result CommandError (Unit {0})
