-- ===== src/Provider/Session.antt =====
-- crates/omacam-daemon/src/browser/session.rs: the operations on the session, less the heartbeat.
use omalens.Prelude.{
  ℕ, ◌-◌, Bool, true, false, not, ◌&&◌, ◌||◌, none, some, [], ◌∷◌, ◌*◌, length, take, drop, Bytes,
  bytes_eq, codes, ◌==◌, leb, ltb, any, is_some, is_some_and, if◌then◌else◌, ok, err,
  saturating_add,
}
use omalens.Camera.{
  Floats, CameraCapabilities, AppliedCameraState, RequestedControls, validate_requested,
}
use omalens.Provider.{
  VideoFormat, waiting, live, stopped, CameraCommand, rejected, CameraSession, not_live,
  stale_revision, pending_command, invalid_id, reused_id, live_format_change, invalid_controls,
  Enqueued, no_stats, note_preview, phone_heartbeat_timeout, command_timeout, is_waiting, is_live,
  is_stopped, is_command_id, remember, wants_stop, id_of, timeout_message,
}

module _ {F : Type 0} (f64 : Floats F) where
  -- The fixed format against the controls.
  abbrev pub changes_format : RequestedControls F → VideoFormat → Bool
  changes_format c fixed =
      is_some_and c.width (λ width. not (width == fixed.width))
      || (is_some_and c.height (λ height. not (height == fixed.height))
          || is_some_and c.fps
              (λ fps. f64.lt (f64.literal 1 2) (f64.abs (f64.sub fps (f64.literal fixed.fps 1)))))

-- The guards on the bytes of a preview picture.
abbrev pub is_jpeg : Bytes → Bool
is_jpeg bytes =
    leb (length bytes) (256 * 1_024)
    && (bytes_eq (take 2 bytes) (255 ∷ 216 ∷ [])
        && bytes_eq (drop (length bytes - 2) bytes) (255 ∷ 217 ∷ []))

module _ {F V : Type 0} where
  -- `CameraCapabilities::default`.
  unfoldable pub new_session : Bytes → (now : ℕ) → CameraSession F V
  new_session session_id now = record {
    session_id = session_id;
    revision = 0;
    status = waiting;
    capabilities = record {
      cameras = [];
      zoom = none;
      exposure_compensation = none;
      torch = false;
      focus_modes = [];
      screen_dim_supported = false;
    };
    applied = none;
    pending = none;
    last_command_id = none;
    last_command_outcome = none;
    error = none;
    stats = no_stats;
    heartbeat = now;
    cancel = false;
    preview = none;
    pending_since = none;
    output_format = none;
    seen_command_ids = [];
  }

  unfoldable pub activate :
      CameraSession F V
      → CameraCapabilities F
      → AppliedCameraState F
      → VideoFormat
      → (now : ℕ) → CameraSession F V
  activate s capabilities applied output_format now = record s {
    capabilities = capabilities;
    applied = some applied;
    output_format = some output_format;
    heartbeat = now;
    status = live;
    error = none;
    revision = saturating_add s.revision 1;
  }

  -- What the offer's handler does under the lock, after its other checks; `false` is the conflict.
  unfoldable pub activate_waiting :
      CameraSession F V
      → CameraCapabilities F
      → AppliedCameraState F
      → VideoFormat
      → (now : ℕ) → CameraSession F V × Bool
  activate_waiting s capabilities applied output_format now =
      if not (is_waiting s.status)
      then (s, false)
      else (activate s capabilities applied output_format now, true)

  unfoldable pub stop : CameraSession F V → (reason : Bytes) → CameraSession F V
  stop s reason = if is_stopped s.status then s else record s {
    cancel = true;
    pending = none;
    pending_since = none;
    preview = none;
    status = stopped;
    error = some reason;
    revision = saturating_add s.revision 1;
  }

  unfoldable pub expire_heartbeat : CameraSession F V → (now : ℕ) → CameraSession F V × Bool
  expire_heartbeat s now =
      if is_live s.status && ltb phone_heartbeat_timeout (now - s.heartbeat)
      then (stop s (codes "Phone heartbeat expired"), true)
      else (s, false)

  unfoldable pub expire_pending : CameraSession F V → (now : ℕ) → CameraSession F V × Bool
  expire_pending s now =
      if is_some s.pending
        && is_some_and s.pending_since (λ since. leb command_timeout (now - since))
      then (
        record s {
          pending = none;
          pending_since = none;
          last_command_id = some (id_of s.pending);
          last_command_outcome = some (record {
            command_id = id_of s.pending;
            status = rejected;
            message = some timeout_message;
          });
          error = some timeout_message;
          revision = saturating_add s.revision 1;
        },
        true,
      )
      else (s, false)

  -- The reader of preview.rs for one line that decodes to these bytes. It ends on a cancelled session,
  -- which a session stays, so a later line changes nothing either.
  unfoldable pub take_preview : CameraSession F V → Bytes → (now : ℕ) → CameraSession F V
  take_preview s bytes now = if not (is_jpeg bytes) then s else if s.cancel then s else record s {
    preview = some (record { captured_at = now; jpeg = bytes });
    stats = note_preview s.stats;
  }

  abbrev pub taken : CameraSession F V → CameraCommand F → (now : ℕ) → CameraSession F V
  taken s command now = record s {
    pending = some command;
    pending_since = some now;
    seen_command_ids = remember s.seen_command_ids command.command_id;
    last_command_outcome = none;
    error = none;
  }

  module _ (f64 : Floats F) where
    unfoldable pub enqueue_command : CameraSession F V → CameraCommand F → (now : ℕ) → Enqueued F V
    enqueue_command s command now =
        if not (bytes_eq command.session_id s.session_id)
        then (s, err stale_revision)
        else if wants_stop command.controls.stop
        then (stop s (codes "Stopped from desktop"), ok tt)
        else if not (is_live s.status)
        then (s, err not_live)
        else if not (command.expected_revision == s.revision)
        then (s, err stale_revision)
        else if is_some s.pending
        then (s, err pending_command)
        else if not (is_command_id command.command_id)
        then (s, err invalid_id)
        else if any s.seen_command_ids (λ id. bytes_eq id command.command_id)
        then (s, err reused_id)
        else if is_some_and s.output_format (changes_format f64 command.controls)
        then (s, err live_format_change)
        else elim (validate_requested f64 command.controls s.capabilities) [
          | err e ↦ (s, err (invalid_controls e))
          | ok _ ↦ (taken s command now, ok tt)
        ]
