-- ===== src/Runtime.antt =====
-- crates/omacam-daemon/src/service_runtime.rs: the state that the daemon's tasks share. Its types, and
-- the tests on them. `f64` is a type; two values compared through
-- their JSON are compared by a test that is given.
pub mod Locked
pub mod Requests
pub mod Operations
pub mod Invariant
pub mod Steps
pub mod Stop
use omalens.Prelude.{
  ℕ, Bool, true, false, not, ◌&&◌, ◌||◌, Option, none, some, List, [], ◌∷◌, ◌++◌, Bytes, bytes_eq,
  codes, ◌==◌, ltb, length, is_some, is_some_and, is_none_or, is_empty, if◌then◌else◌, Result, ok,
  err, wrapping_add, saturating_add,
}
use omalens.Camera.{
  CameraCapabilities, AppliedCameraState, CameraError, RequestedControls, find, bool_eq,
}
use omalens.Policy.{
  TrustState, unpaired, trusted, revoked, ConnectionState, offline, online, recovering,
  CaptureState, idle, awaiting_consent, starting, streaming, stopping, failed, OutputState, missing,
  ready_neutral, ready_live, output_failed, SessionPolicy, SessionSnapshot, snapshot, is_idle,
  is_ready_live,
}

abbrev pub max_operations : ℕ
max_operations = 32

-- The source's intents are strings.
pub data Intent : Type 0 where
  camera_control request_start stop forget_peer run_diagnostics output_supervision : Intent

pub data OperationState : Type 0 where
  pending op_succeeded op_failed : OperationState

pub record OperationSnapshot : Type 0 where
  pub id : Bytes
  pub intent : Intent
  pub state : OperationState
  pub error_code : Option Bytes
  pub message : Option Bytes

pub record CaptureStatsSnapshot (F : Type 0) : Type 0 where
  pub window_ms : ℕ
  pub frames_written : ℕ
  pub dropped_queue_frames_total : ℕ
  pub avg_queue_delay_ms : F
  pub avg_output_write_ms : F
  pub max_output_write_ms : F

-- `revision` is in u64, and every watcher is sent it.
pub record RuntimeInner (F : Type 0) : Type 0 where
  pub camera_capabilities : Option (CameraCapabilities F)
  pub applied_camera : Option (AppliedCameraState F)
  pub capture_stats : Option (CaptureStatsSnapshot F)
  pub revision : ℕ
  pub state : SessionSnapshot
  pub operations : List OperationSnapshot
  pub last_error : Option OperationSnapshot

pub data RuntimeError : Type 0 where
  stale_capture camera_unavailable unknown_camera unsupported_mode : RuntimeError
  select_camera_before_adjusting_controls operation_id_conflict : RuntimeError
  invalid_operation_id service_unavailable peer_not_trusted peer_offline : RuntimeError
  capture_busy output_unavailable : RuntimeError
  invalid_controls : CameraError → RuntimeError

-- The derived equality tests.
abbrev pub intent_code : Intent → ℕ
intent_code camera_control = 0
intent_code request_start = 1
intent_code stop = 2
intent_code forget_peer = 3
intent_code run_diagnostics = 4
intent_code output_supervision = 5

abbrev pub same_intent : Intent → Intent → Bool
same_intent a b = intent_code a == intent_code b

abbrev pub is_pending : OperationState → Bool
is_pending pending = true
is_pending _ = false

abbrev pub is_failed : OperationState → Bool
is_failed op_failed = true
is_failed _ = false

abbrev pub trust_code : TrustState → ℕ
trust_code unpaired = 0
trust_code trusted = 1
trust_code revoked = 2

abbrev pub connection_code : ConnectionState → ℕ
connection_code offline = 0
connection_code online = 1
connection_code recovering = 2

abbrev pub capture_code : CaptureState → ℕ
capture_code idle = 0
capture_code awaiting_consent = 1
capture_code starting = 2
capture_code streaming = 3
capture_code stopping = 4
capture_code failed = 5

abbrev pub output_code : OutputState → ℕ
output_code missing = 0
output_code ready_neutral = 1
output_code ready_live = 2
output_code output_failed = 3

unfoldable pub same_state : SessionSnapshot → SessionSnapshot → Bool
same_state a b =
    trust_code a.trust == trust_code b.trust
    && (connection_code a.connection == connection_code b.connection
        && (capture_code a.capture == capture_code b.capture
            && (output_code a.output == output_code b.output
                && (a.generation == b.generation && bool_eq a.capture_armed b.capture_armed))))

-- `output == Failed || output == Missing && ..`: health that is known is kept.
abbrev pub kept_output : (known published : OutputState) → OutputState
kept_output known published =
    if output_code known == 3 || (output_code published == 0 && not (output_code known == 0))
    then known
    else published

-- What Stop cancels.
abbrev pub is_cancelled : OperationSnapshot → Bool
is_cancelled o =
    (same_intent o.intent request_start || same_intent o.intent camera_control)
    && is_pending o.state

abbrev pub cancelled : OperationSnapshot → OperationSnapshot
cancelled o = record o {
  state = op_failed;
  error_code = some (codes "cancelled");
  message = some (codes "Operation was cancelled by Stop");
}

abbrev pub cancel : List OperationSnapshot → List OperationSnapshot
cancel [] = []
cancel (o ∷ os) = (if is_cancelled o then cancelled o else o) ∷ cancel os

-- The last of the cancelled operations.
abbrev pub last_cancelled : List OperationSnapshot → Option OperationSnapshot
last_cancelled [] = none
last_cancelled (o ∷ os) = elim (last_cancelled os) [
  | some l ↦ some l
  | none ↦ if is_cancelled o then some (cancelled o) else none
]

abbrev pub has_id : Bytes → OperationSnapshot → Bool
has_id id o = bytes_eq o.id id

-- `while operations.len() > MAX_OPERATIONS { operations.pop_front(); }`.
unfoldable pub trim : List OperationSnapshot → List OperationSnapshot
trim [] = []
trim (o ∷ os) = elim (ltb max_operations (length (o ∷ os))) [ true ↦ trim os | false ↦ o ∷ os ]

-- The first operation with an id.
abbrev pub replace : Bytes → OperationSnapshot → List OperationSnapshot → List OperationSnapshot
replace id new [] = []
replace id new (o ∷ os) = if has_id id o then new ∷ os else o ∷ replace id new os

abbrev pub new_operation : Bytes → Intent → OperationSnapshot
new_operation id intent = record {
  id = id;
  intent = intent;
  state = pending;
  error_code = none;
  message = none;
}

-- The first of two that is there.
abbrev pub or_else : {A : Type 0} → Option A → Option A → Option A
or_else (some a) b = some a
or_else none b = b

abbrev pub finished :
    OperationSnapshot → OperationState → (error_code message : Option Bytes) → OperationSnapshot
finished o state error_code message = record o {
  state = state;
  error_code = error_code;
  message = message;
}
