-- ===== src/Runtime/Locked.antt =====
-- crates/omacam-daemon/src/service_runtime.rs: each function is what one task does while it holds the
-- lock on the shared state.
use omalens.Prelude.{
  ℕ, Bool, true, false, not, ◌&&◌, ◌||◌, Option, none, some, [], ◌∷◌, ◌++◌, Bytes, codes, ◌==◌, ltb,
  length, is_some, is_none_or, is_empty, if◌then◌else◌, Result, ok, err, wrapping_add,
  saturating_add,
}
use omalens.Camera.{CameraCapabilities, AppliedCameraState, find}
use omalens.Policy.{
  revoked, offline, recovering, idle, OutputState, ready_neutral, output_failed, SessionPolicy,
  snapshot, is_idle, is_ready_live,
}
use omalens.Runtime.{
  Intent, output_supervision, OperationState, op_succeeded, op_failed, CaptureStatsSnapshot,
  RuntimeInner, RuntimeError, operation_id_conflict, invalid_operation_id, same_intent, is_pending,
  is_failed, output_code, same_state, kept_output, cancel, last_cancelled, has_id, trim, replace,
  new_operation, or_else, finished, trust_code,
}

module _ {F : Type 0} where
  unfoldable pub new_runtime : SessionPolicy → RuntimeInner F
  new_runtime policy = record {
    camera_capabilities = none;
    applied_camera = none;
    capture_stats = none;
    revision = 1;
    state = snapshot policy;
    operations = [];
    last_error = none;
  }

  unfoldable pub advance : RuntimeInner F → RuntimeInner F
  advance r = record r { revision = saturating_add r.revision 1 }

  unfoldable pub publish_policy : RuntimeInner F → SessionPolicy → RuntimeInner F
  unfolding advance
  publish_policy r policy =
      let state = record (snapshot policy) { output = kept_output r.state.output policy.output } in
      if same_state r.state state then r else advance (record r { state = state })

  unfoldable pub set_output_state : RuntimeInner F → OutputState → RuntimeInner F
  unfolding advance
  set_output_state r output =
      if output_code r.state.output == output_code output
      then r
      else advance (record r { state = record r.state { output = output } })

  unfoldable pub set_output_failed : RuntimeInner F → Bytes → RuntimeInner F
  unfolding advance
  set_output_failed r message = advance (record r {
    state = record r.state { output = output_failed };
    last_error = some (record {
      id = codes "output";
      intent = output_supervision;
      state = op_failed;
      error_code = some (codes "output_unavailable");
      message = some message;
    });
  })

  abbrev pub is_active : RuntimeInner F → Bool
  is_active r = not (is_idle r.state.capture) || r.state.capture_armed

  -- `invalidate_stop`, less the last `advance`.
  abbrev pub stopped : RuntimeInner F → RuntimeInner F
  stopped r = record r {
    camera_capabilities = none;
    applied_camera = none;
    capture_stats = none;
    operations = cancel r.operations;
    last_error = or_else (last_cancelled r.operations) r.last_error;
    state = record r.state {
      generation = if is_active r then wrapping_add r.state.generation 1 else r.state.generation;
      capture = idle;
      capture_armed = false;
      output = if is_ready_live r.state.output then ready_neutral else r.state.output;
    };
  }

  unfoldable pub invalidate_stop : RuntimeInner F → RuntimeInner F
  unfolding advance
  invalidate_stop r =
      if is_active r || is_some (last_cancelled r.operations)
      then advance (stopped r)
      else stopped r

  -- The second locked part of `invalidate_forget`, and of `connection_lost`.
  unfoldable pub revoke : RuntimeInner F → RuntimeInner F
  unfolding advance
  revoke r = advance (record r { state = record r.state { trust = revoked; connection = offline } })

  unfoldable pub disconnect : RuntimeInner F → RuntimeInner F
  unfolding advance
  disconnect r = advance (record r {
    state = record r.state {
      connection = if trust_code r.state.trust == 2 then offline else recovering;
    };
  })

  abbrev pub is_current : RuntimeInner F → (generation : ℕ) → Bool
  is_current r generation = r.state.generation == generation && r.state.capture_armed

  unfoldable pub publish_capture_stats :
      RuntimeInner F → ℕ → CaptureStatsSnapshot F → RuntimeInner F
  unfolding advance
  publish_capture_stats r generation stats =
      if not (is_current r generation) then r else advance (record r { capture_stats = some stats })

  -- The tests say whether two values have the same JSON.
  unfoldable pub publish_camera :
      (same_capabilities : CameraCapabilities F → CameraCapabilities F → Bool)
      (same_applied : AppliedCameraState F → AppliedCameraState F → Bool)
      → RuntimeInner F
      → (generation : ℕ) → CameraCapabilities F
      → AppliedCameraState F
      → RuntimeInner F
  unfolding advance
  publish_camera same_capabilities same_applied r generation capabilities applied =
      let changed =
        is_none_or r.camera_capabilities (λ c. not (same_capabilities c capabilities))
        || is_none_or r.applied_camera (λ c. not (same_applied c applied)) in
      let s = record r { camera_capabilities = some capabilities; applied_camera = some applied } in
      if not (is_current r generation) then r else if changed then advance s else s

  unfoldable pub is_existing : RuntimeInner F → Bytes → Intent → Result RuntimeError Bool
  is_existing r id intent = elim (find r.operations (has_id id)) [
    | some existing ↦
        if same_intent existing.intent intent then ok true else err operation_id_conflict
    | none ↦ ok false
  ]

  -- `Ok(true)` when the operation is new.
  unfoldable pub enqueue :
      RuntimeInner F → Bytes → Intent → RuntimeInner F × Result RuntimeError Bool
  unfolding advance
  enqueue r id intent = elim (find r.operations (has_id id)) [
    | some existing ↦
        (r, if same_intent existing.intent intent then ok false else err operation_id_conflict)
    | none ↦ if is_empty id || ltb 64 (length id) then (r, err invalid_operation_id) else (
      advance (record r { operations = trim (r.operations ++ new_operation id intent ∷ []) }),
      ok true,
    )
  ]

  unfoldable pub finish :
      RuntimeInner F → Bytes → OperationState → (error_code message : Option Bytes) → RuntimeInner F
  unfolding advance
  finish r id state error_code message = elim (find r.operations (has_id id)) [
    | none ↦ r
    | some o ↦
        if not (is_pending o.state)
        then r
        else advance (record r {
          operations = replace id (finished o state error_code message) r.operations;
          last_error =
              if is_failed state then some (finished o state error_code message) else r.last_error;
        })
  ]

  abbrev pub succeed : RuntimeInner F → Bytes → RuntimeInner F
  succeed r id = finish r id op_succeeded none none

  abbrev pub fail : RuntimeInner F → (id code message : Bytes) → RuntimeInner F
  fail r id code message = finish r id op_failed (some code) (some message)
