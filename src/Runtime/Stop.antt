-- ===== src/Runtime/Stop.antt =====
-- crates/omacam-daemon/src/service_runtime.rs: what a stop and a repeated request do.
use mathlib.Core.Path.{subst}
use omalens.Prelude.{
  is_empty-length, saturating_add, ℕ, ◌≡◌, ◌≢◌, refl, sym, Bool, true, false, not, ◌||◌, Option,
  none, some, List, [], ◌∷◌, Bytes, Result, ok, err, if◌then◌else◌, arith, if_both, All, is_empty,
  length, ltb, is_some,
}
use omalens.Camera.{Floats, CameraCapabilities, AppliedCameraState, RequestedControls, find}
use omalens.Policy.{idle, OutputState, is_ready_live}
use omalens.Runtime.{
  is_pending, pending, camera_control, Intent, request_start, stop, forget_peer, run_diagnostics,
  OperationSnapshot, RuntimeInner, RuntimeError, operation_id_conflict, stale_capture, has_id,
  cancel, replace, finished, same_intent, last_cancelled, op_failed, CaptureStatsSnapshot,
}
use omalens.Runtime.Locked.{
  stopped, invalidate_stop, is_active, publish_camera, publish_capture_stats, enqueue, is_existing,
  finish, fail,
}
use omalens.Runtime.Operations.{IsOperationId}
use omalens.Runtime.Requests.{
  ServiceRuntime, Done, send, accepted, request_stop, request_forget, request_diagnostics,
  request_start_capture, request_camera_control, stop_capture, wants_stop,
}

-- Neither a start of the capture nor a camera control is waiting for its outcome.
abbrev pub IsSettled : OperationSnapshot → Type 0
IsSettled o = (o.state ≡ pending) → (o.intent ≢ request_start) × (o.intent ≢ camera_control)

-- Nothing is captured, shown or under way.
pub record IsStopped {F : Type 0} (r : RuntimeInner F) : Type 0 where
  pub capture_idle : r.state.capture ≡ idle
  pub disarmed : r.state.capture_armed ≡ false
  pub dark : r.state.output ≢ OutputState.ready_live
  pub no_capabilities : r.camera_capabilities ≡ none
  pub no_camera : r.applied_camera ≡ none
  pub no_stats : r.capture_stats ≡ none
  pub none_pending : All IsSettled r.operations

cancel_all : (os : List OperationSnapshot) → All IsSettled (cancel os)
cancel_all [] = tt
cancel_all (o ∷ os) = (λ p. (λ e. ground arith, λ e. ground arith), cancel_all os)

replace_all :
    (id : Bytes) (new : OperationSnapshot) (os : List OperationSnapshot)
    → IsSettled new
    → All IsSettled os
    → All IsSettled (replace id new os)
replace_all id new [] k h = tt
replace_all id new (o ∷ os) k h =
    if_both (All IsSettled) (has_id id o) (k, h.1) (h.0, replace_all id new os k h.1)

dark_output :
    (output : OutputState)
    → (if is_ready_live output then OutputState.ready_neutral else output) ≢ OutputState.ready_live
dark_output output = λ e. ground arith

module _ {F : Type 0} where
  invalidate_stop-IsStopped : (r : RuntimeInner F) → IsStopped (invalidate_stop r)
  unfolding invalidate_stop
  invalidate_stop-IsStopped r =
      if_both IsStopped (is_active r || is_some (last_cancelled r.operations)) whole whole
    where
      whole : {revision : ℕ} → IsStopped (record (stopped r) { revision = revision })
      whole = record {
        capture_idle = refl;
        disarmed = refl;
        dark = dark_output r.state.output;
        no_capabilities = refl;
        no_camera = refl;
        no_stats = refl;
        none_pending = cancel_all r.operations;
      }

  fail-IsStopped :
      (r : RuntimeInner F) (id code message : Bytes)
      → IsStopped r
      → IsStopped (fail r id code message)
  unfolding finish
  fail-IsStopped r id code message v = go (find r.operations (has_id id))
    where
      ended : OperationSnapshot → RuntimeInner F
      ended o = record r {
        operations = replace id (finished o op_failed (some code) (some message)) r.operations;
        last_error = some (finished o op_failed (some code) (some message));
        revision = saturating_add r.revision 1;
      }

      go :
          (f : Option OperationSnapshot)
          → IsStopped (elim f as (λ x. RuntimeInner F) [
            | none ↦ r
            | some o ↦ if not (is_pending o.state) then r else ended o
          ])
      go none = v
      go (some o) = if_both IsStopped (not (is_pending o.state)) v (record {
        capture_idle = v.capture_idle;
        disarmed = v.disarmed;
        dark = v.dark;
        no_capabilities = v.no_capabilities;
        no_camera = v.no_camera;
        no_stats = v.no_stats;
        none_pending =
            replace_all id (finished o op_failed (some code) (some message)) r.operations (λ p. cc)
              v.none_pending;
      })

  send-IsStopped :
      (s : ServiceRuntime F) (receives : Bool) (id : Bytes)
      → IsStopped s.inner
      → IsStopped (send s receives id (stop_capture id)).0.inner
  unfolding send
  send-IsStopped s true id v = v
  send-IsStopped s false id v = fail-IsStopped s.inner id _ _ v

  enqueue_new :
      (r : RuntimeInner F) (id : Bytes) (intent : Intent)
      → find r.operations (has_id id) ≡ none
      → IsOperationId id
      → (enqueue r id intent).1 ≡ ok true
  unfolding enqueue
  enqueue_new r id intent absent v =
      let fits : (is_empty id || ltb 64 (length id)) ≡ false = ground (arith, is_empty-length id) in
      rw (absent, fits, enqueue)

  accepted_new :
      (s : ServiceRuntime F) (e : RuntimeInner F × Result RuntimeError Bool)
      (next : RuntimeInner F → Done F)
      → e.1 ≡ ok true
      → accepted s e next ≡ next e.0
  accepted_new s (r, ok true) next h = refl
  accepted_new s (r, ok false) next h = cc
  accepted_new s (r, err e) next h = cc

  request_stop-IsStopped :
      (s : ServiceRuntime F) (receives : Bool) (id : Bytes)
      → find s.inner.operations (has_id id) ≡ none
      → IsOperationId id
      → IsStopped (request_stop s receives id).0.inner
  unfolding request_stop
  request_stop-IsStopped s receives id absent v =
      let whole =
        accepted_new s (enqueue s.inner id stop)
          (λ r. send (record s { inner = invalidate_stop r }) receives id (stop_capture id))
          (enqueue_new s.inner id stop absent v) in
      subst (λ (d : Done F). IsStopped d.0.inner) (sym whole)
        (send-IsStopped (record s { inner = invalidate_stop (enqueue s.inner id stop).0 }) receives
          id (invalidate_stop-IsStopped (enqueue s.inner id stop).0))

  -- Nothing of a capture is published.
  publish_stats_stopped :
      (r : RuntimeInner F) (generation : ℕ) (stats : CaptureStatsSnapshot F)
      → r.state.capture_armed ≡ false
      → publish_capture_stats r generation stats ≡ r
  unfolding publish_capture_stats
  publish_stats_stopped r generation stats h = ground arith

  module _ (f64 : Floats F) (same_bits : F → F → Bool)
      (same_capabilities : CameraCapabilities F → CameraCapabilities F → Bool)
      (same_applied : AppliedCameraState F → AppliedCameraState F → Bool) where
    publish_camera_stopped :
        (r : RuntimeInner F) (generation : ℕ) (capabilities : CameraCapabilities F)
        (applied : AppliedCameraState F)
        → r.state.capture_armed ≡ false
        → publish_camera same_capabilities same_applied r generation capabilities applied ≡ r
    unfolding publish_camera
    publish_camera_stopped r generation capabilities applied h = ground arith

    request_camera_control_stopped :
        (s : ServiceRuntime F) (receives : Bool) (id : Bytes) (generation : ℕ)
        (controls : RequestedControls F)
        → s.inner.state.capture_armed ≡ false
        → wants_stop controls.stop ≡ false
        → request_camera_control f64 same_bits s receives id generation controls
          ≡ (s, err stale_capture)
    unfolding request_camera_control
    request_camera_control_stopped s receives id generation controls h k = ground arith

    -- After a stop with a new id of 1 to 64 bytes, whether its intent could be sent or not: the capture
    -- is idle and disarmed, the output is not live, the camera and the statistics are cleared, and no
    -- operation that is pending is a start or a camera control. From then on, until the state changes, a camera state or
    -- statistics of any generation are dropped, and a camera control that is not a stop is refused as
    -- stale.
    pub request_stop_disarms :
        (s : ServiceRuntime F) (receives : Bool) (id : Bytes)
        → find s.inner.operations (has_id id) ≡ none
        → IsOperationId id
        → let t = (request_stop s receives id).0 in
          IsStopped t.inner
          × ((generation : ℕ) (capabilities : CameraCapabilities F) (applied : AppliedCameraState F)
              → publish_camera same_capabilities same_applied t.inner generation capabilities
                  applied
                ≡ t.inner)
          × ((generation : ℕ) (stats : CaptureStatsSnapshot F)
              → publish_capture_stats t.inner generation stats ≡ t.inner)
          × ((again : Bool) (other : Bytes) (generation : ℕ) (controls : RequestedControls F)
              → wants_stop controls.stop ≡ false
              → request_camera_control f64 same_bits t again other generation controls
                ≡ (t, err stale_capture))
    request_stop_disarms s receives id absent v =
        let t = (request_stop s receives id).0 in
        let after = request_stop-IsStopped s receives id absent v in
        (
          after,
          λ generation capabilities applied.
              publish_camera_stopped t.inner generation capabilities applied after.disarmed,
          λ generation stats. publish_stats_stopped t.inner generation stats after.disarmed,
          λ again other generation controls.
              request_camera_control_stopped t again other generation controls after.disarmed,
        )

  -- What a request is answered whose id is there already.
  abbrev pub repeated : ServiceRuntime F → OperationSnapshot → Intent → Done F
  repeated s existing intent =
      (s, if same_intent existing.intent intent then ok tt else err operation_id_conflict)

  accepted_old :
      (s : ServiceRuntime F) (id : Bytes) (intent : Intent) (existing : OperationSnapshot)
      (next : RuntimeInner F → Done F)
      → find s.inner.operations (has_id id) ≡ some existing
      → accepted s (enqueue s.inner id intent) next ≡ repeated s existing intent
  unfolding enqueue
  accepted_old s id intent existing next h =
      rw (h, enqueue) (go (same_intent existing.intent intent))
    where
      go :
          (b : Bool)
          → accepted s (s.inner, if b then ok false else err operation_id_conflict) next
            ≡ (s, if b then ok tt else err operation_id_conflict)
      go true = refl
      go false = refl

  -- A request whose id is that of an operation in the queue changes nothing, sends nothing, and is answered
  -- with success if it is the same request and with a conflict if it is another: for a stop, for
  -- forgetting the peer, for diagnostics and for a start.
  pub requests_repeated :
      (s : ServiceRuntime F) (receives : Bool) (id : Bytes) (existing : OperationSnapshot)
      → find s.inner.operations (has_id id) ≡ some existing
      → (request_stop s receives id ≡ repeated s existing stop)
        × (request_forget s receives id ≡ repeated s existing forget_peer)
        × (request_diagnostics s id ≡ repeated s existing run_diagnostics)
        × (request_start_capture s receives id ≡ repeated s existing request_start)
  unfolding request_stop request_forget request_diagnostics request_start_capture is_existing
  requests_repeated s receives id existing h = (
    accepted_old s id stop existing _ h,
    accepted_old s id forget_peer existing _ h,
    accepted_old s id run_diagnostics existing _ h,
    ground arith,
  )
