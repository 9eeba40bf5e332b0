-- ===== src/Runtime/Steps.antt =====
-- crates/omacam-daemon/src/service_runtime.rs: histories of the shared state. Every task takes the lock for
-- each part of its work, so whatever the tasks do, in whatever order, is a list of locked parts.
use omalens.Prelude.{ℕ, Bool, List, [], ◌∷◌, Bytes}
use omalens.Camera.{CameraCapabilities, AppliedCameraState}
use omalens.Policy.{SessionPolicy, OutputState}
use omalens.Runtime.{Intent, CaptureStatsSnapshot, RuntimeInner}
use omalens.Runtime.Locked.{
  publish_policy, set_output_state, set_output_failed, invalidate_stop, revoke, disconnect,
  publish_capture_stats, publish_camera, enqueue, succeed, fail,
}

pub data Part (F : Type 0) : Type 0 where
  policy_published : SessionPolicy → Part F
  output_set : OutputState → Part F
  output_lost : Bytes → Part F
  stop_invalidated peer_revoked connection_dropped : Part F
  stats_published : (generation : ℕ) → CaptureStatsSnapshot F → Part F
  camera_published : (generation : ℕ) → CameraCapabilities F → AppliedCameraState F → Part F
  enqueued : Bytes → Intent → Part F
  succeeded : Bytes → Part F
  failed_with : (id code message : Bytes) → Part F

module _ {F : Type 0} (same_capabilities : CameraCapabilities F → CameraCapabilities F → Bool)
    (same_applied : AppliedCameraState F → AppliedCameraState F → Bool) where
  unfoldable pub take_part : RuntimeInner F → Part F → RuntimeInner F
  take_part r (policy_published policy) = publish_policy r policy
  take_part r (output_set output) = set_output_state r output
  take_part r (output_lost message) = set_output_failed r message
  take_part r stop_invalidated = invalidate_stop r
  take_part r peer_revoked = revoke r
  take_part r connection_dropped = disconnect r
  take_part r (stats_published generation stats) = publish_capture_stats r generation stats
  take_part r (camera_published generation capabilities applied) =
      publish_camera same_capabilities same_applied r generation capabilities applied
  take_part r (enqueued id intent) = (enqueue r id intent).0
  take_part r (succeeded id) = succeed r id
  take_part r (failed_with id code message) = fail r id code message

  unfoldable pub take_parts : RuntimeInner F → List (Part F) → RuntimeInner F
  take_parts r [] = r
  take_parts r (p ∷ ps) = take_parts (take_part r p) ps
