-- ===== src/Runtime/Requests.antt =====
-- crates/omacam-daemon/src/service_runtime.rs: the requests, each a chain of locked parts. `sent` is the
-- queue of intents to the service; a send fails once the receiver is gone.
use omalens.Prelude.{
  ℕ, Bool, true, false, not, ◌&&◌, ◌||◌, Option, none, some, List, [], ◌∷◌, ◌++◌, Bytes, bytes_eq,
  codes, ◌==◌, is_some, any, if◌then◌else◌, Result, ok, err,
}
use omalens.Camera.{
  Floats, CameraCapabilities, AppliedCameraState, RequestedControls, find, validate_requested,
}
use omalens.Policy.{is_trusted, is_online, is_idle}
use omalens.Runtime.{
  camera_control, request_start, stop, forget_peer, run_diagnostics, RuntimeInner, RuntimeError,
  stale_capture, camera_unavailable, unknown_camera, unsupported_mode,
  select_camera_before_adjusting_controls, service_unavailable, peer_not_trusted, peer_offline,
  capture_busy, output_unavailable, invalid_controls, output_code,
}
use omalens.Runtime.Locked.{
  is_current, enqueue, is_existing, fail, succeed, invalidate_stop, revoke, disconnect,
}

pub data ServiceIntent (F : Type 0) : Type 0 where
  control_camera : (operation_id : Bytes) (generation : ℕ) → RequestedControls F → ServiceIntent F
  start_capture stop_capture forget : (operation_id : Bytes) → ServiceIntent F

pub record ServiceRuntime (F : Type 0) : Type 0 where
  pub inner : RuntimeInner F
  pub sent : List (ServiceIntent F)

abbrev pub Outcome : Type 0
Outcome = Result RuntimeError (Unit {0})

abbrev pub Done : Type 0 → Type 0
Done F = ServiceRuntime F × Outcome

abbrev pub given {ℓ} : {A : Type ℓ} → Option A → A → A
given none fallback = fallback
given (some a) fallback = a

abbrev pub wants_stop : Option Bool → Bool
wants_stop (some b) = b
wants_stop none = false

module _ {F : Type 0} where
  unfoldable pub send : ServiceRuntime F → (receives : Bool) → Bytes → ServiceIntent F → Done F
  send s true id intent = (record s { sent = s.sent ++ intent ∷ [] }, ok tt)
  send s false id intent = (
    record s {
      inner =
          fail s.inner id (codes "service_unavailable") (codes "service intent receiver stopped");
    },
    err service_unavailable,
  )

  -- After `enqueue`: an operation that is there already is done.
  abbrev pub accepted :
      ServiceRuntime F
      → RuntimeInner F × Result RuntimeError Bool
      → (RuntimeInner F → Done F)
      → Done F
  accepted s (r, ok true) next = next r
  accepted s (r, ok false) next = (record s { inner = r }, ok tt)
  accepted s (r, err e) next = (record s { inner = r }, err e)

  unfoldable pub request_stop : ServiceRuntime F → (receives : Bool) → Bytes → Done F
  request_stop s receives id =
      accepted s (enqueue s.inner id stop)
        (λ r. send (record s { inner = invalidate_stop r }) receives id (stop_capture id))

  -- `invalidate_forget` and `connection_lost`.
  abbrev pub invalidate_forget : RuntimeInner F → RuntimeInner F
  invalidate_forget r = revoke (invalidate_stop r)

  abbrev pub connection_lost : RuntimeInner F → RuntimeInner F
  connection_lost r = disconnect (invalidate_stop r)

  unfoldable pub request_forget : ServiceRuntime F → (receives : Bool) → Bytes → Done F
  request_forget s receives id =
      accepted s (enqueue s.inner id forget_peer)
        (λ r. send (record s { inner = invalidate_forget r }) receives id (forget id))

  unfoldable pub request_diagnostics : ServiceRuntime F → Bytes → Done F
  request_diagnostics s id =
      accepted s (enqueue s.inner id run_diagnostics)
        (λ r. (record s { inner = succeed r id }, ok tt))

  -- The order of the checks of `request_start`.
  unfoldable pub may_start : RuntimeInner F → Outcome
  may_start r =
      if not (is_trusted r.state.trust)
      then err peer_not_trusted
      else if not (is_online r.state.connection)
      then err peer_offline
      else if not (is_idle r.state.capture)
      then err capture_busy
      else if output_code r.state.output == 0 || output_code r.state.output == 3
      then err output_unavailable
      else ok tt

  abbrev pub checked : ServiceRuntime F → Outcome → Done F → Done F
  checked s (ok _) next = next
  checked s (err e) next = (s, err e)

  unfoldable pub request_start_capture : ServiceRuntime F → (receives : Bool) → Bytes → Done F
  request_start_capture s receives id = elim (is_existing s.inner id request_start) [
    | err e ↦ (s, err e)
    | ok true ↦ (s, ok tt)
    | ok false ↦ checked s (may_start s.inner) (
        accepted s (enqueue s.inner id request_start)
          (λ r. send (record s { inner = r }) receives id (start_capture id)))
  ]

  module _ (f64 : Floats F) (same_bits : F → F → Bool) where
    -- From `find` on: the camera that is meant, and its mode.
    unfoldable pub check_mode :
        CameraCapabilities F → AppliedCameraState F → RequestedControls F → Outcome
    check_mode capabilities applied controls =
        let id = given controls.camera_id applied.camera_id in
        elim (find capabilities.cameras (λ camera. bytes_eq camera.id id)) [
          | none ↦ err unknown_camera
          | some camera ↦
              if not (bytes_eq id applied.camera_id)
                && (is_some controls.zoom || (is_some controls.exposure || is_some controls.torch))
              then err select_camera_before_adjusting_controls
              else if not (
                  any camera.modes (λ mode.
                    mode.width == given controls.width applied.width
                    && (mode.height == given controls.height applied.height
                        && same_bits mode.fps (given controls.fps applied.fps))))
              then err unsupported_mode
              else ok tt
        ]

    unfoldable pub check_controls :
        Option (CameraCapabilities F)
        → Option (AppliedCameraState F)
        → RequestedControls F
        → Outcome
    check_controls none applied controls = err camera_unavailable
    check_controls (some capabilities) none controls = err camera_unavailable
    check_controls (some capabilities) (some applied) controls =
        elim (validate_requested f64 controls capabilities) [
          | err e ↦ err (invalid_controls e)
          | ok _ ↦ check_mode capabilities applied controls
        ]

    unfoldable pub request_camera_control :
        ServiceRuntime F
        → (receives : Bool) → Bytes
        → (generation : ℕ) → RequestedControls F
        → Done F
    request_camera_control s receives id generation controls =
        if wants_stop controls.stop
        then request_stop s receives id
        else if not (is_current s.inner generation)
        then (s, err stale_capture)
        else checked s (check_controls s.inner.camera_capabilities s.inner.applied_camera controls)
            (accepted s (enqueue s.inner id camera_control) (λ r.
              send (record s { inner = r }) receives id (control_camera id generation controls)))
