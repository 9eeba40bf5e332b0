-- ===== src/Tests/Runtime.antt =====
-- A runtime with a few operations.
use omalens.Prelude.{
  ℕ, ◌≡◌, refl, true, false, Bool, none, some, List, [], ◌∷◌, Bytes, codes, arith, err, bytes_eq,
}
use omalens.Camera.{CameraCapabilities, AppliedCameraState, RequestedControls, find}
use omalens.Policy.{default}
use omalens.Runtime.{
  RuntimeInner, OperationSnapshot, CaptureStatsSnapshot, stop, op_succeeded, forget_peer,
  run_diagnostics, request_start, has_id, stale_capture, trim,
}
use omalens.Runtime.Locked.{new_runtime, publish_camera, publish_capture_stats, enqueue, finish}
use omalens.Runtime.Requests.{
  ServiceRuntime, request_stop, request_forget, request_diagnostics, request_start_capture,
  request_camera_control, wants_stop,
}
use omalens.Runtime.Operations.{ids, AreIds, Kept}
use omalens.Runtime.Steps.{Part, enqueued, succeeded, stop_invalidated, take_part, take_parts}
use omalens.Runtime.Invariant.{take_parts-AreIds, take_part-Kept}
use omalens.Runtime.Stop.{IsStopped, repeated, request_stop_disarms, requests_repeated}
use omalens.Tests.Camera.{f64}

abbrev same_caps : CameraCapabilities ℕ → CameraCapabilities ℕ → Bool
same_caps a b = false

abbrev same_state : AppliedCameraState ℕ → AppliedCameraState ℕ → Bool
same_state a b = false

abbrev same_bits : ℕ → ℕ → Bool
same_bits a b = true

abbrev start : RuntimeInner ℕ
start = new_runtime default

abbrev id : Bytes
id = codes "a"

start-AreIds : AreIds (ids start.operations)
unfolding new_runtime
start-AreIds = record { few = omega arith; distinct = tt; valid = tt }

abbrev parts : List (Part ℕ)
parts = enqueued id stop ∷ succeeded id ∷ []

take_parts-AreIds_example : AreIds (ids (take_parts same_caps same_state start parts).operations)
take_parts-AreIds_example = take_parts-AreIds same_caps same_state start parts start-AreIds

abbrev done : RuntimeInner ℕ
done = take_parts same_caps same_state start parts

abbrev done_operation : OperationSnapshot
done_operation = record {
  id = id;
  intent = stop;
  state = op_succeeded;
  error_code = none;
  message = none;
}

done-AreIds : AreIds (ids done.operations)
done-AreIds = take_parts-AreIds same_caps same_state start parts start-AreIds

done_found : find done.operations (has_id id) ≡ some done_operation
unfolding take_parts take_part enqueue finish new_runtime bytes_eq trim
done_found = refl

take_part-Kept_example :
    Kept done_operation
      (find (take_part same_caps same_state done stop_invalidated).operations (has_id id))
take_part-Kept_example =
    take_part-Kept same_caps same_state done stop_invalidated id done_operation done-AreIds
      done_found refl

abbrev runtime : ServiceRuntime ℕ
runtime = record { inner = start; sent = [] }

no_operation : find runtime.inner.operations (has_id id) ≡ none
unfolding new_runtime
no_operation = refl

request_stop_disarms_example :
    let t = (request_stop runtime true id).0 in
    IsStopped t.inner
    × ((generation : ℕ) (capabilities : CameraCapabilities ℕ) (applied : AppliedCameraState ℕ)
        → publish_camera same_caps same_state t.inner generation capabilities applied ≡ t.inner)
    × ((generation : ℕ) (stats : CaptureStatsSnapshot ℕ)
        → publish_capture_stats t.inner generation stats ≡ t.inner)
    × ((again : Bool) (other : Bytes) (generation : ℕ) (controls : RequestedControls ℕ)
        → wants_stop controls.stop ≡ false
        → request_camera_control f64 same_bits t again other generation controls
          ≡ (t, err stale_capture))
request_stop_disarms_example =
    request_stop_disarms f64 same_bits same_caps same_state runtime true id no_operation
      (omega arith, omega arith)

abbrev repeating : ServiceRuntime ℕ
repeating = record { inner = done; sent = [] }

requests_repeated_example :
    (request_stop repeating true id ≡ repeated repeating done_operation stop)
    × (request_forget repeating true id ≡ repeated repeating done_operation forget_peer)
    × (request_diagnostics repeating id ≡ repeated repeating done_operation run_diagnostics)
    × (request_start_capture repeating true id ≡ repeated repeating done_operation request_start)
requests_repeated_example = requests_repeated repeating true id done_operation done_found
