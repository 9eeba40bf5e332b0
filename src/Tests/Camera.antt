-- ===== src/Tests/Camera.antt =====
-- A phone with one camera, over numbers that stand for f64.
use omalens.Prelude.{
  ◌↔◌, ℕ, ◌-◌, ◌/◌, ◌≡◌, refl, true, false, none, some, [], ◌∷◌, bytes_eq, codes, leb, ltb, ok,
  arith,
}
use omalens.Camera.{
  Floats, Camera, CameraCapabilities, AppliedCameraState, validate_capabilities, validate_applied,
  validate_requested, validate_cameras, contains, validate_range,
}
use omalens.Camera.Capabilities.{AreCapabilities, validate_capabilities_iff}
use omalens.Camera.Requests.{MayRequest, validate_requested_iff}
use omalens.Camera.Controls.{IsFloats, request_of}

abbrev pub f64 : Floats ℕ
f64 = record {
  is_finite = λ x. true;
  le = leb;
  lt = ltb;
  sub = λ a b. a - b;
  abs = λ x. x;
  literal = λ n d. n / d;
}

f64-IsFloats : IsFloats f64
f64-IsFloats = record {
  self_difference = λ x h. omega arith;
  zero_le_half = refl;
  zero_le_thousandth = refl;
}

abbrev back : Camera ℕ
back = record {
  id = codes "back";
  label = codes "Back camera";
  facing = codes "environment";
  modes = record { width = 1_920; height = 1_080; fps = 30 } ∷ [];
  frame_rates = 30 ∷ 60 ∷ [];
}

abbrev pub caps : CameraCapabilities ℕ
caps = record {
  cameras = back ∷ [];
  zoom = some (record { min = 1; max = 8; step = 1 });
  exposure_compensation = none;
  torch = true;
  focus_modes = codes "auto" ∷ [];
  screen_dim_supported = false;
}

abbrev pub state : AppliedCameraState ℕ
state = record {
  camera_id = codes "back";
  width = 1_920;
  height = 1_080;
  fps = 30;
  zoom = some 2;
  exposure = none;
  torch = true;
  preview_mirrored = false;
  screen_dimmed = false;
}

caps_valid : validate_capabilities f64 caps ≡ ok tt
unfolding validate_capabilities validate_cameras validate_range
caps_valid = refl

request_valid : validate_requested f64 (request_of state) caps ≡ ok tt
unfolding validate_requested validate_capabilities validate_cameras validate_range bytes_eq contains
request_valid = refl

validate_capabilities_iff_example :
    (validate_capabilities f64 caps ≡ ok tt) ↔ AreCapabilities f64 caps
validate_capabilities_iff_example = validate_capabilities_iff f64 caps

state_valid : validate_applied f64 state caps ≡ ok tt
unfolding validate_applied validate_capabilities validate_cameras validate_range bytes_eq contains
state_valid = refl

validate_requested_iff_example :
    (validate_requested f64 (request_of state) caps ≡ ok tt)
    ↔ MayRequest f64 (request_of state) caps
validate_requested_iff_example = validate_requested_iff f64 (request_of state) caps
