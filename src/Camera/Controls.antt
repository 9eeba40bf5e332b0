-- ===== src/Camera/Controls.antt =====
-- crates/omacam-core/src/camera.rs: requests and the states that answer them.
use omalens.Prelude.{
  ◌≡◌, refl, Bool, true, false, not, ◌&&◌, Option, none, some, arith, bytes_eq_refl, ok, ==_refl,
  is_none_or, is_some_and,
}
use omalens.Camera.{
  Floats, CameraCapabilities, AppliedCameraState, RequestedControls, validate_applied,
  validate_requested, is_reflected_by, in_range, contains, same_rate, same_value, ControlRange,
  bool_eq,
}

-- `Some(true)` for a switch that is on, and no request for one that is off.
abbrev pub when_on : Bool → Option Bool
when_on true = some true
when_on false = none

-- The request for exactly this state.
abbrev pub request_of : {F : Type 0} → AppliedCameraState F → RequestedControls F
request_of a = record {
  camera_id = some a.camera_id;
  width = some a.width;
  height = some a.height;
  fps = some a.fps;
  zoom = a.zoom;
  exposure = a.exposure;
  torch = when_on a.torch;
  preview_mirrored = some a.preview_mirrored;
  screen_dimmed = when_on a.screen_dimmed;
  stop = none;
}

module _ {F : Type 0} (f64 : Floats F) where
  -- What may be requested may be applied: if the request for exactly a state is valid for the
  -- capabilities, then so is the report of that state.
  validate_applied-request_of :
      (a : AppliedCameraState F) (caps : CameraCapabilities F)
      → validate_requested f64 (request_of a) caps ≡ ok tt
      → validate_applied f64 a caps ≡ ok tt
  unfolding validate_applied validate_requested
  validate_applied-request_of a caps h = ground arith

  -- What IEEE 754 says of the comparison of a finite number with itself, within a tolerance.
  pub record IsFloats : Type 0 where
    pub self_difference : (x : F) → f64.is_finite x ≡ true → f64.abs (f64.sub x x) ≡ f64.literal 0 1
    pub zero_le_half : f64.le (f64.literal 0 1) (f64.literal 1 2) ≡ true
    pub zero_le_thousandth : f64.le (f64.literal 0 1) (f64.literal 1 1_000) ≡ true

  module _ (law : IsFloats) where
    same_rate_self : (x : F) → f64.is_finite x ≡ true → same_rate f64 x x ≡ true
    same_rate_self x h = rw (same_rate, law.self_difference x h) law.zero_le_half

    same_value_self : (x : F) → f64.is_finite x ≡ true → same_value f64 x x ≡ true
    same_value_self x h = rw (same_value, law.self_difference x h) law.zero_le_thousandth

    -- A value that lies in its range reflects itself, and none is requested where there is none.
    value_reflected :
        (value : Option F) (range : Option (ControlRange F))
        → is_some_and value (λ v. not (in_range f64 range v)) ≡ false
        → is_none_or value (λ v. is_some_and value (λ actual. same_value f64 v actual)) ≡ true
    unfolding contains
    value_reflected none range h = refl
    value_reflected (some v) none h = absurd (ground arith)
    value_reflected (some v) (some r) h = same_value_self v (ground arith)

    applied_parts :
        (a : AppliedCameraState F) (caps : CameraCapabilities F)
        → validate_applied f64 a caps ≡ ok tt
        → (f64.is_finite a.fps ≡ true)
          × (is_some_and a.zoom (λ v. not (in_range f64 caps.zoom v)) ≡ false)
          × (is_some_and a.exposure (λ v. not (in_range f64 caps.exposure_compensation v)) ≡ false)
    unfolding validate_applied
    applied_parts a caps h = (ground arith, ground arith, ground arith)

    -- A valid report of a state reflects the request for exactly that state.
    is_reflected_by-request_of :
        (a : AppliedCameraState F) (caps : CameraCapabilities F)
        → validate_applied f64 a caps ≡ ok tt
        → is_reflected_by f64 (request_of a) a ≡ true
    unfolding is_reflected_by
    is_reflected_by-request_of a caps h =
        let (finite, zoom, exposure) = applied_parts a caps h in
        rw
          (
            bytes_eq_refl a.camera_id,
            ==_refl a.width,
            ==_refl a.height,
            same_rate_self a.fps finite,
            value_reflected a.zoom caps.zoom zoom,
            value_reflected a.exposure caps.exposure_compensation exposure,
          )
          (switches a.torch a.preview_mirrored a.screen_dimmed)
      where
        switches :
            (torch mirrored dimmed : Bool)
            → (is_none_or (when_on torch) (λ v. bool_eq v torch)
                && (is_none_or (some mirrored) (λ v. bool_eq v mirrored)
                    && is_none_or (when_on dimmed) (λ v. bool_eq v dimmed)))
              ≡ true
        switches torch mirrored dimmed = ground arith
