-- ===== src/Camera.antt =====
-- crates/omacam-core/src/camera.rs: the camera capabilities that a phone reports, the controls that the
-- desktop requests, and the state that the phone applied. `f64` is a type with the operations that
-- the code calls.
pub mod Bounds
pub mod Capabilities
pub mod Controls
pub mod Requests
use omalens.Prelude.{
  ℕ, ◌*◌, ◌%◌, Bool, true, false, not, ◌&&◌, ◌||◌, Option, none, some, List, [], ◌∷◌, ◌==◌, leb,
  ltb, Bytes, bytes_eq, all, any, is_empty, length, is_some, is_some_and, is_none_or, if◌then◌else◌,
  Result, ok, err, ◌>>=◌, ◌>>◌, reject_if,
}

-- `is_finite`, `<=`, `-` and `abs` of f64, and its decimal literals as fractions.
pub record Floats (F : Type 0) : Type 0 where
  pub is_finite : F → Bool
  pub le : F → F → Bool
  pub lt : F → F → Bool
  pub sub : F → F → F
  pub abs : F → F
  pub literal : (numerator denominator : ℕ) → F

-- One for each message.
pub data CameraError : Type 0 where
  invalid_control_range too_many_cameras invalid_camera_description too_many_camera_modes :
      CameraError
  invalid_camera_mode invalid_camera_frame_rate invalid_focus_mode_list : CameraError
  unknown_applied_camera invalid_applied_format unsupported_applied_zoom : CameraError
  unsupported_applied_exposure unsupported_applied_torch unsupported_applied_dimming : CameraError
  unknown_camera unsupported_format unsupported_camera_mode unsupported_zoom : CameraError
  unsupported_exposure unsupported_torch unsupported_dimming : CameraError

pub record CameraMode (F : Type 0) : Type 0 where
  pub width : ℕ  -- u32
  pub height : ℕ  -- u32
  pub fps : F

pub record Camera (F : Type 0) : Type 0 where
  pub id : Bytes
  pub label : Bytes
  pub facing : Bytes
  pub modes : List (CameraMode F)
  pub frame_rates : List F

pub record ControlRange (F : Type 0) : Type 0 where
  pub min : F
  pub max : F
  pub step : F

pub record CameraCapabilities (F : Type 0) : Type 0 where
  pub cameras : List (Camera F)
  pub zoom : Option (ControlRange F)
  pub exposure_compensation : Option (ControlRange F)
  pub torch : Bool
  pub focus_modes : List Bytes
  pub screen_dim_supported : Bool

pub record AppliedCameraState (F : Type 0) : Type 0 where
  pub camera_id : Bytes
  pub width : ℕ  -- u32
  pub height : ℕ  -- u32
  pub fps : F
  pub zoom : Option F
  pub exposure : Option F
  pub torch : Bool
  pub preview_mirrored : Bool
  pub screen_dimmed : Bool

pub record RequestedControls (F : Type 0) : Type 0 where
  pub camera_id : Option Bytes
  pub width : Option ℕ
  pub height : Option ℕ
  pub fps : Option F
  pub zoom : Option F
  pub exposure : Option F
  pub torch : Option Bool
  pub preview_mirrored : Option Bool
  pub screen_dimmed : Option Bool
  pub stop : Option Bool

-- `(320..=4096).contains(&width)` with an even width, and the same of the height. Two u32 multiply in
-- u64 without overflow.
abbrev pub width_ok : ℕ → Bool
width_ok width = leb 320 width && leb width 4_096 && width % 2 == 0

abbrev pub height_ok : ℕ → Bool
height_ok height = leb 240 height && leb height 4_096 && height % 2 == 0

abbrev pub area_ok : (width height : ℕ) → Bool
area_ok width height = leb (width * height) 8_294_400

abbrev pub find {ℓ} : {A : Type ℓ} → List A → (A → Bool) → Option A
find [] p = none
find (x ∷ xs) p = if p x then some x else find xs p

abbrev pub and_then {ℓ κ} : {A : Type ℓ} {B : Type κ} → Option A → (A → Option B) → Option B
and_then none f = none
and_then (some a) f = f a

abbrev pub bool_eq : Bool → Bool → Bool
bool_eq true b = b
bool_eq false b = not b

abbrev pub focus_ok : List Bytes → Bool
focus_ok modes =
    leb (length modes) 32 && all modes (λ mode. not (is_empty mode) && leb (length mode) 32)

module _ {F : Type 0} (f64 : Floats F) where
  -- `ControlRange::contains` and `ControlRange::validate`.
  unfoldable pub contains : ControlRange F → F → Bool
  contains r value =
      f64.is_finite value
      && (f64.is_finite r.min
          && (f64.is_finite r.max && (f64.le r.min value && f64.le value r.max)))

  unfoldable pub validate_range : ControlRange F → Result CameraError (Unit {0})
  validate_range r =
      reject_if
        (not (f64.is_finite r.min)
          || (not (f64.is_finite r.max)
              || (not (f64.is_finite r.step)
                  || (f64.lt r.max r.min || f64.lt r.step (f64.literal 0 1)))))
        invalid_control_range

  -- A finite rate between 15 and 60 frames a second.
  abbrev pub fps_ok : F → Bool
  fps_ok fps = f64.is_finite fps && (f64.le (f64.literal 15 1) fps && f64.le fps (f64.literal 60 1))

  abbrev pub mode_ok : CameraMode F → Bool
  mode_ok mode =
      width_ok mode.width
      && (height_ok mode.height && (area_ok mode.width mode.height && fps_ok mode.fps))

  abbrev pub rate_ok : F → Bool
  rate_ok fps =
      f64.is_finite fps && (f64.le (f64.literal 1 1) fps && f64.le fps (f64.literal 120 1))

  abbrev pub described : List Bytes → Camera F → Bool
  described ids c =
      not (is_empty c.id)
      && (leb (length c.id) 256
          && (leb (length c.label) 256
              && (leb (length c.facing) 32 && not (any ids (λ id. bytes_eq id c.id)))))

  -- The loop over the cameras; `ids` is the set of the identifiers before.
  unfoldable pub validate_cameras : List Bytes → List (Camera F) → Result CameraError (Unit {0})
  validate_cameras ids [] = ok tt
  validate_cameras ids (c ∷ cs) = do
    reject_if (not (described ids c)) invalid_camera_description
    reject_if (ltb 256 (length c.modes) || ltb 64 (length c.frame_rates)) too_many_camera_modes
    reject_if (not (all c.modes mode_ok)) invalid_camera_mode
    reject_if (not (all c.frame_rates rate_ok)) invalid_camera_frame_rate
    validate_cameras (c.id ∷ ids) cs

  abbrev pub validate_optional : Option (ControlRange F) → Result CameraError (Unit {0})
  validate_optional none = ok tt
  validate_optional (some range) = validate_range range

  unfoldable pub validate_capabilities : CameraCapabilities F → Result CameraError (Unit {0})
  validate_capabilities caps = do
    reject_if (ltb 32 (length caps.cameras)) too_many_cameras
    validate_cameras [] caps.cameras
    validate_optional caps.zoom
    validate_optional caps.exposure_compensation
    reject_if (not (focus_ok caps.focus_modes)) invalid_focus_mode_list

  abbrev pub knows : CameraCapabilities F → Bytes → Bool
  knows caps id = any caps.cameras (λ camera. bytes_eq camera.id id)

  abbrev pub in_range : Option (ControlRange F) → F → Bool
  in_range range value = is_some_and range (λ r. contains r value)

  unfoldable pub validate_applied :
      AppliedCameraState F → CameraCapabilities F → Result CameraError (Unit {0})
  validate_applied a caps = do
    validate_capabilities caps
    reject_if (not (knows caps a.camera_id)) unknown_applied_camera
    reject_if
        (not
          (width_ok a.width && (height_ok a.height && (area_ok a.width a.height && fps_ok a.fps))))
        invalid_applied_format
    reject_if (is_some_and a.zoom (λ v. not (in_range caps.zoom v))) unsupported_applied_zoom
    reject_if (is_some_and a.exposure (λ v. not (in_range caps.exposure_compensation v)))
        unsupported_applied_exposure
    reject_if (a.torch && not caps.torch) unsupported_applied_torch
    reject_if (a.screen_dimmed && not caps.screen_dim_supported) unsupported_applied_dimming

  -- `(mode.fps - fps).abs() <= 0.5`, and the closer comparison of the other two values.
  abbrev pub same_rate : F → F → Bool
  same_rate a b = f64.le (f64.abs (f64.sub a b)) (f64.literal 1 2)

  abbrev pub same_value : F → F → Bool
  same_value a b = f64.le (f64.abs (f64.sub a b)) (f64.literal 1 1_000)

  -- The camera that a request is about: the one it names, or the first.
  abbrev pub first_id : List (Camera F) → Option Bytes
  first_id [] = none
  first_id (c ∷ cs) = some c.id

  abbrev pub requested_id : Option Bytes → CameraCapabilities F → Option Bytes
  requested_id (some id) caps = some id
  requested_id none caps = first_id caps.cameras

  -- The camera has modes, and none of them is this one.
  abbrev pub lacks_mode : Option (Camera F) → (width height : ℕ) → F → Bool
  lacks_mode none width height fps = false
  lacks_mode (some camera) width height fps =
      not (is_empty camera.modes)
      && not (
          any camera.modes
            (λ mode. (mode.width == width) && ((mode.height == height) && same_rate mode.fps fps)))

  abbrev pub too_large : Option ℕ → Option ℕ → Bool
  too_large (some width) (some height) = not (area_ok width height)
  too_large _ _ = false

  abbrev pub unsupported_mode :
      RequestedControls F → CameraCapabilities F → Option ℕ → Option ℕ → Option F → Bool
  unsupported_mode r caps (some width) (some height) (some fps) =
      lacks_mode
        (and_then (requested_id r.camera_id caps)
          (λ id. find caps.cameras (λ camera. bytes_eq camera.id id)))
        width height fps
  unsupported_mode r caps _ _ _ = false

  unfoldable pub validate_requested :
      RequestedControls F → CameraCapabilities F → Result CameraError (Unit {0})
  validate_requested r caps = do
    validate_capabilities caps
    reject_if (is_some_and r.camera_id (λ id. not (knows caps id))) unknown_camera
    reject_if
        (is_some_and r.width (λ v. not (width_ok v))
          || (is_some_and r.height (λ v. not (height_ok v))
              || is_some_and r.fps (λ v. not (fps_ok v))))
        unsupported_format
    reject_if (too_large r.width r.height) unsupported_format
    reject_if (unsupported_mode r caps r.width r.height r.fps) unsupported_camera_mode
    reject_if (is_some_and r.zoom (λ v. not (in_range caps.zoom v))) unsupported_zoom
    reject_if (is_some_and r.exposure (λ v. not (in_range caps.exposure_compensation v)))
        unsupported_exposure
    reject_if (is_some r.torch && not caps.torch) unsupported_torch
    reject_if (is_some r.screen_dimmed && not caps.screen_dim_supported) unsupported_dimming

  unfoldable pub is_reflected_by : RequestedControls F → AppliedCameraState F → Bool
  is_reflected_by r a =
      is_none_or r.camera_id (λ v. bytes_eq v a.camera_id)
      && (is_none_or r.width (λ v. v == a.width)
          && (is_none_or r.height (λ v. v == a.height)
              && (is_none_or r.fps (λ v. same_rate v a.fps)
                  && (is_none_or r.zoom (λ v. is_some_and a.zoom (λ actual. same_value v actual))
                      && (is_none_or r.exposure
                            (λ v. is_some_and a.exposure (λ actual. same_value v actual))
                          && (is_none_or r.torch (λ v. bool_eq v a.torch)
                              && (is_none_or r.preview_mirrored (λ v. bool_eq v a.preview_mirrored)
                                  && is_none_or r.screen_dimmed
                                      (λ v. bool_eq v a.screen_dimmed))))))))
