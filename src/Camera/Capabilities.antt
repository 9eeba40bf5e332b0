-- ===== src/Camera/Capabilities.antt =====
-- crates/omacam-core/src/camera.rs: which capabilities are valid.
use omalens.Prelude.{
  inr, inl, ◌↔◌, Bool-cases, ◌<◌, ◌≤◌, ◌≡◌, refl, ◌≢◌, true, false, not, ◌||◌, List, [], ◌∷◌, arith,
  Bytes, ltb, bytes_eq, bytes_eq_iff, All, any, all, length, ok, passed, >>=-eq-ok,
}
use omalens.Camera.Bounds.{
  length-is_empty, is_empty-length_pos, IsFocusMode, focus_ok_iff, IsBetween, IsMode,
  IsOptionalRange, modes_ok_iff, rates_ok_iff, validate_optional_iff,
}
use omalens.Camera.{
  Floats, validate_optional, Camera, CameraCapabilities, described, mode_ok, rate_ok,
  validate_cameras, validate_capabilities,
}

-- No identifier in the list is this one.
abbrev pub IsNew : Bytes → List Bytes → Type 0
IsNew id [] = Unit {0}
IsNew id (x ∷ xs) = (x ≢ id) × IsNew id xs

module _ {F : Type 0} (f64 : Floats F) where
  -- The bounds of one camera's own record.
  pub record IsCamera (c : Camera F) : Type 0 where
    pub id_length : (0 < length c.id) × (length c.id ≤ 256)
    pub label_length : length c.label ≤ 256
    pub facing_length : length c.facing ≤ 32
    pub modes_length : length c.modes ≤ 256
    pub rates_length : length c.frame_rates ≤ 64
    pub modes : All (IsMode f64) c.modes
    pub frame_rates : All (IsBetween f64 1 120) c.frame_rates

  -- The cameras are within their bounds, and each has an identifier that none before it has.
  abbrev pub AreCameras : List Bytes → List (Camera F) → Type 0
  AreCameras ids [] = Unit {0}
  AreCameras ids (c ∷ cs) = IsCamera c × IsNew c.id ids × AreCameras (c.id ∷ ids) cs

  any-IsNew : (ids : List Bytes) (id : Bytes) → any ids (λ x. bytes_eq x id) ≡ false → IsNew id ids
  any-IsNew [] id h = tt
  any-IsNew (x ∷ xs) id h = (
    λ e. let t = (bytes_eq_iff x id).1 e in absurd (ground (arith, t)),
    any-IsNew xs id (ground arith),
  )

  validate_cameras-AreCameras :
      (ids : List Bytes) (cs : List (Camera F))
      → validate_cameras f64 ids cs ≡ ok tt
      → AreCameras ids cs
  unfolding validate_cameras
  validate_cameras-AreCameras ids [] h = tt
  validate_cameras-AreCameras ids (c ∷ cs) h =
      let (d, h₁) = passed (not (described f64 ids c)) _ _ h in
      let (n, h₂) = passed (ltb 256 (length c.modes) || ltb 64 (length c.frame_rates)) _ _ h₁ in
      let (m, h₃) = passed (not (all c.modes (mode_ok f64))) _ _ h₂ in
      let (r, rest) = passed (not (all c.frame_rates (rate_ok f64))) _ _ h₃ in
      (
        record {
          id_length = (length-is_empty c.id (ground arith), ground arith);
          label_length = ground arith;
          facing_length = ground arith;
          modes_length = ground arith;
          rates_length = ground arith;
          modes = (modes_ok_iff f64 c.modes).0 (ground arith);
          frame_rates = (rates_ok_iff f64 c.frame_rates).0 (ground arith);
        },
        any-IsNew ids c.id (ground arith),
        validate_cameras-AreCameras (c.id ∷ ids) cs rest,
      )

  IsNew-any : (ids : List Bytes) (id : Bytes) → IsNew id ids → any ids (λ x. bytes_eq x id) ≡ false
  IsNew-any [] id h = refl
  IsNew-any (x ∷ xs) id (n, rest) = elim (Bool-cases (bytes_eq x id)) [
    | inl e ↦ absurd (n ((bytes_eq_iff x id).0 e))
    | inr e ↦ rw e (IsNew-any xs id rest)
  ]

  AreCameras-validate_cameras :
      (ids : List Bytes) (cs : List (Camera F))
      → AreCameras ids cs
      → validate_cameras f64 ids cs ≡ ok tt
  unfolding validate_cameras
  AreCameras-validate_cameras ids [] h = refl
  AreCameras-validate_cameras ids (c ∷ cs) (v, new, rest) =
      let named = is_empty-length_pos c.id v.id_length.0 in
      let fresh = IsNew-any ids c.id new in
      let d : described f64 ids c ≡ true =
        ground (arith, v.id_length.1, v.label_length, v.facing_length) in
      let n : (ltb 256 (length c.modes) || ltb 64 (length c.frame_rates)) ≡ false =
        ground (arith, v.modes_length, v.rates_length) in
      let modes = (modes_ok_iff f64 c.modes).1 v.modes in
      let rates = (rates_ok_iff f64 c.frame_rates).1 v.frame_rates in
      rw (d, n, modes, rates) (AreCameras-validate_cameras (c.id ∷ ids) cs rest)

  -- What makes a report of capabilities valid.
  pub record AreCapabilities (caps : CameraCapabilities F) : Type 0 where
    pub few : length caps.cameras ≤ 32
    pub cameras : AreCameras [] caps.cameras
    pub zoom : IsOptionalRange f64 caps.zoom
    pub exposure : IsOptionalRange f64 caps.exposure_compensation
    pub few_focus_modes : length caps.focus_modes ≤ 32
    pub focus_modes : All IsFocusMode caps.focus_modes

  validate_capabilities-AreCapabilities :
      (caps : CameraCapabilities F) → validate_capabilities f64 caps ≡ ok tt → AreCapabilities caps
  unfolding validate_capabilities
  validate_capabilities-AreCapabilities caps h =
      let (few, h₁) = passed (ltb 32 (length caps.cameras)) _ _ h in
      let (u, cameras, h₂) = >>=-eq-ok (validate_cameras f64 [] caps.cameras) _ h₁ in
      let (w, zoom, h₃) = >>=-eq-ok (validate_optional f64 caps.zoom) _ h₂ in
      let (x, exposure, h₄) = >>=-eq-ok (validate_optional f64 caps.exposure_compensation) _ h₃ in
      let (few_modes, named) = (focus_ok_iff caps.focus_modes).0 (ground arith) in
      record {
        few = ground arith;
        cameras = validate_cameras-AreCameras [] caps.cameras cameras;
        zoom = (validate_optional_iff f64 caps.zoom).0 zoom;
        exposure = (validate_optional_iff f64 caps.exposure_compensation).0 exposure;
        few_focus_modes = few_modes;
        focus_modes = named;
      }

  AreCapabilities-validate_capabilities :
      (caps : CameraCapabilities F) → AreCapabilities caps → validate_capabilities f64 caps ≡ ok tt
  unfolding validate_capabilities
  AreCapabilities-validate_capabilities caps v =
      let small : ltb 32 (length caps.cameras) ≡ false = ground (arith, v.few) in
      rw (
        small,
        AreCameras-validate_cameras [] caps.cameras v.cameras,
        (validate_optional_iff f64 caps.zoom).1 v.zoom,
        (validate_optional_iff f64 caps.exposure_compensation).1 v.exposure,
        (focus_ok_iff caps.focus_modes).1 (v.few_focus_modes, v.focus_modes),
      )

  -- Capabilities are accepted exactly if there are at most 32 cameras, each with an identifier of 1 to
  -- 256 bytes that no camera before it has, a label of at most 256 bytes, a facing of at most 32, at
  -- most 256 modes and at most 64 frame rates; each mode is even, 320 to 4,096 wide, 240 to 4,096 high,
  -- of at most 8,294,400 pixels and of 15 to 60 frames a second; each frame rate is from 1 to 120; the
  -- ranges that are given are finite and in order with a step that is not negative; and there are at
  -- most 32 focus modes, each of 1 to 32 bytes.
  pub validate_capabilities_iff :
      (caps : CameraCapabilities F)
      → (validate_capabilities f64 caps ≡ ok tt) ↔ AreCapabilities caps
  validate_capabilities_iff caps =
      (validate_capabilities-AreCapabilities caps, AreCapabilities-validate_capabilities caps)
