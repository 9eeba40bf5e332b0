-- ===== src/Camera/Requests.antt =====
-- crates/omacam-core/src/camera.rs: which requests are valid for the capabilities.
use omalens.Prelude.{
  ℕ, ◌*◌, ◌≤◌, ◌≡◌, ◌≢◌, refl, ◌↔◌, ◌⊎◌, inl, inr, Bool, true, false, not, ◌&&◌, ◌||◌, ◌==◌, Option,
  none, some, List, [], ◌∷◌, arith, Bytes, bytes_eq, bytes_eq_iff, bytes_eq_refl, any, is_empty,
  is_some, is_some_and, Bool-cases, ok, passed, >>=-eq-ok,
}
use omalens.Camera.{
  Floats, Camera, CameraMode, CameraCapabilities, ControlRange, RequestedControls, find, knows,
  and_then, first_id, in_range, contains, lacks_mode, too_large, unsupported_mode, width_ok,
  height_ok, fps_ok, validate_capabilities, validate_requested, same_rate,
}
use omalens.Camera.Bounds.{IsWidth, IsHeight, IsBetween, width_ok_iff, height_ok_iff, fps_ok_iff}
use omalens.Camera.Capabilities.{AreCapabilities, validate_capabilities_iff}

-- What is given has the property.
abbrev pub Each {ℓ} : {A : Type ℓ} → (A → Type 0) → Option A → Type 0
Each P none = Unit {0}
Each P (some a) = P a

-- An element has the property.
abbrev pub Has {ℓ} : {A : Type ℓ} → (A → Type 0) → List A → Type 0
Has P [] = ⊥
Has P (x ∷ xs) = P x ⊎ Has P xs

Each-iff {ℓ} :
    {A : Type ℓ} (p : A → Bool) (P : A → Type 0)
    → ((x : A) → (p x ≡ true) ↔ P x)
    → (o : Option A) → (is_some_and o (λ x. not (p x)) ≡ false) ↔ Each P o
Each-iff p P h none = (λ _. tt, λ _. refl)
Each-iff p P h (some x) = (λ e. (h x).0 (ground arith), λ v. rw ((h x).1 v) refl)

any_iff {ℓ} :
    {A : Type ℓ} (p : A → Bool) (P : A → Type 0)
    → ((x : A) → (p x ≡ true) ↔ P x)
    → (xs : List A) → (any xs p ≡ true) ↔ Has P xs
any_iff p P h [] = (λ e. cc, λ v. absurd v)
any_iff p P h (x ∷ xs) = (into (any_iff p P h xs).0, back (any_iff p P h xs).1)
  where
    into : (any xs p ≡ true → Has P xs) → any (x ∷ xs) p ≡ true → Has P (x ∷ xs)
    into rest e = elim (Bool-cases (p x)) [
      | inl y ↦ inl ((h x).0 y)
      | inr n ↦ inr (rest (rw n at e))
    ]

    back : (Has P xs → any xs p ≡ true) → Has P (x ∷ xs) → any (x ∷ xs) p ≡ true
    back rest (inl v) = rw ((h x).1 v) refl
    back rest (inr v) = elim (Bool-cases (p x)) [ inl y ↦ rw y refl | inr n ↦ rw n (rest v) ]

allowed_iff {ℓ} :
    {A : Type ℓ} (o : Option A) (b : Bool) → ((is_some o && not b) ≡ false) ↔ Each (λ _. b ≡ true) o
allowed_iff none b = (λ _. tt, λ _. refl)
allowed_iff (some a) true = (λ _. refl, λ _. refl)
allowed_iff (some a) false = (λ e. cc, λ e. cc)

-- At most 3,840 times 2,160 pixels, where both numbers are given.
abbrev pub IsArea : Option ℕ → Option ℕ → Type 0
IsArea (some width) (some height) = width * height ≤ 8_294_400
IsArea _ _ = Unit {0}

module _ {F : Type 0} (f64 : Floats F) where
  IsArea-iff : (w h : Option ℕ) → (too_large f64 w h ≡ false) ↔ IsArea w h
  IsArea-iff none none = (λ _. tt, λ _. refl)
  IsArea-iff none (some h) = (λ _. tt, λ _. refl)
  IsArea-iff (some w) none = (λ _. tt, λ _. refl)
  IsArea-iff (some w) (some h) = (λ e. ground arith, λ v. ground arith)

  -- A finite value between finite bounds; without a range there is none.
  abbrev pub IsIn : Option (ControlRange F) → F → Type 0
  IsIn none value = ⊥
  IsIn (some r) value =
      (f64.is_finite value ≡ true)
      × (f64.is_finite r.min ≡ true)
      × (f64.is_finite r.max ≡ true)
      × (f64.le r.min value ≡ true)
      × (f64.le value r.max ≡ true)

  in_range_iff :
      (r : Option (ControlRange F)) (value : F) → (in_range f64 r value ≡ true) ↔ IsIn r value
  unfolding contains
  in_range_iff none value = (λ e. cc, λ v. absurd v)
  in_range_iff (some r) value = (λ e. ground arith, λ v. ground arith)

  -- The mode has this size, and a rate within half a frame a second.
  abbrev pub IsLike : (width height : ℕ) → F → CameraMode F → Type 0
  IsLike width height fps mode =
      (mode.width ≡ width)
      × (mode.height ≡ height)
      × (f64.le (f64.abs (f64.sub mode.fps fps)) (f64.literal 1 2) ≡ true)

  -- The camera reports no modes at all, or one like this.
  abbrev pub Offers : (width height : ℕ) → F → Camera F → Type 0
  Offers width height fps camera = (camera.modes ≡ []) ⊎ Has (IsLike width height fps) camera.modes

  -- The first camera of this name, if there is one, has the property.
  abbrev pub FirstNamed : (Camera F → Type 0) → Bytes → List (Camera F) → Type 0
  FirstNamed P id [] = Unit {0}
  FirstNamed P id (c ∷ cs) = ((c.id ≡ id) × P c) ⊎ ((c.id ≢ id) × FirstNamed P id cs)

  -- The camera that the request names, or the first camera if it names none.
  abbrev pub Meant : (Camera F → Type 0) → Option Bytes → List (Camera F) → Type 0
  Meant P (some id) cs = FirstNamed P id cs
  Meant P none [] = Unit {0}
  Meant P none (c ∷ cs) = P c

  -- Where the request gives a size and a rate, the camera that it is about offers such a mode.
  abbrev pub IsOffered : Option Bytes → List (Camera F) → Option ℕ → Option ℕ → Option F → Type 0
  IsOffered id cs (some width) (some height) (some fps) = Meant (Offers width height fps) id cs
  IsOffered id cs _ _ _ = Unit {0}

  IsLike-iff :
      (width height : ℕ) (fps : F) (mode : CameraMode F)
      → (((mode.width == width) && ((mode.height == height) && same_rate f64 mode.fps fps)) ≡ true)
        ↔ IsLike width height fps mode
  IsLike-iff width height fps mode = (λ e. ground arith, λ v. ground arith)

  Offers-iff :
      (width height : ℕ) (fps : F) (c : Camera F)
      → (lacks_mode f64 (some c) width height fps ≡ false) ↔ Offers width height fps c
  Offers-iff width height fps c =
      let test : CameraMode F → Bool =
        λ mode. (mode.width == width) && ((mode.height == height) && same_rate f64 mode.fps fps) in
      go c.modes (any_iff test (IsLike width height fps) (IsLike-iff width height fps) c.modes)
    where
      go :
          (modes : List (CameraMode F)) {b : Bool}
          → ((b ≡ true) ↔ Has (IsLike width height fps) modes)
          → ((not (is_empty modes) && not b) ≡ false)
            ↔ ((modes ≡ []) ⊎ Has (IsLike width height fps) modes)
      go [] h = (λ _. inl refl, λ _. refl)
      go (m ∷ ms) {b} h = (λ e. inr (h.0 (ground arith)), back)
        where
          back : ((m ∷ ms) ≡ []) ⊎ Has (IsLike width height fps) (m ∷ ms) → not b ≡ false
          back (inl e) = absurd (cc e)
          back (inr v) = rw (h.1 v) refl

  first_iff :
      (width height : ℕ) (fps : F) (id : Bytes) (cs : List (Camera F))
      → (lacks_mode f64 (find cs (λ camera. bytes_eq camera.id id)) width height fps ≡ false)
        ↔ FirstNamed (Offers width height fps) id cs
  first_iff width height fps id [] = (λ _. tt, λ _. refl)
  first_iff width height fps id (c ∷ cs) =
      let rest = first_iff width height fps id cs in (into rest.0, back rest.1)
    where
      Missing : List (Camera F) → Type 0
      Missing ds =
          lacks_mode f64 (find ds (λ camera. bytes_eq camera.id id)) width height fps ≡ false

      into :
          (Missing cs → FirstNamed (Offers width height fps) id cs)
          → Missing (c ∷ cs)
          → FirstNamed (Offers width height fps) id (c ∷ cs)
      into rest e = elim (Bool-cases (bytes_eq c.id id)) [
        | inl y ↦ inl ((bytes_eq_iff c.id id).0 y, (Offers-iff width height fps c).0 (rw y at e))
        | inr n ↦ inr (λ same. absurd (cc ((bytes_eq_iff c.id id).1 same, n)), rest (rw n at e))
      ]

      back :
          (FirstNamed (Offers width height fps) id cs → Missing cs)
          → FirstNamed (Offers width height fps) id (c ∷ cs)
          → Missing (c ∷ cs)
      back rest (inl (same, v)) =
          rw ((bytes_eq_iff c.id id).1 same) ((Offers-iff width height fps c).1 v)
      back rest (inr (other, v)) = elim (Bool-cases (bytes_eq c.id id)) [
        | inl y ↦ absurd (other ((bytes_eq_iff c.id id).0 y))
        | inr n ↦ rw n (rest v)
      ]

  Meant-iff :
      (r : RequestedControls F) (caps : CameraCapabilities F) (id : Option Bytes) (width height : ℕ)
      (fps : F)
      → r.camera_id ≡ id
      → (unsupported_mode f64 r caps (some width) (some height) (some fps) ≡ false)
        ↔ Meant (Offers width height fps) id caps.cameras
  Meant-iff r caps (some id) width height fps e = rw e (first_iff width height fps id caps.cameras)
  Meant-iff r caps none width height fps e = rw e (go caps.cameras)
    where
      go :
          (cs : List (Camera F))
          → (lacks_mode f64
                (and_then (first_id f64 cs) (λ id. find cs (λ camera. bytes_eq camera.id id)))
                width
                height
                fps
              ≡ false)
            ↔ Meant (Offers width height fps) none cs
      go [] = (λ _. tt, λ _. refl)
      go (c ∷ cs) = rw (bytes_eq_refl c.id) (Offers-iff width height fps c)

  mode_iff :
      (r : RequestedControls F) (caps : CameraCapabilities F) (w h : Option ℕ) (fps : Option F)
      → (unsupported_mode f64 r caps w h fps ≡ false) ↔ IsOffered r.camera_id caps.cameras w h fps
  mode_iff r caps (some w) (some h) (some fps) = Meant-iff r caps r.camera_id w h fps refl
  mode_iff r caps none h fps = (λ _. tt, λ _. refl)
  mode_iff r caps (some w) none fps = (λ _. tt, λ _. refl)
  mode_iff r caps (some w) (some h) none = (λ _. tt, λ _. refl)

  named_iff :
      (caps : CameraCapabilities F) (id : Bytes)
      → (knows f64 caps id ≡ true) ↔ Has (λ c. c.id ≡ id) caps.cameras
  named_iff caps id =
      any_iff (λ c. bytes_eq c.id id) (λ c. c.id ≡ id) (λ c. bytes_eq_iff c.id id) caps.cameras

  -- What makes a request valid for capabilities.
  pub record MayRequest (r : RequestedControls F) (caps : CameraCapabilities F) : Type 0 where
    pub capabilities : AreCapabilities f64 caps
    pub camera : Each (λ id. Has (λ (c : Camera F). c.id ≡ id) caps.cameras) r.camera_id
    pub width : Each IsWidth r.width
    pub height : Each IsHeight r.height
    pub fps : Each (IsBetween f64 15 60) r.fps
    pub area : IsArea r.width r.height
    pub mode : IsOffered r.camera_id caps.cameras r.width r.height r.fps
    pub zoom : Each (IsIn caps.zoom) r.zoom
    pub exposure : Each (IsIn caps.exposure_compensation) r.exposure
    pub torch : Each (λ _. caps.torch ≡ true) r.torch
    pub dimming : Each (λ _. caps.screen_dim_supported ≡ true) r.screen_dimmed

  module _ (r : RequestedControls F) (caps : CameraCapabilities F) where
    camera_iff :
        (is_some_and r.camera_id (λ id. not (knows f64 caps id)) ≡ false)
        ↔ Each (λ id. Has (λ (c : Camera F). c.id ≡ id) caps.cameras) r.camera_id
    camera_iff = Each-iff (knows f64 caps) _ (named_iff caps) r.camera_id

    zoom_iff :
        (is_some_and r.zoom (λ v. not (in_range f64 caps.zoom v)) ≡ false)
        ↔ Each (IsIn caps.zoom) r.zoom
    zoom_iff = Each-iff (in_range f64 caps.zoom) (IsIn caps.zoom) (in_range_iff caps.zoom) r.zoom

    exposure_iff :
        (is_some_and r.exposure (λ v. not (in_range f64 caps.exposure_compensation v)) ≡ false)
        ↔ Each (IsIn caps.exposure_compensation) r.exposure
    exposure_iff =
        Each-iff (in_range f64 caps.exposure_compensation) (IsIn caps.exposure_compensation)
          (in_range_iff caps.exposure_compensation) r.exposure

    validate_requested-MayRequest : validate_requested f64 r caps ≡ ok tt → MayRequest r caps
    unfolding validate_requested
    validate_requested-MayRequest h =
        let (u, valid, h₁) = >>=-eq-ok (validate_capabilities f64 caps) _ h in
        let (camera, h₂) =
          passed (is_some_and r.camera_id (λ id. not (knows f64 caps id))) _ _ h₁ in
        let (format, h₃) =
          passed
            (is_some_and r.width (λ v. not (width_ok v))
              || (is_some_and r.height (λ v. not (height_ok v))
                  || is_some_and r.fps (λ v. not (fps_ok f64 v))))
            _ _ h₂ in
        let (area, h₄) = passed (too_large f64 r.width r.height) _ _ h₃ in
        let (mode, h₅) = passed (unsupported_mode f64 r caps r.width r.height r.fps) _ _ h₄ in
        let (zoom, h₆) = passed (is_some_and r.zoom (λ v. not (in_range f64 caps.zoom v))) _ _ h₅ in
        let (exposure, h₇) =
          passed (is_some_and r.exposure (λ v. not (in_range f64 caps.exposure_compensation v))) _ _
            h₆ in
        let (torch, h₈) = passed (is_some r.torch && not caps.torch) _ _ h₇ in
        record {
          capabilities = (validate_capabilities_iff f64 caps).0 valid;
          camera = camera_iff.0 camera;
          width = (Each-iff width_ok IsWidth width_ok_iff r.width).0 (ground arith);
          height = (Each-iff height_ok IsHeight height_ok_iff r.height).0 (ground arith);
          fps =
              (Each-iff (fps_ok f64) (IsBetween f64 15 60) (fps_ok_iff f64) r.fps).0 (ground arith);
          area = (IsArea-iff r.width r.height).0 area;
          mode = (mode_iff r caps r.width r.height r.fps).0 mode;
          zoom = zoom_iff.0 zoom;
          exposure = exposure_iff.0 exposure;
          torch = (allowed_iff r.torch caps.torch).0 torch;
          dimming = (allowed_iff r.screen_dimmed caps.screen_dim_supported).0 (ground arith);
        }

    MayRequest-validate_requested : MayRequest r caps → validate_requested f64 r caps ≡ ok tt
    unfolding validate_requested
    MayRequest-validate_requested v = rw (
      (validate_capabilities_iff f64 caps).1 v.capabilities,
      camera_iff.1 v.camera,
      (Each-iff width_ok IsWidth width_ok_iff r.width).1 v.width,
      (Each-iff height_ok IsHeight height_ok_iff r.height).1 v.height,
      (Each-iff (fps_ok f64) (IsBetween f64 15 60) (fps_ok_iff f64) r.fps).1 v.fps,
      (IsArea-iff r.width r.height).1 v.area,
      (mode_iff r caps r.width r.height r.fps).1 v.mode,
      zoom_iff.1 v.zoom,
      exposure_iff.1 v.exposure,
      (allowed_iff r.torch caps.torch).1 v.torch,
      (allowed_iff r.screen_dimmed caps.screen_dim_supported).1 v.dimming,
    )

    -- A request is valid exactly if the capabilities are; a camera that it names is among theirs; a
    -- width, a height and a rate that it gives are within their bounds, and so is the area; where it
    -- gives all three, the camera that it names, or else the first, reports no modes or one of this size
    -- whose rate is within half a frame a second; a zoom and an exposure lie in their ranges; and the
    -- torch and the dimming are given only where they are supported.
    pub validate_requested_iff : (validate_requested f64 r caps ≡ ok tt) ↔ MayRequest r caps
    validate_requested_iff = (validate_requested-MayRequest, MayRequest-validate_requested)
