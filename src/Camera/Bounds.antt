-- ===== src/Camera/Bounds.antt =====
-- crates/omacam-core/src/camera.rs: the bounds of sizes, rates, ranges and focus modes, written out, and
-- the tests that the code makes of them.
use omalens.Prelude.{
  ℕ, ◌*◌, ◌%◌, ◌<◌, ◌≤◌, ◌≡◌, refl, ◌↔◌, Bool, true, false, Option, none, some, List, [], ◌∷◌,
  arith, Bytes, All, all, is_empty, length, leb, not, ◌&&◌, Bool-cases, inl, inr, ok,
}
use omalens.Camera.{
  Floats, CameraMode, ControlRange, mode_ok, rate_ok, focus_ok, validate_range, validate_optional,
  width_ok, height_ok, fps_ok,
}

-- Even, at least 320 by 240, at most 4,096 in each direction.
abbrev pub IsWidth : ℕ → Type 0
IsWidth width = (320 ≤ width) × (width ≤ 4_096) × (width % 2 ≡ 0)

abbrev pub IsHeight : ℕ → Type 0
IsHeight height = (240 ≤ height) × (height ≤ 4_096) × (height % 2 ≡ 0)

-- A name of a focus mode.
abbrev pub IsFocusMode : Bytes → Type 0
IsFocusMode mode = (0 < length mode) × (length mode ≤ 32)

all-All {ℓ} :
    {A : Type ℓ} (p : A → Bool) (P : A → Type 0)
    → ((x : A) → (p x ≡ true) ↔ P x)
    → (xs : List A) → (all xs p ≡ true) ↔ All P xs
all-All p P h [] = (λ _. tt, λ _. refl)
all-All p P h (x ∷ xs) =
    let (into, back) = all-All p P h xs in
    (
      λ e. elim (Bool-cases (p x)) [
        | inl y ↦ ((h x).0 y, into (rw y at e))
        | inr n ↦ absurd (cc (rw n at e))
      ],
      λ v. rw ((h x).1 v.0) (back v.1),
    )

pub width_ok_iff : (width : ℕ) → (width_ok width ≡ true) ↔ IsWidth width
width_ok_iff width = (λ h. ground arith, λ v. ground arith)

pub height_ok_iff : (height : ℕ) → (height_ok height ≡ true) ↔ IsHeight height
height_ok_iff height = (λ h. ground arith, λ v. ground arith)

pub length-is_empty : (bs : Bytes) → is_empty bs ≡ false → 0 < length bs
length-is_empty [] h = cc
length-is_empty (b ∷ bs) h = omega arith

pub is_empty-length_pos : (bs : Bytes) → 0 < length bs → is_empty bs ≡ false
is_empty-length_pos [] h = absurd (omega arith)
is_empty-length_pos (b ∷ bs) h = refl

IsFocusMode-iff :
    (mode : Bytes) → ((not (is_empty mode) && leb (length mode) 32) ≡ true) ↔ IsFocusMode mode
IsFocusMode-iff mode = (
  λ h. (length-is_empty mode (ground arith), ground arith),
  λ v. rw (is_empty-length_pos mode v.0) (ground arith),
)

pub focus_ok_iff :
    (modes : List Bytes) → (focus_ok modes ≡ true) ↔ ((length modes ≤ 32) × All IsFocusMode modes)
focus_ok_iff modes =
    let (into, back) =
      all-All (λ mode. not (is_empty mode) && leb (length mode) 32) IsFocusMode IsFocusMode-iff
        modes in
    (λ h. (ground arith, into (ground arith)), λ v. rw (back v.1) (ground arith))

module _ {F : Type 0} (f64 : Floats F) where
  -- A finite number from `low` to `high`.
  abbrev pub IsBetween : (low high : ℕ) → F → Type 0
  IsBetween low high x =
      (f64.is_finite x ≡ true)
      × (f64.le (f64.literal low 1) x ≡ true)
      × (f64.le x (f64.literal high 1) ≡ true)

  -- At most 3,840 times 2,160 pixels, at 15 to 60 frames a second.
  abbrev pub IsMode : CameraMode F → Type 0
  IsMode mode =
      IsWidth mode.width
      × IsHeight mode.height
      × (mode.width * mode.height ≤ 8_294_400)
      × IsBetween 15 60 mode.fps

  -- The bounds are finite and in order, and the step is finite and not below zero.
  abbrev pub IsRange : ControlRange F → Type 0
  IsRange r =
      (f64.is_finite r.min ≡ true)
      × (f64.is_finite r.max ≡ true)
      × (f64.is_finite r.step ≡ true)
      × (f64.lt r.max r.min ≡ false)
      × (f64.lt r.step (f64.literal 0 1) ≡ false)

  abbrev pub IsOptionalRange : Option (ControlRange F) → Type 0
  IsOptionalRange none = Unit {0}
  IsOptionalRange (some r) = IsRange r

  pub fps_ok_iff : (fps : F) → (fps_ok f64 fps ≡ true) ↔ IsBetween 15 60 fps
  fps_ok_iff fps = (λ h. ground arith, λ v. ground arith)

  mode_ok_iff : (mode : CameraMode F) → (mode_ok f64 mode ≡ true) ↔ IsMode mode
  mode_ok_iff mode = (λ h. ground arith, λ v. ground arith)

  rate_ok_iff : (fps : F) → (rate_ok f64 fps ≡ true) ↔ IsBetween 1 120 fps
  rate_ok_iff fps = (λ h. ground arith, λ v. ground arith)

  pub modes_ok_iff : (ms : List (CameraMode F)) → (all ms (mode_ok f64) ≡ true) ↔ All IsMode ms
  modes_ok_iff ms = all-All (mode_ok f64) IsMode mode_ok_iff ms

  pub rates_ok_iff : (rs : List F) → (all rs (rate_ok f64) ≡ true) ↔ All (IsBetween 1 120) rs
  rates_ok_iff rs = all-All (rate_ok f64) (IsBetween 1 120) rate_ok_iff rs

  validate_range_iff : (r : ControlRange F) → (validate_range f64 r ≡ ok tt) ↔ IsRange r
  unfolding validate_range
  validate_range_iff r = (λ h. ground arith, λ v. ground arith)

  pub validate_optional_iff :
      (r : Option (ControlRange F)) → (validate_optional f64 r ≡ ok tt) ↔ IsOptionalRange r
  validate_optional_iff none = (λ _. tt, λ _. refl)
  validate_optional_iff (some r) = validate_range_iff r
