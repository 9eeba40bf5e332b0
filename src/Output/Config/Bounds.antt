-- ===== src/Output/Config/Bounds.antt =====
-- crates/omacam-output/src/config.rs: the sizes and intervals of the formats that are accepted.
use omalens.Prelude.{
  ℕ, ◌*◌, ◌/◌, ◌%◌, ◌≤◌, ◌≡◌, true, ◌+◌, Option, List, [], ◌∷◌, Bytes, length, ok, arith,
  length-append, length-replicate, replicate, ◌-◌, ap, ◌∙◌,
}
use mathlib.Core.Path.{ap₂}
use omalens.Output.Config.{
  VideoFormat, is_supported, parse_numbers, parse, frame_bytes, frame_interval, black_i420_frame,
}

module _ (parse_usize : Bytes → Option ℕ) where
  parse_numbers-is_supported :
      (w h r : Bytes) (f : VideoFormat)
      → parse_numbers parse_usize w h r ≡ ok f
      → is_supported f ≡ true
  unfolding parse_numbers
  parse_numbers-is_supported w h r f e = ground arith

  parse-is_supported :
      (args : List Bytes) (f : VideoFormat) → parse parse_usize args ≡ ok f → is_supported f ≡ true
  unfolding parse
  parse-is_supported [] f e = ground arith
  parse-is_supported (a ∷ []) f e = cc
  parse-is_supported (a ∷ b ∷ []) f e = cc
  parse-is_supported (a ∷ b ∷ c ∷ []) f e = cc
  parse-is_supported (a ∷ b ∷ c ∷ d ∷ []) f e = cc
  parse-is_supported (a ∷ b ∷ c ∷ d ∷ g ∷ []) f e = cc
  parse-is_supported (a ∷ w ∷ b ∷ h ∷ c ∷ r ∷ []) f e =
      ground (arith, parse_numbers-is_supported w h r f)
  parse-is_supported (a ∷ b ∷ c ∷ d ∷ g ∷ i ∷ j ∷ rest) f e = cc

supported_bounds :
    (f : VideoFormat)
    → is_supported f ≡ true
    → (320 ≤ f.width)
      × (240 ≤ f.height)
      × (f.width % 2 ≡ 0)
      × (f.width * f.height ≤ 8_294_400)
      × (15 ≤ f.fps)
      × (f.fps ≤ 60)
supported_bounds f h =
    (ground arith, ground arith, ground arith, ground arith, ground arith, ground arith)

even_mul : (w h : ℕ) → w % 2 ≡ 0 → (w * h) % 2 ≡ 0
even_mul w h e =
    let half : w ≡ 2 * (w / 2) = omega arith in omega (arith, ap (λ (t : ℕ). t * h) half)

area_pos : (w h : ℕ) → 320 ≤ w → 240 ≤ h → 76_800 ≤ w * h
area_pos w h a b = grind arith

interval_bounds :
    (fps : ℕ)
    → 15 ≤ fps
    → fps ≤ 60
    → (16_666_666 ≤ 1_000_000_000 / fps) × (1_000_000_000 / fps ≤ 66_666_666)
interval_bounds fps a b = (grind arith, grind arith)

module _ (parse_usize : Bytes → Option ℕ) where
  -- A format that is accepted has frames of 115,200 to 12,441,600 bytes, exactly three bytes for two
  -- pixels, an interval between two frames of 16,666,666 to 66,666,666 nanoseconds, and a neutral
  -- frame of the size of its frames.
  pub parse-bounds :
      (args : List Bytes) (f : VideoFormat)
      → parse parse_usize args ≡ ok f
      → (115_200 ≤ frame_bytes f)
        × (frame_bytes f ≤ 12_441_600)
        × (frame_bytes f * 2 ≡ f.width * f.height * 3)
        × (16_666_666 ≤ frame_interval f)
        × (frame_interval f ≤ 66_666_666)
        × (length (black_i420_frame f) ≡ frame_bytes f)
  unfolding frame_bytes frame_interval black_i420_frame
  parse-bounds args f h =
      let (w, t, even, area, slow, fast) =
        supported_bounds f (parse-is_supported parse_usize args f h) in
      let small : 76_800 ≤ f.width * f.height = area_pos f.width f.height w t in
      let whole : (f.width * f.height) % 2 ≡ 0 = even_mul f.width f.height even in
      let (low, high) = interval_bounds f.fps slow fast in
      let size : length (black_i420_frame f)
          ≡ f.width * f.height + (frame_bytes f - f.width * f.height) =
        length-append (replicate (f.width * f.height) 16)
          (replicate (frame_bytes f - f.width * f.height) 128)
        ∙ ap₂ ◌+◌ (length-replicate (f.width * f.height) 16)
            (length-replicate (frame_bytes f - f.width * f.height) 128) in
      (omega arith, omega arith, omega arith, low, high, size ∙ omega arith)
