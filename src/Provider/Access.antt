-- ===== src/Provider/Access.antt =====
-- crates/omacam-daemon/src/browser/session.rs: how often the desktop page may poll, and whether an offer's
-- format is the one that the camera applied.
use omalens.Prelude.{
  not, ℕ, ◌+◌, ◌-◌, ◌≤◌, ◌≡◌, Bool, true, false, ◌&&◌, Option, some, ◌==◌, ltb, is_some_and,
  if◌then◌else◌, arith,
}
use omalens.Camera.{Floats, AppliedCameraState}
use omalens.Provider.{VideoFormat}

-- The two instants of `AppState`, in nanoseconds.
pub record Polls : Type 0 where
  pub state_poll_at : Option ℕ
  pub preview_poll_at : Option ℕ

unfoldable pub allow_poll : Polls → (preview : Bool) → (now : ℕ) → Polls × Bool
allow_poll p true now =
    if is_some_and p.preview_poll_at (λ at. ltb (now - at) 200_000_000)
    then (p, false)
    else (record p { preview_poll_at = some now }, true)
allow_poll p false now =
    if is_some_and p.state_poll_at (λ at. ltb (now - at) 100_000_000)
    then (p, false)
    else (record p { state_poll_at = some now }, true)

-- `VideoFormat::matches`.
unfoldable pub matches : {F : Type 0} → Floats F → VideoFormat → AppliedCameraState F → Bool
matches f64 f a =
    f.width == a.width
    && (f.height == a.height
        && f64.le (f64.abs (f64.sub (f64.literal f.fps 1) a.fps)) (f64.literal 1 2))

-- Two polls of one kind that are both allowed, with a poll of the other kind between them, are at least
-- its interval apart.
allow_poll_interval :
    (p : Polls) (preview : Bool) (first between second : ℕ)
    → (allow_poll p preview first).1 ≡ true
    → (allow_poll
        (allow_poll (allow_poll p preview first).0 (not preview) between).0
        preview
        second).1
      ≡ true
    → first + (if preview then 200_000_000 else 100_000_000) ≤ second
unfolding allow_poll
allow_poll_interval p true first between second a b = ground arith
allow_poll_interval p false first between second a b = ground arith
