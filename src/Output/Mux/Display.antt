-- ===== src/Output/Mux/Display.antt =====
-- What the output shows, with no queue: the latest frame that was not yet shown, and the frame that
-- is shown with the time at which it was taken.
use omalens.Prelude.{
  ℕ, Bool, true, false, Option, none, some, List, [], ◌∷◌, Bytes, ◌==◌, length, if◌then◌else◌,
}
use omalens.Output.Config.{VideoFormat, frame_bytes, black_i420_frame}
use omalens.Output.Mux.{
  Event, pushed, cleared, activate, deactivate, shutdown, disconnected, timed_out, is_fresh,
  written_then,
}

pub record Display : Type 0 where
  pub active : Bool
  pub latest : Option Bytes
  pub shown : Option (Bytes × ℕ)
  pub running : Bool

abbrev pub refreshed_display : Display → (now : ℕ) → Display
refreshed_display d now = elim d.active [
  | false ↦ d
  | true ↦ elim d.latest [
    | none ↦ d
    | some frame ↦ record d { latest = none; shown = some (frame, now) }
  ]
]

abbrev pub visible : VideoFormat → Option (Bytes × ℕ) → (now : ℕ) → Bytes
visible f none now = black_i420_frame f
visible f (some (frame, at)) now = if is_fresh now at then frame else black_i420_frame f

abbrev pub show : VideoFormat → Display → (now : ℕ) (write_ok : Bool) → Display × Option Bytes
show f d now true = (d, some (if d.active then visible f d.shown now else black_i420_frame f))
show f d now false = (record d { running = false }, none)

abbrev pub switched_display : Display → Bool → Display
switched_display d active = record d { active = active; latest = none; shown = none }

unfoldable pub round_display : VideoFormat → Display → Event → Display × Option Bytes
round_display f d (pushed frame) = (d, none)
round_display f d cleared = (d, none)
round_display f d activate = (switched_display d true, none)
round_display f d deactivate = (switched_display d false, none)
round_display f d shutdown = (record d { latest = none; running = false }, none)
round_display f d disconnected = (record d { running = false }, none)
round_display f d (timed_out now write_ok) = show f (refreshed_display d now) now write_ok

unfoldable pub step_display : VideoFormat → Display → Event → Display × Option Bytes
step_display f d (pushed frame) =
    (if length frame == frame_bytes f then record d { latest = some frame } else d, none)
step_display f d cleared = (record d { latest = none }, none)
step_display f d e = if d.running then round_display f d e else (d, none)

unfoldable pub written_display : VideoFormat → Display → List Event → List Bytes
written_display f d [] = []
written_display f d (e ∷ es) =
    written_then (step_display f d e).1 (written_display f (step_display f d e).0 es)
