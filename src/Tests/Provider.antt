-- ===== src/Tests/Provider.antt =====
-- A session that takes a command and is stopped.
use omalens.Prelude.{ℕ, ◌≡◌, refl, false, Bool, Option, List, [], ◌∷◌, Bytes, codes, arith}
use omalens.Camera.{CameraCapabilities, AppliedCameraState}
use omalens.Camera.Controls.{request_of}
use omalens.Provider.{VideoFormat, CameraSession, CameraCommand, stopped}
use omalens.Provider.Session.{new_session, stop}
use omalens.Provider.Invariant.{IsSession}
use omalens.Provider.History.{
  Call, previewed, offered, commanded, ended, calls, call, calls-IsSession, calls-stopped,
}
use omalens.Tests.Camera.{f64, caps, state}

abbrev text : AppliedCameraState ℕ → Bytes
text a = []

abbrev same_caps : CameraCapabilities ℕ → CameraCapabilities ℕ → Bool
same_caps a b = false

abbrev same_state : Option (AppliedCameraState ℕ) → Option (AppliedCameraState ℕ) → Bool
same_state a b = false

abbrev first : CameraSession ℕ ℕ
first = new_session (codes "s") 0

first-IsSession : IsSession first
unfolding new_session
first-IsSession = record { together = refl; few = omega arith; known = tt; ended = λ e. cc }

abbrev format : VideoFormat
format = record { width = 1_920; height = 1_080; fps = 30 }

abbrev command : CameraCommand ℕ
command = record {
  session_id = codes "s";
  command_id = codes "c-1";
  expected_revision = 1;
  controls = request_of state;
}

abbrev history : List (Call ℕ ℕ)
history =
    offered caps state format 5
    ∷ previewed (255 ∷ 216 ∷ 255 ∷ 217 ∷ []) 5
    ∷ commanded command 6
    ∷ []

calls-IsSession_example : IsSession (calls f64 text same_caps same_state first history)
calls-IsSession_example =
    calls-IsSession f64 text same_caps same_state first history first-IsSession

abbrev over : CameraSession ℕ ℕ
over = calls f64 text same_caps same_state first (ended (codes "done") ∷ [])

over-IsSession : IsSession over
over-IsSession =
    calls-IsSession f64 text same_caps same_state first (ended (codes "done") ∷ []) first-IsSession

over_stopped : over.status ≡ stopped
unfolding calls call stop new_session
over_stopped = refl

calls-stopped_example : calls f64 text same_caps same_state over history ≡ over
calls-stopped_example =
    calls-stopped f64 text same_caps same_state over history over-IsSession over_stopped

abbrev live_session : CameraSession ℕ ℕ
live_session = calls f64 text same_caps same_state first (offered caps state format 5 ∷ [])
