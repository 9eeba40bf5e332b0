-- ===== src/Provider/History.antt =====
-- crates/omacam-daemon/src/browser/session.rs: histories of the session, and the commands it takes.
use omalens.Prelude.{
  ℕ, ◌≡◌, refl, ap, ◌∙◌, Bool, true, false, Option, List, [], ◌∷◌, Bytes, bytes_eq, ok, arith,
  is_some, is_some_and, any,
}
use omalens.Camera.{Floats, CameraCapabilities, AppliedCameraState, validate_requested}
use omalens.Provider.{VideoFormat, stopped, CameraSession, CameraCommand, is_live, is_command_id}
use omalens.Provider.Session.{
  activate_waiting, stop, expire_heartbeat, expire_pending, enqueue_command, changes_format,
  take_preview,
}
use omalens.Provider.Heartbeat.{PhoneHeartbeat, accept_heartbeat}
use omalens.Provider.Invariant.{
  IsSession, stop-IsSession, activate_waiting-IsSession, expire_heartbeat-IsSession,
  expire_pending-IsSession, enqueue_command-IsSession, take_preview-IsSession,
}
use omalens.Provider.Beats.{accept_heartbeat-IsSession}

pub data Call (F V : Type 0) : Type 0 where
  offered : CameraCapabilities F → AppliedCameraState F → VideoFormat → (now : ℕ) → Call F V
  ended : (reason : Bytes) → Call F V
  heartbeat_checked pending_checked : (now : ℕ) → Call F V
  commanded : CameraCommand F → (now : ℕ) → Call F V
  beat : PhoneHeartbeat F V → (now : ℕ) → Call F V
  previewed : (bytes : Bytes) (now : ℕ) → Call F V

module _ {F V : Type 0} (f64 : Floats F) (adjusted_message : AppliedCameraState F → Bytes)
    (same_capabilities : CameraCapabilities F → CameraCapabilities F → Bool)
    (same_applied : Option (AppliedCameraState F) → Option (AppliedCameraState F) → Bool) where
  unfoldable pub call : CameraSession F V → Call F V → CameraSession F V
  call s (offered capabilities a f now) = (activate_waiting s capabilities a f now).0
  call s (ended reason) = stop s reason
  call s (heartbeat_checked now) = (expire_heartbeat s now).0
  call s (pending_checked now) = (expire_pending s now).0
  call s (commanded c now) = (enqueue_command f64 s c now).0
  call s (beat u now) =
      (accept_heartbeat f64 adjusted_message same_capabilities same_applied s u now).0
  call s (previewed bytes now) = take_preview s bytes now

  unfoldable pub calls : CameraSession F V → List (Call F V) → CameraSession F V
  calls s [] = s
  calls s (c ∷ cs) = calls (call s c) cs

  call-IsSession : (s : CameraSession F V) (c : Call F V) → IsSession s → IsSession (call s c)
  unfolding call
  call-IsSession s (offered capabilities a f now) v =
      activate_waiting-IsSession s capabilities a f now v
  call-IsSession s (ended reason) v = stop-IsSession s reason v
  call-IsSession s (heartbeat_checked now) v = expire_heartbeat-IsSession s now v
  call-IsSession s (pending_checked now) v = expire_pending-IsSession s now v
  call-IsSession s (commanded c now) v = enqueue_command-IsSession f64 s c now v
  call-IsSession s (beat u now) v =
      accept_heartbeat-IsSession f64 adjusted_message same_capabilities same_applied s u now v
  call-IsSession s (previewed bytes now) v = take_preview-IsSession s bytes now v

  -- In every history of offers, stops, checks, commands, heartbeats and preview pictures, from a session
  -- that is well, such as a new one: a command is pending just when its
  -- time is known, at most 256 command ids are remembered and that of a pending command is among them,
  -- and a stopped session has its cancellation set, no pending command and no preview.
  pub calls-IsSession :
      (s : CameraSession F V) (cs : List (Call F V)) → IsSession s → IsSession (calls s cs)
  unfolding calls
  calls-IsSession s [] v = v
  calls-IsSession s (c ∷ cs) v = calls-IsSession (call s c) cs (call-IsSession s c v)

  call-stopped :
      (s : CameraSession F V) (c : Call F V) → IsSession s → s.status ≡ stopped → call s c ≡ s
  unfolding call activate_waiting stop expire_heartbeat expire_pending enqueue_command
      accept_heartbeat take_preview
  call-stopped s (offered capabilities a f now) v e = ground arith
  call-stopped s (ended reason) v e = ground arith
  call-stopped s (heartbeat_checked now) v e = ground arith
  call-stopped s (pending_checked now) v e = ground (arith, (v.ended e).nothing_pending)
  call-stopped s (commanded c now) v e = ground arith
  call-stopped s (beat u now) v e = ground arith
  call-stopped s (previewed bytes now) v e = ground (arith, (v.ended e).cancelled)

  -- A stopped session is final: no offer, command, heartbeat, preview picture, check or further stop
  -- changes it.
  pub calls-stopped :
      (s : CameraSession F V) (cs : List (Call F V))
      → IsSession s
      → s.status ≡ stopped
      → calls s cs ≡ s
  unfolding calls
  calls-stopped s [] v e = refl
  calls-stopped s (c ∷ cs) v e =
      let same = call-stopped s c v e in
      ap (λ (x : CameraSession F V). calls x cs) same ∙ calls-stopped s cs v e

-- When a command that is not a stop is taken.
pub record MayTake {F V : Type 0} (f64 : Floats F) (s : CameraSession F V) (c : CameraCommand F)
    : Type 0 where
  pub same_session : c.session_id ≡ s.session_id
  pub session_live : is_live s.status ≡ true
  pub current : c.expected_revision ≡ s.revision
  pub free : is_some s.pending ≡ false
  pub well_formed : is_command_id c.command_id ≡ true
  pub unseen : any s.seen_command_ids (λ id. bytes_eq id c.command_id) ≡ false
  pub keeps_format : is_some_and s.output_format (changes_format f64 c.controls) ≡ false
  pub valid : validate_requested f64 c.controls s.capabilities ≡ ok tt
