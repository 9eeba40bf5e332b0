-- ===== src/Provider/Heartbeat.antt =====
-- crates/omacam-daemon/src/browser/session.rs: `accept_heartbeat`.
use omalens.Prelude.{
  ℕ, Bool, true, not, ◌||◌, Option, none, some, Bytes, bytes_eq, is_empty, if◌then◌else◌, Result,
  ok, err, saturating_add,
}
use omalens.Camera.{
  Floats, CameraCapabilities, AppliedCameraState, CameraError, validate_capabilities,
  validate_applied, is_reflected_by,
}
use omalens.Provider.{
  CameraSession, CameraCommand, CommandOutcome, CommandOutcomeStatus, applied_as_asked, adjusted,
  rejected, is_live,
}
use omalens.Provider.Session.{expire_pending}

pub record PhoneHeartbeat (F V : Type 0) : Type 0 where
  pub session_id : Bytes
  pub capabilities : Option (CameraCapabilities F)
  pub applied : Option (AppliedCameraState F)
  pub command_id : Option Bytes
  pub error : Option Bytes
  pub stats : Option V

pub data HeartbeatError : Type 0 where
  wrong_session not_live stale_acknowledgement missing_applied_state : HeartbeatError
  invalid_capabilities invalid_applied_state : CameraError → HeartbeatError

abbrev pub given {ℓ} : {A : Type ℓ} → Option A → A → A
given none fallback = fallback
given (some a) fallback = a

-- `Some` of what is given, or what was there.
abbrev pub replaced {ℓ} : {A : Type ℓ} → Option A → Option A → Option A
replaced none old = old
replaced (some a) old = some a

abbrev pub non_empty : Option Bytes → Option Bytes
non_empty none = none
non_empty (some e) = if is_empty e then none else some e

module _ {F : Type 0} where
  -- The command that the heartbeat acknowledges.
  unfoldable pub acknowledged :
      Option (CameraCommand F) → Option Bytes → Result HeartbeatError (Option (CameraCommand F))
  acknowledged pending none = ok none
  acknowledged none (some id) = err stale_acknowledgement
  acknowledged (some c) (some id) =
      if bytes_eq c.command_id id then ok (some c) else err stale_acknowledgement

  module _ (f64 : Floats F) (adjusted_message : AppliedCameraState F → Bytes) where
    abbrev pub judged :
        Option Bytes → CameraCommand F → AppliedCameraState F → CommandOutcomeStatus × Option Bytes
    judged (some e) c a = (rejected, some e)
    judged none c a =
        if is_reflected_by f64 c.controls a
        then (applied_as_asked, none)
        else (adjusted, some (adjusted_message a))

    unfoldable pub outcome_of :
        Option Bytes → CameraCommand F → AppliedCameraState F → CommandOutcome
    outcome_of error c a = record {
      command_id = c.command_id;
      status = (judged (non_empty error) c a).0;
      message = (judged (non_empty error) c a).1;
    }

abbrev pub Accepted : Type 0 → Type 0 → Type 0
Accepted F V = CameraSession F V × Result HeartbeatError (Unit {0})

module _ {F V : Type 0} where
  abbrev pub bumped : Bool → CameraSession F V → CameraSession F V
  bumped changed s = if changed then record s { revision = saturating_add s.revision 1 } else s

  abbrev pub beaten :
      CameraSession F V → PhoneHeartbeat F V → CameraCapabilities F → (now : ℕ) → CameraSession F V
  beaten s u capabilities now = record s {
    capabilities = capabilities;
    stats = record s.stats { phone = replaced u.stats s.stats.phone };
    heartbeat = now;
  }

  -- The end of `accept_heartbeat`, for a command that is acknowledged and for none.
  abbrev pub settled : CameraSession F V → CommandOutcome → CameraSession F V
  settled s o = record s {
    pending = none;
    pending_since = none;
    last_command_id = some o.command_id;
    last_command_outcome = some o;
    error = o.message;
  }

  abbrev pub noted : CameraSession F V → Option Bytes → CameraSession F V
  noted s e = record s { error = replaced e s.error }

  abbrev pub with_applied : CameraSession F V → AppliedCameraState F → CameraSession F V
  with_applied s a = record s { applied = some a }

  module _ (f64 : Floats F) (adjusted_message : AppliedCameraState F → Bytes)
      (same_capabilities : CameraCapabilities F → CameraCapabilities F → Bool)
      (same_applied : Option (AppliedCameraState F) → Option (AppliedCameraState F) → Bool) where
    -- With an applied state that was found valid.
    abbrev pub with_state :
        CameraSession F V
        → PhoneHeartbeat F V
        → CameraCapabilities F
        → (changed : Bool) → Option (CameraCommand F)
        → AppliedCameraState F
        → (now : ℕ) → CameraSession F V
    with_state s u next changed (some c) a now = bumped true (
        settled (beaten (with_applied s a) u next now)
          (outcome_of f64 adjusted_message u.error c a))
    with_state s u next changed none a now =
        bumped (changed || not (same_applied s.applied (some a)))
          (noted (beaten (with_applied s a) u next now) u.error)

    unfoldable pub after_command :
        CameraSession F V
        → PhoneHeartbeat F V
        → CameraCapabilities F
        → Option (CameraCommand F)
        → Option (AppliedCameraState F)
        → (now : ℕ) → Accepted F V
    after_command s u next (some c) none now = (s, err missing_applied_state)
    after_command s u next none none now = (
      bumped (not (same_capabilities s.capabilities next)) (noted (beaten s u next now) u.error),
      ok tt,
    )
    after_command s u next c (some a) now = elim (validate_applied f64 a next) [
      | err e ↦ (s, err (invalid_applied_state e))
      | ok _ ↦ (with_state s u next (not (same_capabilities s.capabilities next)) c a now, ok tt)
    ]

    -- After the pending command was expired.
    unfoldable pub checked_update :
        CameraSession F V → PhoneHeartbeat F V → (now : ℕ) → Accepted F V
    checked_update s u now =
        let next = given u.capabilities s.capabilities in
        elim (validate_capabilities f64 next) [
          | err e ↦ (s, err (invalid_capabilities e))
          | ok _ ↦ elim (acknowledged s.pending u.command_id) [
            | err e ↦ (s, err e)
            | ok c ↦ after_command s u next c u.applied now
          ]
        ]

    unfoldable pub accept_heartbeat :
        CameraSession F V → PhoneHeartbeat F V → (now : ℕ) → Accepted F V
    unfolding checked_update
    accept_heartbeat s u now =
        if not (bytes_eq u.session_id s.session_id)
        then (s, err wrong_session)
        else if not (is_live s.status)
        then (s, err not_live)
        else checked_update (expire_pending s now).0 u now
