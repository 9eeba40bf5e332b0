-- ===== src/Provider/Beats.antt =====
-- crates/omacam-daemon/src/browser/session.rs: a heartbeat keeps `IsSession`.
use omalens.Prelude.{
  ℕ, ◌≡◌, refl, ap, sym, ◌∙◌, Bool, true, not, ◌||◌, Option, none, some, Bytes, bytes_eq, Result,
  ok, err, if_both, is_some,
}
use omalens.Camera.{
  Floats, CameraCapabilities, AppliedCameraState, CameraError, validate_capabilities,
  validate_applied,
}
use omalens.Provider.{CameraSession, CameraCommand, CommandOutcome, is_live}
use omalens.Provider.Session.{expire_pending}
use omalens.Provider.Heartbeat.{
  PhoneHeartbeat, HeartbeatError, Accepted, acknowledged, after_command, checked_update,
  accept_heartbeat, with_state, bumped, beaten, settled, noted, with_applied, given, outcome_of,
  invalid_capabilities, invalid_applied_state,
}
use omalens.Provider.Invariant.{IsSession, expire_pending-IsSession}

module _ {F V : Type 0} where
  -- A change of the fields that the invariant does not name.
  still :
      (s t : CameraSession F V)
      → t.pending ≡ s.pending
      → t.pending_since ≡ s.pending_since
      → t.seen_command_ids ≡ s.seen_command_ids
      → t.status ≡ s.status
      → t.cancel ≡ s.cancel
      → t.preview ≡ s.preview
      → IsSession s
      → IsSession t
  still s t p q r st c w v = record {
    together = ap is_some p ∙ v.together ∙ sym (ap is_some q);
    few = rw r v.few;
    known = rw (p, r) v.known;
    ended = λ e.
        let x = v.ended (sym st ∙ e) in
        record {
          cancelled = c ∙ x.cancelled;
          nothing_pending = p ∙ x.nothing_pending;
          nothing_shown = w ∙ x.nothing_shown;
        };
  }

  settled-IsSession :
      (s : CameraSession F V) (o : CommandOutcome) → IsSession s → IsSession (settled s o)
  settled-IsSession s o v = record {
    together = refl;
    few = v.few;
    known = tt;
    ended = λ e. record {
      cancelled = (v.ended e).cancelled;
      nothing_pending = refl;
      nothing_shown = (v.ended e).nothing_shown;
    };
  }

  bumped-IsSession :
      (changed : Bool) (s : CameraSession F V) → IsSession s → IsSession (bumped changed s)
  bumped-IsSession changed s v =
      if_both IsSession changed (still s _ refl refl refl refl refl refl v) v

  module _ (f64 : Floats F) (adjusted_message : AppliedCameraState F → Bytes)
      (same_capabilities : CameraCapabilities F → CameraCapabilities F → Bool)
      (same_applied : Option (AppliedCameraState F) → Option (AppliedCameraState F) → Bool) where
    with_state-IsSession :
        (s : CameraSession F V) (u : PhoneHeartbeat F V) (next : CameraCapabilities F)
        (changed : Bool) (c : Option (CameraCommand F)) (a : AppliedCameraState F) (now : ℕ)
        → IsSession s
        → IsSession (
            with_state f64 adjusted_message same_capabilities same_applied s u next changed c a now)
    with_state-IsSession s u next changed (some c) a now v =
        bumped-IsSession true
          (settled (beaten (with_applied s a) u next now)
            (outcome_of f64 adjusted_message u.error c a))
          (settled-IsSession (beaten (with_applied s a) u next now)
            (outcome_of f64 adjusted_message u.error c a)
            (still s (beaten (with_applied s a) u next now) refl refl refl refl refl refl v))
    with_state-IsSession s u next changed none a now v =
        bumped-IsSession (changed || not (same_applied s.applied (some a)))
          (noted (beaten (with_applied s a) u next now) u.error)
          (still s (noted (beaten (with_applied s a) u next now) u.error) refl refl refl refl refl
            refl v)

    after_command-IsSession :
        (s : CameraSession F V) (u : PhoneHeartbeat F V) (next : CameraCapabilities F)
        (c : Option (CameraCommand F)) (a : Option (AppliedCameraState F)) (now : ℕ)
        → IsSession s
        → IsSession
            (after_command f64 adjusted_message same_capabilities same_applied s u next c a now).0
    unfolding after_command
    after_command-IsSession s u next (some c) none now v = v
    after_command-IsSession s u next none none now v =
        bumped-IsSession (not (same_capabilities s.capabilities next))
          (noted (beaten s u next now) u.error)
          (still s (noted (beaten s u next now) u.error) refl refl refl refl refl refl v)
    after_command-IsSession s u next none (some a) now v = go (validate_applied f64 a next)
      where
        go :
            (o : Result CameraError (Unit {0}))
            → IsSession
                (elim o as (λ x. Accepted F V) [
                  | err e ↦ (s, err (invalid_applied_state e))
                  | ok _ ↦ (
                    with_state f64 adjusted_message same_capabilities same_applied s u next
                        (not (same_capabilities s.capabilities next))
                        none
                        a
                        now,
                    ok tt,
                  )
                ]).0
        go (err e) = v
        go (ok _) =
            with_state-IsSession s u next (not (same_capabilities s.capabilities next)) none a now v
    after_command-IsSession s u next (some c) (some a) now v = go (validate_applied f64 a next)
      where
        go :
            (o : Result CameraError (Unit {0}))
            → IsSession
                (elim o as (λ x. Accepted F V) [
                  | err e ↦ (s, err (invalid_applied_state e))
                  | ok _ ↦ (
                    with_state f64 adjusted_message same_capabilities same_applied s u next
                        (not (same_capabilities s.capabilities next))
                        (some c)
                        a
                        now,
                    ok tt,
                  )
                ]).0
        go (err e) = v
        go (ok _) =
            with_state-IsSession s u next (not (same_capabilities s.capabilities next)) (some c) a
              now v

    checked_update-IsSession :
        (s : CameraSession F V) (u : PhoneHeartbeat F V) (now : ℕ)
        → IsSession s
        → IsSession (checked_update f64 adjusted_message same_capabilities same_applied s u now).0
    unfolding checked_update
    checked_update-IsSession s u now v =
        go (validate_capabilities f64 (given u.capabilities s.capabilities))
          (acknowledged s.pending u.command_id)
      where
        go :
            (o : Result CameraError (Unit {0}))
            (x : Result HeartbeatError (Option (CameraCommand F)))
            → IsSession
                (elim o as (λ y. Accepted F V) [
                  | err e ↦ (s, err (invalid_capabilities e))
                  | ok _ ↦ elim x [
                    | err e ↦ (s, err e)
                    | ok c ↦
                        after_command f64 adjusted_message same_capabilities same_applied s u
                          (given u.capabilities s.capabilities)
                          c
                          u.applied
                          now
                  ]
                ]).0
        go (err e) x = v
        go (ok _) (err e) = v
        go (ok _) (ok c) =
            after_command-IsSession s u (given u.capabilities s.capabilities) c u.applied now v

    pub accept_heartbeat-IsSession :
        (s : CameraSession F V) (u : PhoneHeartbeat F V) (now : ℕ)
        → IsSession s
        → IsSession (accept_heartbeat f64 adjusted_message same_capabilities same_applied s u now).0
    unfolding accept_heartbeat
    accept_heartbeat-IsSession s u now v =
        let Q : Accepted F V → Type 0 = λ x. IsSession x.0 in
        if_both Q (not (bytes_eq u.session_id s.session_id)) v (
          if_both Q (not (is_live s.status)) v (
            checked_update-IsSession (expire_pending s now).0 u now
              (expire_pending-IsSession s now v)))
