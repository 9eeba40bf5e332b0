-- ===== src/Provider/Invariant.antt =====
-- crates/omacam-daemon/src/browser/session.rs: what holds of the session in every history.
use omalens.Prelude.{
  ℕ, ◌-◌, ◌==◌, ◌≤◌, ◌≡◌, refl, ap, Bool, true, false, not, ◌&&◌, Option, none, some, List, [], ◌∷◌,
  ◌++◌, Bytes, bytes_eq, bytes_eq_refl, Result, ok, err, if◌then◌else◌, arith, if_both, is_some,
  is_some_and, any, length, length-append, ltb, leb,
}
use omalens.Camera.{Floats, CameraCapabilities, AppliedCameraState, CameraError, validate_requested}
use omalens.Provider.{
  live_format_change, reused_id, invalid_id, pending_command, stale_revision, not_live, VideoFormat,
  Status, waiting, live, stopped, CameraSession, CameraCommand, Enqueued, is_live, is_stopped,
  is_waiting, remember, is_command_id, wants_stop, invalid_controls, command_timeout, note_preview,
  phone_heartbeat_timeout,
}
use omalens.Provider.Session.{
  changes_format, activate, activate_waiting, stop, expire_heartbeat, expire_pending,
  enqueue_command, taken, take_preview, is_jpeg,
}

-- The id of a pending command is among those that were seen.
abbrev pub IsKnown : {F : Type 0} → Option (CameraCommand F) → List Bytes → Type 0
IsKnown none seen = Unit {0}
IsKnown (some c) seen = any seen (λ id. bytes_eq id c.command_id) ≡ true

pub record IsEnded {F V : Type 0} (s : CameraSession F V) : Type 0 where
  pub cancelled : s.cancel ≡ true
  pub nothing_pending : s.pending ≡ none
  pub nothing_shown : s.preview ≡ none

pub record IsSession {F V : Type 0} (s : CameraSession F V) : Type 0 where
  pub together : is_some s.pending ≡ is_some s.pending_since
  pub few : length s.seen_command_ids ≤ 256
  pub known : IsKnown s.pending s.seen_command_ids
  pub ended : s.status ≡ stopped → IsEnded s

any-append : (seen : List Bytes) (id : Bytes) → any (seen ++ id ∷ []) (λ x. bytes_eq x id) ≡ true
any-append [] id = ground (arith, bytes_eq_refl id)
any-append (x ∷ seen) id = ground (arith, any-append seen id)

-- A new id is remembered, in a list that stays short.
remember_known :
    (seen : List Bytes) (id : Bytes)
    → length seen ≤ 256
    → any (remember seen id) (λ x. bytes_eq x id) ≡ true
remember_known [] id h = any-append [] id
remember_known (x ∷ seen) id h =
    if_both (λ (l : List Bytes). any l (λ x. bytes_eq x id) ≡ true)
      (ltb 256 (length ((x ∷ seen) ++ id ∷ []))) (any-append seen id) (any-append (x ∷ seen) id)

remember_few :
    (seen : List Bytes) (id : Bytes) → length seen ≤ 256 → length (remember seen id) ≤ 256
remember_few [] id h = omega arith
remember_few (x ∷ seen) id h = ground (arith, length-append seen (id ∷ []))

module _ {F V : Type 0} where
  pub stop-IsSession :
      (s : CameraSession F V) (reason : Bytes) → IsSession s → IsSession (stop s reason)
  unfolding stop
  stop-IsSession s reason v = if_both IsSession (is_stopped s.status) v (record {
    together = refl;
    few = v.few;
    known = tt;
    ended = λ e. record { cancelled = refl; nothing_pending = refl; nothing_shown = refl };
  })

  pub activate_waiting-IsSession :
      (s : CameraSession F V) (capabilities : CameraCapabilities F) (a : AppliedCameraState F)
      (f : VideoFormat) (now : ℕ)
      → IsSession s
      → IsSession (activate_waiting s capabilities a f now).0
  unfolding activate_waiting activate
  activate_waiting-IsSession s capabilities a f now v =
      if_both (λ (x : CameraSession F V × Bool). IsSession x.0) (not (is_waiting s.status)) v
        (record { together = v.together; few = v.few; known = v.known; ended = λ e. cc })

  pub expire_heartbeat-IsSession :
      (s : CameraSession F V) (now : ℕ) → IsSession s → IsSession (expire_heartbeat s now).0
  unfolding expire_heartbeat
  expire_heartbeat-IsSession s now v =
      if_both (λ (x : CameraSession F V × Bool). IsSession x.0)
        (is_live s.status && ltb phone_heartbeat_timeout (now - s.heartbeat)) (stop-IsSession s _ v)
        v

  pub expire_pending-IsSession :
      (s : CameraSession F V) (now : ℕ) → IsSession s → IsSession (expire_pending s now).0
  unfolding expire_pending
  expire_pending-IsSession s now v =
      if_both (λ (x : CameraSession F V × Bool). IsSession x.0)
        (is_some s.pending
          && is_some_and s.pending_since (λ since. leb command_timeout (now - since)))
        (record {
          together = refl;
          few = v.few;
          known = tt;
          ended = λ e. record {
            cancelled = (v.ended e).cancelled;
            nothing_pending = refl;
            nothing_shown = (v.ended e).nothing_shown;
          };
        })
        v

  pub take_preview-IsSession :
      (s : CameraSession F V) (bytes : Bytes) (now : ℕ)
      → IsSession s
      → IsSession (take_preview s bytes now)
  unfolding take_preview
  take_preview-IsSession s bytes now v =
      if_both IsSession (not (is_jpeg bytes)) v (go s.cancel refl)
    where
      go :
          (cancelled : Bool)
          → s.cancel ≡ cancelled
          → IsSession (
              if cancelled then s else record s {
                preview = some (record { captured_at = now; jpeg = bytes });
                stats = note_preview s.stats;
              })
      go true e = v
      go false e = record {
        together = v.together;
        few = v.few;
        known = v.known;
        ended = λ d. absurd (cc (e, (v.ended d).cancelled));
      }

  taken-IsSession :
      (s : CameraSession F V) (c : CameraCommand F) (now : ℕ)
      → is_live s.status ≡ true
      → IsSession s
      → IsSession (taken s c now)
  taken-IsSession s c now l v = record {
    together = refl;
    few = remember_few s.seen_command_ids c.command_id v.few;
    known = remember_known s.seen_command_ids c.command_id v.few;
    ended = λ e. absurd (cc (l, e));
  }

  abbrev Good : Enqueued F V → Type 0
  Good x = IsSession x.0

  module _ (f64 : Floats F) where
    pub enqueue_command-IsSession :
        (s : CameraSession F V) (c : CameraCommand F) (now : ℕ)
        → IsSession s
        → IsSession (enqueue_command f64 s c now).0
    unfolding enqueue_command
    enqueue_command-IsSession s c now v =
        let Q : Enqueued F V → Type 0 = λ x. IsSession x.0 in
        if_both Q (not (bytes_eq c.session_id s.session_id)) v
          (if_both Q (wants_stop c.controls.stop) (stop-IsSession s _ v) (on_live s.status refl))
      where
        at_end :
            is_live s.status ≡ true
            → (o : Result CameraError (Unit {0}))
            → IsSession
                (elim o as (λ x. Enqueued F V) [
                  | err e ↦ (s, err (invalid_controls e))
                  | ok _ ↦ (taken s c now, ok tt)
                ]).0
        at_end l (err e) = v
        at_end l (ok _) = taken-IsSession s c now l v

        on_live :
            (status : Status)
            → s.status ≡ status
            → Good (
                if not (is_live status)
                then (s, err not_live)
                else if not (c.expected_revision == s.revision)
                then (s, err stale_revision)
                else if is_some s.pending
                then (s, err pending_command)
                else if not (is_command_id c.command_id)
                then (s, err invalid_id)
                else if any s.seen_command_ids (λ id. bytes_eq id c.command_id)
                then (s, err reused_id)
                else if is_some_and s.output_format (changes_format f64 c.controls)
                then (s, err live_format_change)
                else elim (validate_requested f64 c.controls s.capabilities) [
                  | err e ↦ (s, err (invalid_controls e))
                  | ok _ ↦ (taken s c now, ok tt)
                ])
        on_live waiting e = v
        on_live stopped e = v
        on_live live e =
            let Q : Enqueued F V → Type 0 = λ x. IsSession x.0 in
            if_both Q (not (c.expected_revision == s.revision)) v (
              if_both Q (is_some s.pending) v (
                if_both Q (not (is_command_id c.command_id)) v (
                  if_both Q (any s.seen_command_ids (λ id. bytes_eq id c.command_id)) v (
                    if_both Q (is_some_and s.output_format (changes_format f64 c.controls)) v
                      (at_end (ap is_live e) (validate_requested f64 c.controls s.capabilities))))))
