-- ===== src/Runtime/Invariant.antt =====
-- crates/omacam-daemon/src/service_runtime.rs: what holds of the queue in every history.
use mathlib.Core.Path.{subst}
use omalens.Prelude.{
  ◌==◌, Bool-cases, is_none_or, saturating_add, ℕ, ◌≡◌, refl, sym, Bool, true, false, not, ◌||◌,
  Option, none, some, List, [], ◌∷◌, ◌++◌, Bytes, Result, ok, err, if◌then◌else◌, arith, inl, inr,
  if_both, is_empty, ltb, length, is_empty-length, is_some,
}
use omalens.Camera.{CameraCapabilities, AppliedCameraState, find}
use omalens.Policy.{SessionPolicy, OutputState}
use omalens.Runtime.{
  RuntimeError, operation_id_conflict, invalid_operation_id, same_intent, is_failed, output_code,
  CaptureStatsSnapshot, Intent, OperationSnapshot, OperationState, RuntimeInner, has_id, cancel,
  replace, trim, finished, new_operation, is_pending, op_succeeded, op_failed, last_cancelled,
  same_state,
}
use omalens.Runtime.Locked.{
  publish_policy, set_output_state, set_output_failed, invalidate_stop, revoke, disconnect,
  publish_capture_stats, publish_camera, enqueue, finish, is_active, is_current,
}
use omalens.Runtime.Operations.{
  ids, AreIds, IsOperationId, append-AreIds, ids-cancel, ids-replace, find-id, find-cancel,
  find-replace, find-pushed, Kept,
}
use omalens.Runtime.Steps.{
  Part, policy_published, output_set, output_lost, stop_invalidated, peer_revoked,
  connection_dropped, stats_published, camera_published, enqueued, succeeded, failed_with,
  take_part, take_parts,
}

-- What one part can do to the queue.
data Change (before after : List OperationSnapshot) : Type 0 where
  same : after ≡ before → Change before after
  cancels : after ≡ cancel before → Change before after
  pushes :
      (new : OperationSnapshot)
      → find before (has_id new.id) ≡ none
      → IsOperationId new.id
      → after ≡ trim (before ++ new ∷ [])
      → Change before after
  ends :
      (old : OperationSnapshot) (state : OperationState) (code message : Option Bytes)
      → find before (has_id old.id) ≡ some old
      → is_pending old.state ≡ true
      → after ≡ replace old.id (finished old state code message) before
      → Change before after

Change-AreIds :
    {before after : List OperationSnapshot}
    → Change before after
    → AreIds (ids before)
    → AreIds (ids after)
Change-AreIds (same e) v = rw e v
Change-AreIds {before} (cancels e) v = rw (e, ids-cancel before) v
Change-AreIds {before} (pushes new absent valid e) v =
    rw e (append-AreIds before new v absent valid)
Change-AreIds {before} (ends old state code message found p e) v =
    rw (e, ids-replace old.id (finished old state code message) before refl) v

Change-Kept :
    {before after : List OperationSnapshot} (id : Bytes) (o : OperationSnapshot)
    → Change before after
    → AreIds (ids before)
    → find before (has_id id) ≡ some o
    → is_pending o.state ≡ false
    → Kept o (find after (has_id id))
Change-Kept id o (same e) v found done = inl (rw e found)
Change-Kept {before} id o (cancels e) v found done = inl (rw e (find-cancel before id o found done))
Change-Kept {before} id o (pushes new absent valid e) v found done =
    rw e (find-pushed before new o id v absent found)
Change-Kept {before} id o (ends old state code message f p e) v found done = inl (
    rw e
      (find-replace old.id (finished old state code message) old before id o refl f p found done))

module _ {F : Type 0} where
  Changes : RuntimeInner F → RuntimeInner F → Type 0
  Changes r s = Change r.operations s.operations

  publish_policy-Changes :
      (r : RuntimeInner F) (policy : SessionPolicy) → Changes r (publish_policy r policy)
  unfolding publish_policy Changes
  publish_policy-Changes r policy =
      if_both (Changes r) (same_state r.state _) (same refl) (same refl)

  set_output_state-Changes :
      (r : RuntimeInner F) (output : OutputState) → Changes r (set_output_state r output)
  unfolding set_output_state Changes
  set_output_state-Changes r output =
      if_both (Changes r) (output_code r.state.output == output_code output) (same refl) (same refl)

  invalidate_stop-Changes : (r : RuntimeInner F) → Changes r (invalidate_stop r)
  unfolding invalidate_stop Changes
  invalidate_stop-Changes r =
      if_both (Changes r) (is_active r || is_some (last_cancelled r.operations)) (cancels refl)
        (cancels refl)

  publish_capture_stats-Changes :
      (r : RuntimeInner F) (generation : ℕ) (stats : CaptureStatsSnapshot F)
      → Changes r (publish_capture_stats r generation stats)
  unfolding publish_capture_stats Changes
  publish_capture_stats-Changes r generation stats =
      if_both (Changes r) (not (is_current r generation)) (same refl) (same refl)

  enqueue-Changes :
      (r : RuntimeInner F) (id : Bytes) (intent : Intent) → Changes r (enqueue r id intent).0
  unfolding enqueue Changes
  enqueue-Changes r id intent = go (find r.operations (has_id id)) refl
    where
      pushed : RuntimeInner F
      pushed = record r {
        operations = trim (r.operations ++ new_operation id intent ∷ []);
        revision = saturating_add r.revision 1;
      }

      go :
          (f : Option OperationSnapshot)
          → find r.operations (has_id id) ≡ f
          → Change r.operations
              (elim f as (λ x. RuntimeInner F × Result RuntimeError Bool) [
                | some existing ↦ (
                  r,
                  if same_intent existing.intent intent
                      then ok false
                      else err operation_id_conflict,
                )
                | none ↦
                    if is_empty id || ltb 64 (length id)
                    then (r, err invalid_operation_id)
                    else (pushed, ok true)
              ]).0.operations
      go (some existing) e = same refl
      go none e = elim (Bool-cases (is_empty id || ltb 64 (length id))) [
        | inl bad ↦ rw bad (same refl)
        | inr good ↦ rw good (
            pushes (new_operation id intent) e (ground (arith, is_empty-length id), ground arith)
              refl)
      ]

  finish-Changes :
      (r : RuntimeInner F) (id : Bytes) (state : OperationState) (code message : Option Bytes)
      → Changes r (finish r id state code message)
  unfolding finish Changes
  finish-Changes r id state code message = go (find r.operations (has_id id)) refl
    where
      ended : OperationSnapshot → RuntimeInner F
      ended o = record r {
        operations = replace id (finished o state code message) r.operations;
        last_error = if is_failed state then some (finished o state code message) else r.last_error;
        revision = saturating_add r.revision 1;
      }

      go :
          (f : Option OperationSnapshot)
          → find r.operations (has_id id) ≡ f
          → Change r.operations
              (elim f as (λ x. RuntimeInner F) [
                | none ↦ r
                | some o ↦ if not (is_pending o.state) then r else ended o
              ]).operations
      go none e = same refl
      go (some o) e = elim (Bool-cases (is_pending o.state)) [
        | inl open_one ↦ rw open_one (
            subst
              (λ (k : Bytes).
                Change r.operations (replace k (finished o state code message) r.operations))
              (find-id r.operations id o e)
              (ends o state code message
                (subst (λ (k : Bytes). find r.operations (has_id k) ≡ some o)
                  (sym (find-id r.operations id o e)) e)
                open_one refl))
        | inr closed ↦ rw closed (same refl)
      ]

module _ {F : Type 0} (same_capabilities : CameraCapabilities F → CameraCapabilities F → Bool)
    (same_applied : AppliedCameraState F → AppliedCameraState F → Bool) where
  publish_camera-Changes :
      (r : RuntimeInner F) (generation : ℕ) (capabilities : CameraCapabilities F)
      (applied : AppliedCameraState F)
      → Changes r (publish_camera same_capabilities same_applied r generation capabilities applied)
  unfolding publish_camera Changes
  publish_camera-Changes r generation capabilities applied =
      if_both (Changes r) (not (is_current r generation)) (same refl) (
        if_both (Changes r)
          (is_none_or r.camera_capabilities (λ c. not (same_capabilities c capabilities))
            || is_none_or r.applied_camera (λ c. not (same_applied c applied)))
          (same refl) (same refl))

  take_part-Changes :
      (r : RuntimeInner F) (p : Part F) → Changes r (take_part same_capabilities same_applied r p)
  unfolding take_part set_output_failed revoke disconnect Changes
  take_part-Changes r (policy_published policy) = publish_policy-Changes r policy
  take_part-Changes r (output_set output) = set_output_state-Changes r output
  take_part-Changes r (output_lost message) = same refl
  take_part-Changes r stop_invalidated = invalidate_stop-Changes r
  take_part-Changes r peer_revoked = same refl
  take_part-Changes r connection_dropped = same refl
  take_part-Changes r (stats_published generation stats) =
      publish_capture_stats-Changes r generation stats
  take_part-Changes r (camera_published generation capabilities applied) =
      publish_camera-Changes r generation capabilities applied
  take_part-Changes r (enqueued id intent) = enqueue-Changes r id intent
  take_part-Changes r (succeeded id) = finish-Changes r id op_succeeded none none
  take_part-Changes r (failed_with id code message) =
      finish-Changes r id op_failed (some code) (some message)

  -- From the start on, whatever the tasks do in whatever order: the queue holds at most 32 operations,
  -- no two with the same id, and each id has 1 to 64 bytes.
  pub take_parts-AreIds :
      (r : RuntimeInner F) (ps : List (Part F))
      → AreIds (ids r.operations)
      → AreIds (ids (take_parts same_capabilities same_applied r ps).operations)
  unfolding take_parts Changes
  take_parts-AreIds r [] v = v
  take_parts-AreIds r (p ∷ ps) v =
      take_parts-AreIds (take_part same_capabilities same_applied r p) ps
        (Change-AreIds (take_part-Changes r p) v)

  -- An operation that has succeeded or failed is never changed again: after any part it is found as it was, unless the queue has
  -- let it go.
  pub take_part-Kept :
      (r : RuntimeInner F) (p : Part F) (id : Bytes) (o : OperationSnapshot)
      → AreIds (ids r.operations)
      → find r.operations (has_id id) ≡ some o
      → is_pending o.state ≡ false
      → Kept o (find (take_part same_capabilities same_applied r p).operations (has_id id))
  unfolding Changes
  take_part-Kept r p id o v found done = Change-Kept id o (take_part-Changes r p) v found done
