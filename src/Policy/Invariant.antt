-- ===== src/Policy/Invariant.antt =====
-- crates/omacam-core/src/lib.rs: what holds of the session policy between two calls.
use omalens.Prelude.{◌<◌, ◌≡◌, ◌≢◌, true, ◌||◌, List, [], ◌∷◌, arith, is_some, u64_mod}
use omalens.Policy.{
  SessionPolicy, Event, PolicyError, refused, trusted, online, idle, streaming, stopping, failed,
  ready_live, is_starting, is_streaming, default, step, run,
}

pub record Inv (p : SessionPolicy) : Type 0 where
  pub armed_while_capturing :
      is_some p.lease_expires_at_ms ≡ (is_starting p.capture || is_streaming p.capture)
  pub frame_while_streaming : is_some p.last_frame_at_ms ≡ true → p.capture ≡ streaming
  pub live_has_frame : p.output ≡ ready_live → is_some p.last_frame_at_ms ≡ true
  pub session_trusted : p.capture ≢ idle → p.trust ≡ trusted
  pub online_trusted : p.connection ≡ online → p.trust ≡ trusted
  pub never_stopping : p.capture ≢ stopping
  pub never_failed : p.capture ≢ failed
  pub generation_fits : p.generation < u64_mod

pub default-Inv : Inv default
unfolding default
default-Inv = ground arith

-- Every call keeps the invariant, whatever its arguments and its outcome.
pub step-Inv : (p : SessionPolicy) (e : Event) → Inv p → Inv (step p e).0
unfolding step
step-Inv p Event.output_ready v = ground arith
step-Inv p _ v = ground arith

run_from-Inv : (p : SessionPolicy) (es : List Event) → Inv p → Inv (run p es)
unfolding run
run_from-Inv p [] v = v
run_from-Inv p (e ∷ es) v = run_from-Inv (step p e).0 es (step-Inv p e v)

pub run-Inv : (es : List Event) → Inv (run default es)
run-Inv es = run_from-Inv default es default-Inv

-- A call that is refused leaves the policy as it was.
step_refused_unchanged :
    (p : SessionPolicy) (e : Event) {why : PolicyError}
    → (step p e).1 ≡ refused why
    → (step p e).0 ≡ p
unfolding step
step_refused_unchanged p Event.output_ready h = ground arith
step_refused_unchanged p _ h = ground arith
