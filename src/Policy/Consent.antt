-- ===== src/Policy/Consent.antt =====
-- crates/omacam-core/src/lib.rs: what has to happen before the output shows the camera.
use omalens.Prelude.{ℕ, ◌≡◌, ◌⊎◌, Bool, true, false, List, [], ◌∷◌, arith, wrapping_add}
use omalens.Policy.{
  SessionPolicy, CaptureState, Event, OutputState, idle, awaiting_consent, starting, streaming,
  online, ready_live, ready_neutral, default, step, run,
}
use omalens.Policy.Invariant.{Inv, default-Inv, step-Inv}

-- The calls that a live output needs, in their order.
pub data Gate : Type 0 where
  request consent start frame : Gate

abbrev pub opens : Gate → Event → Bool
opens request Event.start_requested = true
opens consent (Event.consent_granted _) = true
opens start (Event.started _) = true
opens frame (Event.frame_accepted _ _) = true
opens _ _ = false

-- A call that ends no session, and one that also takes no live picture off the output.
abbrev pub keeps_session : Event → Bool
keeps_session Event.stopped = false
keeps_session Event.forgotten = false
keeps_session _ = true

abbrev pub keeps_live : Event → Bool
keeps_live Event.stopped = false
keeps_live Event.forgotten = false
keeps_live Event.lost = false
keeps_live Event.output_ready = false
keeps_live Event.output_fails = false
keeps_live _ = true

-- The gates are passed one after another with no stop between them, and nothing takes the
-- picture off after the last.
abbrev pub Passes : List Gate → List Event → Type 0
Passes [] [] = Unit {0}
Passes [] (e ∷ es) = (keeps_live e ≡ true) × Passes [] es
Passes (g ∷ gs) [] = ⊥
Passes (g ∷ gs) (e ∷ es) =
    ((opens g e ≡ true) × Passes gs es) ⊎ ((keeps_session e ≡ true) × Passes (g ∷ gs) es)

-- Somewhere a request is made that passes all the gates up to the end.
abbrev pub Authorised : List Event → Type 0
Authorised [] = ⊥
Authorised (e ∷ es) =
    ((opens request e ≡ true) × Passes (consent ∷ start ∷ frame ∷ []) es) ⊎ Authorised es

-- What is still to come from a state whose run ends live.
abbrev Pending : CaptureState → OutputState → List Event → Type 0
Pending awaiting_consent _ es = Passes (consent ∷ start ∷ frame ∷ []) es ⊎ Authorised es
Pending starting _ es = Passes (start ∷ frame ∷ []) es ⊎ Authorised es
Pending streaming ready_live es = (Passes [] es ⊎ Passes (frame ∷ []) es) ⊎ Authorised es
Pending streaming _ es = Passes (frame ∷ []) es ⊎ Authorised es
Pending _ _ es = Authorised es

Pending-step :
    (p : SessionPolicy) (e : Event) (es : List Event)
    → Inv p
    → Pending (step p e).0.capture (step p e).0.output es
    → Pending p.capture p.output (e ∷ es)
unfolding step
Pending-step p Event.output_ready es v h = ground arith
Pending-step p _ es v h = ground arith

live-Pending :
    (p : SessionPolicy) (es : List Event)
    → Inv p
    → (run p es).output ≡ ready_live
    → Pending p.capture p.output es
unfolding run
live-Pending p [] v h = ground arith
live-Pending p (e ∷ es) v h =
    Pending-step p e es v (live-Pending (step p e).0 es (step-Inv p e v) h)

-- If the output is live after a history from the initial state, then the history holds a request
-- to start, later the phone's consent, later the start of the capture and later an accepted
-- frame, with no stop and no forgetting of the peer after the request, and after that frame
-- neither a lost connection nor a reset or failure of the output.
pub live-Authorised : (es : List Event) → (run default es).output ≡ ready_live → Authorised es
unfolding default
live-Authorised es h = live-Pending default es default-Inv h

-- From a policy that is idle with an online peer and a ready output, a request, the consent, the
-- start and a frame of the generation that the consent opened make the output live.
pub run_ceremony_live :
    (p : SessionPolicy) (granted framed : ℕ)
    → Inv p
    → p.capture ≡ idle
    → p.connection ≡ online
    → p.output ≡ ready_neutral
    → let generation = wrapping_add p.generation 1 in
      (run p (
        Event.start_requested
        ∷ Event.consent_granted granted
        ∷ Event.started generation
        ∷ Event.frame_accepted generation framed
        ∷ [])).output
      ≡ ready_live
unfolding run step
run_ceremony_live p granted framed v i o n = ground arith
