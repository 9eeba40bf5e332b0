-- ===== src/Tests/Policy.antt =====
-- The session policy on one ceremony.
use omalens.Prelude.{◌≡◌, refl, ◌≢◌, ◌⊎◌, List, [], ◌∷◌, arith, none}
use omalens.Policy.{Event, default, step, run, stop, tick, idle, awaiting_consent, ready_live}
use omalens.Policy.Invariant.{run-Inv}
use omalens.Policy.Consent.{Authorised, live-Authorised, run_ceremony_live}
use omalens.Policy.Generation.{IsStale, stop-IsStale}
use omalens.Policy.Expiry.{tick_after_silence}

abbrev idle_events : List Event
idle_events = Event.output_ready ∷ Event.peer_trusted ∷ Event.connection_authenticated ∷ []

abbrev asked_events : List Event
asked_events =
    Event.output_ready ∷ Event.peer_trusted ∷ Event.connection_authenticated ∷ Event.start_requested
    ∷ []

abbrev live_events : List Event
live_events =
    Event.output_ready
    ∷ Event.peer_trusted
    ∷ Event.connection_authenticated
    ∷ Event.start_requested
    ∷ Event.consent_granted 1_000
    ∷ Event.started 1
    ∷ Event.frame_accepted 1 1_200
    ∷ []

live-Authorised_example : Authorised live_events
unfolding run step default
live-Authorised_example = live-Authorised live_events refl

run_ceremony_live_example :
    (run (run default idle_events) (
      Event.start_requested
      ∷ Event.consent_granted 1_000
      ∷ Event.started 1
      ∷ Event.frame_accepted 1 1_200
      ∷ [])).output
    ≡ ready_live
unfolding run step default
run_ceremony_live_example =
    run_ceremony_live (run default idle_events) 1_000 1_200 (run-Inv idle_events) refl refl refl

stop-IsStale_example : IsStale 1 (run (stop (run default live_events)) (Event.start_requested ∷ []))
unfolding run step default
stop-IsStale_example =
    stop-IsStale (run default live_events) (Event.start_requested ∷ []) (run-Inv live_events)
      (ground arith) (ground arith)

tick_after_silence_example :
    let q = tick (run default live_events) 11_000 in
    ((q.capture ≡ idle) ⊎ (q.capture ≡ awaiting_consent))
    × (q.lease_expires_at_ms ≡ none)
    × (q.output ≢ ready_live)
tick_after_silence_example =
    tick_after_silence live_events 1_000 11_000 (omega arith, tt) (omega arith)
