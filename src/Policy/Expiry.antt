-- ===== src/Policy/Expiry.antt =====
-- crates/omacam-core/src/lib.rs: leases and frames run out.
use omalens.Prelude.{
  ℕ, ◌+◌, ◌-◌, ◌<◌, ◌≤◌, ◌≡◌, refl, ◌≢◌, ◌⊎◌, List, [], ◌∷◌, arith, Option, some, none,
}
use omalens.Policy.{
  SessionPolicy, Event, idle, awaiting_consent, streaming, ready_live, step, run, default, tick,
}
use omalens.Policy.Invariant.{Inv, run-Inv}

-- The last frame of `p` is fresh and its lease runs at `now_ms`.
pub record IsCurrent (p : SessionPolicy) (now_ms : ℕ) : Type 0 where
  pub frame_at : ℕ
  pub expiry : ℕ
  pub has_frame : p.last_frame_at_ms ≡ some frame_at
  pub has_lease : p.lease_expires_at_ms ≡ some expiry
  pub fresh : now_ms - frame_at < 500
  pub running : now_ms < expiry
  pub is_streaming : p.capture ≡ streaming

live-IsCurrent :
    (p : SessionPolicy) (now_ms : ℕ) (frame lease : Option ℕ)
    → p.last_frame_at_ms ≡ frame
    → p.lease_expires_at_ms ≡ lease
    → Inv p
    → (tick p now_ms).output ≡ ready_live
    → IsCurrent p now_ms × (tick p now_ms ≡ p)
unfolding tick
live-IsCurrent p now_ms none lease f l v h = absurd (ground arith)
live-IsCurrent p now_ms (some t) none f l v h = absurd (ground arith)
live-IsCurrent p now_ms (some t) (some e) f l v h = (
  record {
    frame_at = t;
    expiry = e;
    has_frame = f;
    has_lease = l;
    fresh = ground arith;
    running = ground arith;
    is_streaming = ground arith;
  },
  ground arith,
)

-- A policy that satisfies the invariant and is live after a tick at some time was streaming, with
-- a frame less than 500 ms old and a lease that ends later than that time; and the tick changed
-- nothing.
tick_live-IsCurrent :
    (p : SessionPolicy) (now_ms : ℕ)
    → Inv p
    → (tick p now_ms).output ≡ ready_live
    → IsCurrent p now_ms × (tick p now_ms ≡ p)
tick_live-IsCurrent p now_ms v h =
    live-IsCurrent p now_ms p.last_frame_at_ms p.lease_expires_at_ms refl refl v h

-- The times at which leases are granted or refreshed are at most `t`.
abbrev pub LeasesBy : ℕ → List Event → Type 0
LeasesBy t [] = Unit {0}
LeasesBy t (Event.consent_granted now_ms ∷ es) = (now_ms ≤ t) × LeasesBy t es
LeasesBy t (Event.lease_refreshed g now_ms ∷ es) = (now_ms ≤ t) × LeasesBy t es
LeasesBy t (_ ∷ es) = LeasesBy t es

abbrev EndsBy : ℕ → Option ℕ → Type 0
EndsBy t none = Unit {0}
EndsBy t (some expiry) = expiry ≤ t

step-EndsBy :
    (p : SessionPolicy) (e : Event) (es : List Event) (t : ℕ)
    → LeasesBy t (e ∷ es)
    → EndsBy (t + 10_000) p.lease_expires_at_ms
    → EndsBy (t + 10_000) (step p e).0.lease_expires_at_ms × LeasesBy t es
unfolding step
step-EndsBy p Event.output_ready es t l h = ground arith
step-EndsBy p _ es t l h = ground arith

run-EndsBy :
    (p : SessionPolicy) (es : List Event) (t : ℕ)
    → LeasesBy t es
    → EndsBy (t + 10_000) p.lease_expires_at_ms
    → EndsBy (t + 10_000) (run p es).lease_expires_at_ms
unfolding run
run-EndsBy p [] t l h = h
run-EndsBy p (e ∷ es) t l h =
    let (h', l') = step-EndsBy p e es t l h in run-EndsBy (step p e).0 es t l' h'

tick_revokes :
    (p : SessionPolicy) (now_ms t : ℕ)
    → Inv p
    → EndsBy t p.lease_expires_at_ms
    → t ≤ now_ms
    → (((tick p now_ms).capture ≡ idle) ⊎ ((tick p now_ms).capture ≡ awaiting_consent))
      × ((tick p now_ms).lease_expires_at_ms ≡ none)
      × ((tick p now_ms).output ≢ ready_live)
unfolding tick
tick_revokes p now_ms t v h l = ground arith

-- If no lease is granted or refreshed after time `t`, then a tick ten seconds later or more leaves
-- no capture running: the session is idle or still waits for consent, it has no lease, and the
-- output is not live.
pub tick_after_silence :
    (es : List Event) (t now_ms : ℕ)
    → LeasesBy t es
    → t + 10_000 ≤ now_ms
    → let q = tick (run default es) now_ms in
      ((q.capture ≡ idle) ⊎ (q.capture ≡ awaiting_consent))
      × (q.lease_expires_at_ms ≡ none)
      × (q.output ≢ ready_live)
tick_after_silence es t now_ms l h =
    tick_revokes (run default es) now_ms (t + 10_000) (run-Inv es)
      (run-EndsBy default es t l (unfold default in tt)) h
