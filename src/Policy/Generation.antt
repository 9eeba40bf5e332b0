-- ===== src/Policy/Generation.antt =====
-- crates/omacam-core/src/lib.rs: the generations of capture sessions.
use omalens.Prelude.{
  ℕ, suc, ◌+◌, ◌<◌, ◌≤◌, ◌≡◌, ◌≢◌, ◌⊎◌, inl, inr, ◌%◌, List, [], ◌∷◌, arith, length, ok, err,
  u64_mod, wrapping_add, some, none, u64_max, min,
}
use omalens.Policy.{
  SessionPolicy, Event, idle, awaiting_consent, starting, trusted, online, ready_live,
  stale_generation, step, run, stop, accept_frame, capture_started, refresh_lease, grant_consent,
}
use omalens.Policy.Invariant.{Inv}

-- A call moves the generation on by at most one.
step_generation :
    (p : SessionPolicy) (e : Event)
    → ((step p e).0.generation ≡ p.generation)
      ⊎ ((step p e).0.generation ≡ wrapping_add p.generation 1)
unfolding step
step_generation p Event.output_ready = ground arith
step_generation p _ = ground arith

-- How far the generation has moved past `g`.
abbrev Past : ℕ → ℕ → SessionPolicy → Type 0
Past g n p = (k : ℕ) × (0 < k) × (k ≤ n) × (p.generation ≡ (g + k) % u64_mod)

step-Past : (g n : ℕ) (p : SessionPolicy) (e : Event) → Past g n p → Past g (suc n) (step p e).0
step-Past g n p e (k, pos, le, eq) = elim (step_generation p e) [
  | inl same ↦ (k, pos, omega arith, omega arith)
  | inr next ↦ (suc k, omega arith, omega arith, omega arith)
]

run-Past :
    (g n : ℕ) (p : SessionPolicy) (es : List Event) → Past g n p → Past g (n + length es) (run p es)
unfolding run
run-Past g n p [] (k, pos, le, eq) = (k, pos, omega arith, eq)
run-Past g n p (e ∷ es) h =
    let (k, pos, le, eq) = run-Past g (suc n) (step p e).0 es (step-Past g n p e h) in
    (k, pos, omega arith, eq)

Past-ne : (g n : ℕ) (p : SessionPolicy) → g < u64_mod → n < u64_mod → Past g n p → p.generation ≢ g
Past-ne g n p fits few (k, pos, le, eq) = omega arith

stop-Past : (p : SessionPolicy) → p.capture ≢ idle → Past p.generation 1 (stop p)
unfolding stop
stop-Past p busy = (1, omega arith, omega arith, ground arith)

-- What it means that a generation is refused by every call that carries one.
abbrev pub IsStale : ℕ → SessionPolicy → Type 0
IsStale g q =
    ((now_ms : ℕ) → accept_frame q g now_ms ≡ (q, err stale_generation))
    × ((now_ms : ℕ) → refresh_lease q g now_ms ≡ (q, err stale_generation))
    × (capture_started q g ≡ (q, err stale_generation))

ne-IsStale : (g : ℕ) (q : SessionPolicy) → q.generation ≢ g → IsStale g q
unfolding accept_frame refresh_lease capture_started
ne-IsStale g q ne = (λ now_ms. ground arith, λ now_ms. ground arith, ground arith)

-- When a session that is not idle is stopped, its generation is refused as stale, and changes
-- nothing, in every later state that fewer than 2^64 - 1 further calls lead to: no frame, lease or
-- start of the stopped session can revive it, whatever is called in between.
pub stop-IsStale :
    (p : SessionPolicy) (es : List Event)
    → Inv p
    → p.capture ≢ idle
    → length es < u64_max
    → IsStale p.generation (run (stop p) es)
stop-IsStale p es v busy few = ne-IsStale p.generation (run (stop p) es) (
    Past-ne p.generation (1 + length es) (run (stop p) es) v.generation_fits (omega arith)
      (run-Past p.generation 1 (stop p) es (stop-Past p busy)))

-- Consent that is given opens a generation that differs from the one before, with a lease of ten
-- seconds from now (cut off at the end of u64), no frame yet, and no live picture; it was given to
-- an online trusted peer whose request was pending.
grant_consent_ok :
    (p q : SessionPolicy) (now_ms g : ℕ)
    → Inv p
    → grant_consent p now_ms ≡ (q, ok g)
    → (q.generation ≡ g)
      × (g ≢ p.generation)
      × (p.capture ≡ awaiting_consent)
      × (p.trust ≡ trusted)
      × (p.connection ≡ online)
      × (q.capture ≡ starting)
      × (q.lease_expires_at_ms ≡ some (min (now_ms + 10_000) u64_max))
      × (q.last_frame_at_ms ≡ none)
      × (q.output ≢ ready_live)
unfolding grant_consent
grant_consent_ok p q now_ms g v h = ground arith
