-- ===== src/Pairing/Claims.antt =====
-- crates/omacam-core/src/pairing.rs: the claims made on one invitation.
use omalens.Prelude.{
  ℕ, ◌-◌, ◌<◌, ◌≡◌, refl, sym, ap, ◌∙◌, ◌≢◌, some, List, [], ◌∷◌, Result, ok, err, arith,
}
use omalens.Platform.{Platform}
use omalens.Pairing.Invitation.{PairingError}
use omalens.Pairing.Session.{
  PairingClaim, VerifiedClaim, PairingSession, available, awaiting_approvals, phone, desktop,
  expire_if_needed, check_claim, claim, approve, reject,
}
use omalens.Pairing.Approval.{Event, claims, approves, rejects, expires, step, run}

module _ (platform : Platform) where
  step-available :
      (s : PairingSession) (e : Event) → s.state ≢ available → (step platform s e).state ≢ available
  unfolding step claim approve reject expire_if_needed
  step-available s (claims c now) n = ground arith
  step-available s (approves phone) n = ground arith
  step-available s (approves desktop) n = ground arith
  step-available s rejects n = ground arith
  step-available s (expires now) n = ground arith

  run-available :
      (s : PairingSession) (es : List Event)
      → s.state ≢ available
      → (run platform s es).state ≢ available
  unfolding run
  run-available s [] n = n
  run-available s (e ∷ es) n = run-available (step platform s e) es (step-available s e n)

  -- Whether a claim is accepted: the session is available, in time, and the claim is verified.
  claim_ok :
      (s : PairingSession) (c : PairingClaim) (now : ℕ) (v : VerifiedClaim)
      → (claim platform s c now).1 ≡ ok v
      → (s.state ≡ available)
        × (now - s.created_monotonic_ms < 120_000)
        × (check_claim platform s.invitation c ≡ ok v)
        × ((claim platform s c now).0
            ≡ record s { verified_claim = some v; state = awaiting_approvals })
  unfolding claim expire_if_needed
  claim_ok s c now v h = ground arith

  used_refuses :
      (s : PairingSession) (c : PairingClaim) (now : ℕ)
      → s.state ≢ available
      → (e : PairingError) × ((claim platform s c now).1 ≡ err e)
  used_refuses s c now n = go (claim platform s c now).1 refl
    where
      go :
          (x : Result PairingError VerifiedClaim)
          → (claim platform s c now).1 ≡ x
          → (e : PairingError) × ((claim platform s c now).1 ≡ err e)
      go (ok v) h = absurd (n (claim_ok s c now v h).0)
      go (err e) h = (e, h)

  -- A claim is accepted only on an available session that is less than two minutes old, and if the
  -- claim is verified against the invitation; it then keeps that claim, waits for the approvals,
  -- and changes nothing else; and after it, whatever is called, every further claim is refused.
  pub claim_once :
      (s : PairingSession) (c : PairingClaim) (now : ℕ) (v : VerifiedClaim) (es : List Event)
      (later : PairingClaim) (time : ℕ)
      → (claim platform s c now).1 ≡ ok v
      → let s' = (claim platform s c now).0 in
        (s.state ≡ available)
        × (now - s.created_monotonic_ms < 120_000)
        × (check_claim platform s.invitation c ≡ ok v)
        × (s' ≡ record s { verified_claim = some v; state = awaiting_approvals })
        × ((e : PairingError) × ((claim platform (run platform s' es) later time).1 ≡ err e))
  claim_once s c now v es later time h =
      let (fresh, timely, checked, after) = claim_ok s c now v h in
      let used : (claim platform s c now).0.state ≢ available =
        λ e. not_available (sym (ap (λ u. u.state) after) ∙ e) in
      (
        fresh,
        timely,
        checked,
        after,
        used_refuses (run platform (claim platform s c now).0 es) later time
            (run-available (claim platform s c now).0 es used),
      )
    where
      not_available : awaiting_approvals ≢ available
      not_available e = cc

  -- Claims in time that are not verified.
  abbrev pub AreWrong : PairingSession → List Event → Type 0
  AreWrong s [] = Unit {0}
  AreWrong s (claims c now ∷ es) =
      (now - s.created_monotonic_ms < 120_000)
      × ((why : PairingError) × (check_claim platform s.invitation c ≡ err why))
      × AreWrong s es
  AreWrong s (_ ∷ es) = ⊥

  wrong_unchanged :
      (s : PairingSession) (c : PairingClaim) (now : ℕ) (why : PairingError)
      → s.state ≡ available
      → now - s.created_monotonic_ms < 120_000
      → check_claim platform s.invitation c ≡ err why
      → claim platform s c now ≡ (s, err why)
  unfolding claim expire_if_needed
  wrong_unchanged s c now why a t e = ground arith

  run_wrong :
      (s : PairingSession) (es : List Event)
      → s.state ≡ available
      → AreWrong s es
      → run platform s es ≡ s
  unfolding run step
  run_wrong s [] a w = refl
  run_wrong s (claims c now ∷ es) a (t, (why, e), w) =
      ap (λ x. run platform x.0 es) (wrong_unchanged s c now why a t e) ∙ run_wrong s es a w
  run_wrong s (approves side ∷ es) a w = absurd w
  run_wrong s (rejects ∷ es) a w = absurd w
  run_wrong s (expires now ∷ es) a w = absurd w

  verified_accepts :
      (s : PairingSession) (c : PairingClaim) (now : ℕ) (v : VerifiedClaim)
      → s.state ≡ available
      → now - s.created_monotonic_ms < 120_000
      → check_claim platform s.invitation c ≡ ok v
      → (claim platform s c now).1 ≡ ok v
  unfolding claim expire_if_needed
  verified_accepts s c now v a t e = ground arith

  -- However many wrong claims are made within the two minutes, the available session stays as it
  -- was, and a claim that is verified is then still accepted.
  claim_after_wrong :
      (s : PairingSession) (es : List Event) (c : PairingClaim) (now : ℕ) (v : VerifiedClaim)
      → s.state ≡ available
      → AreWrong s es
      → now - s.created_monotonic_ms < 120_000
      → check_claim platform s.invitation c ≡ ok v
      → (run platform s es ≡ s) × ((claim platform (run platform s es) c now).1 ≡ ok v)
  claim_after_wrong s es c now v a w t e =
      (run_wrong s es a w, rw (run_wrong s es a w) (verified_accepts s c now v a t e))
