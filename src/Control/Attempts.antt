-- ===== src/Control/Attempts.antt =====
-- crates/omacam-core/src/control.rs: the attempts made on one challenge.
use omalens.Prelude.{
  ℕ, ◌-◌, ◌<◌, ◌≤◌, ◌≡◌, refl, ◌⊎◌, inl, inr, Bool, true, false, leb, if◌then◌else◌, List, [], ◌∷◌,
  map, Bytes, Result, ok, err, arith,
}
use omalens.Platform.{Platform}
use omalens.Control.{
  ControlProof, AuthenticatedControl, ControlSession, ControlState, ControlError, awaiting_proof,
  authenticated, rejected, expired, replay_rejected, proof_rejected, challenge_expired,
  authenticate, settle, verify_proof,
}

pub record Attempt : Type 0 where
  pub proof : ControlProof
  pub key_der : Bytes
  pub now_monotonic_ms : ℕ

-- The error that a used challenge answers with; a fresh one has none, and stands for the last case.
abbrev pub verdict : ControlState → ControlError
verdict authenticated = replay_rejected
verdict rejected = proof_rejected
verdict _ = challenge_expired

module _ (platform : Platform) where
  abbrev pub attempt :
      ControlSession → Attempt → ControlSession × Result ControlError AuthenticatedControl
  attempt s a = authenticate platform s a.proof a.key_der a.now_monotonic_ms

  unfoldable pub attempts :
      ControlSession
      → List Attempt
      → ControlSession × List (Result ControlError AuthenticatedControl)
  attempts s [] = (s, [])
  attempts s (a ∷ rest) =
      let (s', result) = attempt s a in
      let (last, results) = attempts s' rest in (last, result ∷ results)

  -- A session that does not await a proof answers with its verdict, and stays.
  used_refuses :
      (s : ControlSession) (a : Attempt) (st : ControlState)
      → s.state ≡ st
      → (st ≡ awaiting_proof → ⊥)
      → attempt s a ≡ (s, err (verdict s.state))
  unfolding authenticate
  used_refuses s a awaiting_proof e n = absurd (n refl)
  used_refuses s a authenticated e n = ground arith
  used_refuses s a rejected e n = ground arith
  used_refuses s a expired e n = ground arith

  attempts_used :
      (s : ControlSession) (rest : List Attempt)
      → (s.state ≡ awaiting_proof → ⊥)
      → attempts s rest ≡ (s, map (λ _. err (verdict s.state)) rest)
  unfolding attempts
  attempts_used s [] n = refl
  attempts_used s (a ∷ rest) n = rw (used_refuses s a s.state refl n, attempts_used s rest n)

  -- All attempts are refused with this error, and the session stays.
  abbrev pub AllRefused : ControlSession → ControlError → List Attempt → Type 0
  AllRefused s e rest = attempts s rest ≡ (s, map (λ _. err e) rest)

  -- What the first attempt on a challenge, made at this age, answers, and what every later one does.
  abbrev pub Once :
      (age : ℕ) → ControlSession × Result ControlError AuthenticatedControl → List Attempt → Type 0
  Once age (s', ok a) rest = (age < 10_000) × AllRefused s' replay_rejected rest
  Once age (s', err e) rest =
      ((10_000 ≤ age) × (e ≡ challenge_expired) × AllRefused s' challenge_expired rest)
      ⊎ ((age < 10_000) × AllRefused s' proof_rejected rest)

  settle-Once :
      (age : ℕ) (s : ControlSession) (r : Result ControlError AuthenticatedControl)
      (rest : List Attempt)
      → age < 10_000
      → Once age (settle platform s r) rest
  unfolding settle
  settle-Once age s (ok a) rest h =
      (h, attempts_used (record s { state = authenticated }) rest (λ e. cc))
  settle-Once age s (err e) rest h =
      inr (h, attempts_used (record s { state = rejected }) rest (λ e. cc))

  -- The first attempt on a challenge settles it, and every further attempt with whatever proof, key
  -- and time leaves the session as it is: if the first was accepted, which it is only before the
  -- challenge is ten seconds old, every further one is refused as a replay; if it came in time and was
  -- refused, every further one is refused as rejected; and if it came at ten seconds or later, it and
  -- every further one are refused as expired.
  pub attempt-Once :
      (s : ControlSession) (a : Attempt) (rest : List Attempt)
      → s.state ≡ awaiting_proof
      → Once (a.now_monotonic_ms - s.created_monotonic_ms) (attempt s a) rest
  unfolding authenticate
  attempt-Once s a rest e =
      let age = a.now_monotonic_ms - s.created_monotonic_ms in simp e (go (leb 10_000 age) refl)
    where
      go :
          (late : Bool)
          → leb 10_000 (a.now_monotonic_ms - s.created_monotonic_ms) ≡ late
          → Once
              (a.now_monotonic_ms - s.created_monotonic_ms)
              (if late
                then (record s { state = expired }, err challenge_expired)
                else settle platform s (verify_proof platform s.hello a.proof a.key_der))
              rest
      go true h =
          inl (ground arith, refl, attempts_used (record s { state = expired }) rest (λ e. cc))
      go false h =
          settle-Once (a.now_monotonic_ms - s.created_monotonic_ms) s
            (verify_proof platform s.hello a.proof a.key_der) rest (ground arith)
