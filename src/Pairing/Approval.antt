-- ===== src/Pairing/Approval.antt =====
-- crates/omacam-core/src/pairing.rs: what has to happen before a phone is trusted.
use omalens.Prelude.{
  ◌||◌, ℕ, ◌-◌, ◌<◌, ◌≡◌, refl, ◌∙◌, ◌⊎◌, inl, Bool, true, false, ◌&&◌, List, [], ◌∷◌, Result, ok,
  err, arith, is_some,
}
use omalens.Platform.{Platform}
use omalens.Pairing.Invitation.{PairingInvitation}
use omalens.Pairing.Session.{
  PairingClaim, InvitationState, ApprovalSide, PairingSession, available, awaiting_approvals,
  paired, rejected, expired, phone, desktop, is_paired, is_awaiting_approvals, new,
  expire_if_needed, check_claim, claim, approve, reject,
}

pub data Event : Type 0 where
  claims : PairingClaim → (now_monotonic_ms : ℕ) → Event
  approves : ApprovalSide → Event
  rejects : Event
  expires : (now_monotonic_ms : ℕ) → Event

-- What holds of a session between two calls.
pub record Inv (s : PairingSession) : Type 0 where
  pub claim_kept : is_some s.verified_claim ≡ (is_awaiting_approvals s.state) || is_paired s.state
  pub approvals_need_claim :
      is_some s.verified_claim ≡ false → (s.phone_approved ≡ false) × (s.desktop_approved ≡ false)
  pub paired_both : (s.phone_approved && s.desktop_approved) ≡ is_paired s.state

abbrev is_ok {ℓ} : {E : Type 0} {A : Type ℓ} → Result E A → Bool
is_ok (ok a) = true
is_ok (err e) = false

module _ (platform : Platform) where
  unfoldable pub step : PairingSession → Event → PairingSession
  step s (claims c now) = (claim platform s c now).0
  step s (approves side) = (approve s side).0
  step s rejects = reject s
  step s (expires now) = expire_if_needed s now

  unfoldable pub run : PairingSession → List Event → PairingSession
  run s [] = s
  run s (e ∷ es) = run (step s e) es

  step-Inv : (s : PairingSession) (e : Event) → Inv s → Inv (step s e)
  unfolding step claim approve reject expire_if_needed
  step-Inv s (claims c now) v = ground arith
  step-Inv s (approves phone) v = ground arith
  step-Inv s (approves desktop) v = ground arith
  step-Inv s rejects v = ground arith
  step-Inv s (expires now) v = ground arith

  step_fixed :
      (s : PairingSession) (e : Event)
      → ((step s e).invitation ≡ s.invitation)
        × ((step s e).created_monotonic_ms ≡ s.created_monotonic_ms)
  unfolding step claim approve reject expire_if_needed
  step_fixed s (claims c now) = ground arith
  step_fixed s (approves phone) = ground arith
  step_fixed s (approves desktop) = ground arith
  step_fixed s rejects = ground arith
  step_fixed s (expires now) = ground arith

  module _ (i : PairingInvitation) (created : ℕ) where
    -- Before the invitation's two minutes are over.
    abbrev pub IsTimely : ℕ → Type 0
    IsTimely now = now - created < 120_000

    -- Both approvals are given, from what was given before, with no rejection and no late call
    -- before the second.
    abbrev pub Agreed : (phone_given desktop_given : Bool) → List Event → Type 0
    Agreed p d [] = (p && d) ≡ true
    Agreed p d (approves phone ∷ es) = ((p && d) ≡ true) ⊎ Agreed true d es
    Agreed p d (approves desktop ∷ es) = ((p && d) ≡ true) ⊎ Agreed p true es
    Agreed p d (rejects ∷ es) = (p && d) ≡ true
    Agreed p d (expires now ∷ es) = ((p && d) ≡ true) ⊎ (IsTimely now × Agreed p d es)
    Agreed p d (claims c now ∷ es) = ((p && d) ≡ true) ⊎ (IsTimely now × Agreed p d es)

    -- A claim that is verified in time, and the agreement after it; nothing before it rejects the
    -- invitation or comes late.
    abbrev pub Claimed : List Event → Type 0
    Claimed [] = ⊥
    Claimed (claims c now ∷ es) =
        IsTimely now
        × (((is_ok (check_claim platform i c) ≡ true) × Agreed false false es) ⊎ Claimed es)
    Claimed (approves side ∷ es) = Claimed es
    Claimed (rejects ∷ es) = ⊥
    Claimed (expires now ∷ es) = IsTimely now × Claimed es

    abbrev Pending : InvitationState → (phone_given desktop_given : Bool) → List Event → Type 0
    Pending available p d es = Claimed es
    Pending awaiting_approvals p d es = Agreed p d es
    Pending paired p d es = Unit {0}
    Pending rejected p d es = ⊥
    Pending expired p d es = ⊥

    Agreed-done : (es : List Event) → Agreed true true es
    Agreed-done [] = refl
    Agreed-done (approves phone ∷ es) = inl refl
    Agreed-done (approves desktop ∷ es) = inl refl
    Agreed-done (rejects ∷ es) = refl
    Agreed-done (expires now ∷ es) = inl refl
    Agreed-done (claims c now ∷ es) = inl refl

    Pending-step :
        (s : PairingSession) (e : Event) (es : List Event)
        → Inv s
        → s.invitation ≡ i
        → s.created_monotonic_ms ≡ created
        → Pending (step s e).state (step s e).phone_approved (step s e).desktop_approved es
        → Pending s.state s.phone_approved s.desktop_approved (e ∷ es)
    unfolding step claim approve reject expire_if_needed
    Pending-step s (claims c now) es v si sc h = ground arith
    Pending-step s (approves phone) es v si sc h = ground (arith, Agreed-done es)
    Pending-step s (approves desktop) es v si sc h = ground (arith, Agreed-done es)
    Pending-step s rejects es v si sc h = ground arith
    Pending-step s (expires now) es v si sc h = ground arith

    paired-Pending :
        (s : PairingSession) (es : List Event)
        → Inv s
        → s.invitation ≡ i
        → s.created_monotonic_ms ≡ created
        → (run s es).state ≡ paired
        → Pending s.state s.phone_approved s.desktop_approved es
    unfolding run
    paired-Pending s [] v si sc h = ground arith
    paired-Pending s (e ∷ es) v si sc h =
        let (same_i, same_c) = step_fixed s e in
        Pending-step s e es v si sc
          (paired-Pending (step s e) es (step-Inv s e v) (same_i ∙ si) (same_c ∙ sc) h)

    -- A session is paired after a history of calls only if a claim was verified against the
    -- invitation less than two minutes after the session began, and later the phone and the
    -- desktop both approved, while nothing was rejected and no call came late from the start to
    -- the second approval.
    pub paired-Claimed : (es : List Event) → (run (new i created) es).state ≡ paired → Claimed es
    unfolding new
    paired-Claimed es h =
        paired-Pending (new i created) es
          (record {
            claim_kept = refl;
            approvals_need_claim = λ _. (refl, refl);
            paired_both = refl;
          })
          refl refl h
