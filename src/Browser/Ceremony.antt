-- ===== src/Browser/Ceremony.antt =====
-- crates/omacam-core/src/browser.rs: what has to happen before media may be negotiated.
use omalens.Prelude.{
  Option-cases, ℕ, ◌-◌, ◌<◌, ◌≤◌, ◌≡◌, refl, ap, ◌∙◌, ◌⊎◌, inl, inr, true, false, Option, none,
  some, List, [], ◌∷◌, Bytes, bytes_eq_iff, length, err, arith, is_some,
}
use omalens.Platform.{Platform}
use omalens.Browser.Invitation.{BrowserInvitation, invalid_token}
use omalens.Browser.Session.{
  BrowserSession, BrowserSessionState, offered, awaiting_confirmation, confirmed, closed, new,
  expire_if_needed, claim, claim_token, confirm, close, may_negotiate,
}

pub data Event : Type 0 where
  claims : (presented_token : Bytes) (now_ms : ℕ) → Event
  confirms : (now_ms : ℕ) → Event
  expires : (now_ms : ℕ) → Event
  closes : Event

-- What holds of a session between two calls: the time of the claim and the digits are there once it
-- was claimed, and an offered session has neither.
pub record Inv (s : BrowserSession) : Type 0 where
  pub offered_unclaimed : s.state ≡ offered → s.claimed_at_ms ≡ none
  pub awaiting_claimed : s.state ≡ awaiting_confirmation → is_some s.claimed_at_ms ≡ true
  pub sas_claimed : is_some s.sas ≡ is_some s.claimed_at_ms
  pub confirmed_claimed : s.state ≡ confirmed → is_some s.claimed_at_ms ≡ true

module _ (platform : Platform) where
  unfoldable pub step : BrowserSession → Event → BrowserSession
  step s (claims presented_token now_ms) = (claim platform s presented_token now_ms).0
  step s (confirms now_ms) = (confirm s now_ms).0
  step s (expires now_ms) = (expire_if_needed s now_ms).0
  step s closes = close s

  unfoldable pub run : BrowserSession → List Event → BrowserSession
  run s [] = s
  run s (e ∷ es) = run (step s e) es

  step-Inv : (s : BrowserSession) (e : Event) → Inv s → Inv (step s e)
  unfolding step claim claim_token confirm close expire_if_needed
  step-Inv s (claims token now) v = ground arith
  step-Inv s (confirms now) v = ground arith
  step-Inv s (expires now) v = ground arith
  step-Inv s closes v = ground arith

  step_fixed :
      (s : BrowserSession) (e : Event)
      → ((step s e).token ≡ s.token) × ((step s e).created_at_ms ≡ s.created_at_ms)
  unfolding step claim claim_token confirm close expire_if_needed
  step_fixed s (claims token now) = ground arith
  step_fixed s (confirms now) = ground arith
  step_fixed s (expires now) = ground arith
  step_fixed s closes = ground arith

  -- Nothing closes the session.
  abbrev pub StaysOpen : List Event → Type 0
  StaysOpen [] = Unit {0}
  StaysOpen (claims presented now ∷ es) = StaysOpen es
  StaysOpen (confirms now ∷ es) = StaysOpen es
  StaysOpen (expires now ∷ es) = StaysOpen es
  StaysOpen (closes ∷ es) = ⊥

  -- The claim made at `at_ms` is confirmed in less than two minutes, and no call before that comes
  -- later or closes the session, nor does one after it close the session.
  abbrev pub Confirmed : (at_ms : ℕ) → List Event → Type 0
  Confirmed at_ms [] = ⊥
  Confirmed at_ms (claims presented now ∷ es) = (now - at_ms < 120_000) × Confirmed at_ms es
  Confirmed at_ms (confirms now ∷ es) = (now - at_ms < 120_000) × StaysOpen es
  Confirmed at_ms (expires now ∷ es) = (now - at_ms < 120_000) × Confirmed at_ms es
  Confirmed at_ms (closes ∷ es) = ⊥

  module _ (token : Bytes) (created : ℕ) where
    -- The text that the phone presents is for the session's token.
    abbrev pub IsRight : Bytes → Type 0
    IsRight presented =
        (platform.base64_decode presented ≡ some token)
        × (length token ≡ 32)
        × (length presented ≤ 64)

    -- The token is claimed in less than two minutes and the claim is confirmed; before it stand
    -- only calls in time that leave the session open: confirmations, and claims that are not even
    -- base64.
    abbrev pub Offered : List Event → Type 0
    Offered [] = ⊥
    Offered (claims presented now ∷ es) =
        (now - created < 120_000)
        × ((IsRight presented × Confirmed now es)
            ⊎ ((platform.base64_decode presented ≡ none) × Offered es))
    Offered (confirms now ∷ es) = (now - created < 120_000) × Offered es
    Offered (expires now ∷ es) = (now - created < 120_000) × Offered es
    Offered (closes ∷ es) = ⊥

    abbrev Pending : BrowserSessionState → Option ℕ → List Event → Type 0
    Pending offered at es = Offered es
    Pending awaiting_confirmation none es = ⊥
    Pending awaiting_confirmation (some at) es = Confirmed at es
    Pending confirmed at es = StaysOpen es
    Pending closed at es = ⊥

    Pending-step :
        (s : BrowserSession) (e : Event) (es : List Event)
        → Inv s
        → s.token ≡ token
        → s.created_at_ms ≡ created
        → Pending (step s e).state (step s e).claimed_at_ms es
        → Pending s.state s.claimed_at_ms (e ∷ es)
    unfolding step claim claim_token confirm close expire_if_needed
    Pending-step s (claims presented now) es v st sc h =
        elim (Option-cases (platform.base64_decode presented)) [
          | inl e ↦ ground (arith, e)
          | inr (bytes, e) ↦ ground (arith, e, bytes_eq_iff bytes s.token)
        ]
    Pending-step s (confirms now) es v st sc h = ground arith
    Pending-step s (expires now) es v st sc h = ground arith
    Pending-step s closes es v st sc h = ground arith

    confirmed-Pending :
        (s : BrowserSession) (es : List Event)
        → Inv s
        → s.token ≡ token
        → s.created_at_ms ≡ created
        → may_negotiate (run s es) ≡ true
        → Pending s.state s.claimed_at_ms es
    unfolding run may_negotiate
    confirmed-Pending s [] v st sc h = ground arith
    confirmed-Pending s (e ∷ es) v st sc h =
        let (same_t, same_c) = step_fixed s e in
        Pending-step s e es v st sc
          (confirmed-Pending (step s e) es (step-Inv s e v) (same_t ∙ st) (same_c ∙ sc) h)

  -- Media may be negotiated after a history of calls on a new session only if the phone presented
  -- the session's token less than two minutes after the session began, the desktop confirmed less
  -- than two minutes after that, no call in between came late, nothing closed the session, and
  -- every earlier claim was not even base64.
  pub may_negotiate-Offered :
      (i : BrowserInvitation) (token : Bytes) (created : ℕ) (es : List Event)
      → may_negotiate (run (new i token created) es) ≡ true
      → Offered token created es
  unfolding new
  may_negotiate-Offered i token created es h =
      confirmed-Pending token created (new i token created) es
        (record {
          offered_unclaimed = λ _. refl;
          awaiting_claimed = λ e. cc;
          sas_claimed = refl;
          confirmed_claimed = λ e. cc;
        })
        refl refl h

  -- A closed session stays as it is, whatever is called.
  closed_step : (s : BrowserSession) (e : Event) → s.state ≡ closed → step s e ≡ s
  unfolding step claim claim_token confirm close expire_if_needed
  closed_step s (claims token now) c = ground arith
  closed_step s (confirms now) c = ground arith
  closed_step s (expires now) c = ground arith
  closed_step s closes c = ground arith

  closed_run : (s : BrowserSession) (es : List Event) → s.state ≡ closed → run s es ≡ s
  unfolding run
  closed_run s [] c = refl
  closed_run s (e ∷ es) c = ap (λ t. run t es) (closed_step s e c) ∙ closed_run s es c

  closed_for_good :
      (s : BrowserSession) (es : List Event) → s.state ≡ closed → may_negotiate (run s es) ≡ false
  unfolding may_negotiate
  closed_for_good s es c = rw (closed_run s es c, c)

  claim_wrong :
      (i : BrowserInvitation) (token presented bytes : Bytes) (created now : ℕ)
      → now - created < 120_000
      → platform.base64_decode presented ≡ some bytes
      → ¬ IsRight token created presented
      → let r = claim platform (new i token created) presented now in
        (r.0.state ≡ closed) × (r.1 ≡ err invalid_token)
  unfolding claim claim_token expire_if_needed new
  claim_wrong i token presented bytes created now t d w =
      ground (arith, d, w, bytes_eq_iff bytes token)

  -- In the first two minutes of a new session, a text that decodes, but not to its token or with more
  -- than 64 characters, is refused, and whatever is called after it, media may not be negotiated.
  pub wrong_token_closes :
      (i : BrowserInvitation) (token presented bytes : Bytes) (created now : ℕ) (es : List Event)
      → now - created < 120_000
      → platform.base64_decode presented ≡ some bytes
      → ¬ IsRight token created presented
      → let r = claim platform (new i token created) presented now in
        (r.1 ≡ err invalid_token) × (may_negotiate (run r.0 es) ≡ false)
  wrong_token_closes i token presented bytes created now es t d w =
      let (c, e) = claim_wrong i token presented bytes created now t d w in
      (e, closed_for_good (claim platform (new i token created) presented now).0 es c)
