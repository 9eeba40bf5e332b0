-- ===== src/Browser/Session.antt =====
-- crates/omacam-core/src/browser.rs: the claim of a session, and its confirmation on the desktop.
use omalens.Prelude.{
  ℕ, ◌-◌, ◌%◌, ◌^◌, Bool, true, false, not, ◌||◌, Option, none, some, [], ◌∷◌, ◌++◌, ◌==◌, leb, ltb,
  Bytes, codes, bytes_eq, length, take, if◌then◌else◌, is_some_and, Result, ok, err, to_be_bytes,
  from_be_bytes,
}
use omalens.Platform.{Platform}
use omalens.Pairing.Session.{six_digits}
use omalens.Browser.Invitation.{
  BrowserInvitation, BrowserError, invalid_token, invitation_expired, already_claimed, not_claimed,
  already_confirmed, confirmation_expired,
}

abbrev pub invitation_lifetime_ms : ℕ
invitation_lifetime_ms = 120_000

abbrev pub confirmation_lifetime_ms : ℕ
confirmation_lifetime_ms = 120_000

abbrev pub max_token_bytes : ℕ
max_token_bytes = 64

pub data BrowserSessionState : Type 0 where
  offered awaiting_confirmation confirmed closed : BrowserSessionState

pub record BrowserSession : Type 0 where
  pub invitation : BrowserInvitation
  pub token : Bytes
  pub state : BrowserSessionState
  pub created_at_ms : ℕ  -- u64
  pub claimed_at_ms : Option ℕ
  pub sas : Option Bytes

unfoldable pub new : BrowserInvitation → Bytes → ℕ → BrowserSession
new invitation token now_ms = record {
  invitation = invitation;
  token = token;
  state = offered;
  created_at_ms = now_ms;
  claimed_at_ms = none;
  sas = none;
}

-- The match on the state in `expire_if_needed`.
abbrev pub has_expired : BrowserSessionState → BrowserSession → ℕ → Bool
has_expired offered s now_ms = leb invitation_lifetime_ms (now_ms - s.created_at_ms)
has_expired awaiting_confirmation s now_ms =
    is_some_and s.claimed_at_ms (λ at. leb confirmation_lifetime_ms (now_ms - at))
has_expired confirmed s now_ms = false
has_expired closed s now_ms = false

unfoldable pub expire_if_needed : BrowserSession → ℕ → BrowserSession × Bool
expire_if_needed s now_ms =
    if has_expired s.state s now_ms then (record s { state = closed }, true) else (s, false)

-- `u32::try_from(field.len()).unwrap_or(u32::MAX)`.
abbrev pub capped_length : Bytes → ℕ
capped_length field = if ltb (length field) (2 ^ 32) then length field else 0xffff_ffff

unfoldable pub append_field : Bytes → Bytes → Bytes
append_field transcript field = transcript ++ (to_be_bytes 4 (capped_length field) ++ field)

-- The prefix of the hashed bytes; it ends in a zero byte.
unfoldable pub sas_transcript_prefix : Bytes
sas_transcript_prefix = codes "OMACAM-BROWSER-SAS-V1" ++ 0 ∷ []

unfoldable pub sas_transcript : (token certificate_sha256 : Bytes) → Bytes
unfolding append_field
sas_transcript token certificate_sha256 =
    append_field (append_field sas_transcript_prefix token) certificate_sha256

module _ (platform : Platform) where
  unfoldable pub derive_sas : (token certificate_sha256 : Bytes) → Bytes
  derive_sas token certificate_sha256 =
      let digest = platform.sha256 (sas_transcript token certificate_sha256) in
      six_digits (from_be_bytes (take 4 digest) % 1_000_000)

  -- The end of `claim`, on what the presented token decodes to. A token that does not decode leaves
  -- the session open.
  unfoldable pub claim_token :
      BrowserSession → Option Bytes → ℕ → BrowserSession × Result BrowserError Bytes
  claim_token s none now_ms = (s, err invalid_token)
  claim_token s (some presented) now_ms =
      if not (length presented == 32) || not (bytes_eq presented s.token)
      then (record s { state = closed }, err invalid_token)
      else (
        record s {
          state = awaiting_confirmation;
          claimed_at_ms = some now_ms;
          sas = some (derive_sas s.token s.invitation.certificate_sha256);
        },
        ok (derive_sas s.token s.invitation.certificate_sha256),
      )

  abbrev pub claim_in :
      BrowserSessionState → BrowserSession → Bytes → ℕ → BrowserSession × Result BrowserError Bytes
  claim_in offered s presented_token now_ms =
      if ltb max_token_bytes (length presented_token)
      then (record s { state = closed }, err invalid_token)
      else claim_token s (platform.base64_decode presented_token) now_ms
  claim_in closed s presented_token now_ms = (s, err invitation_expired)
  claim_in awaiting_confirmation s presented_token now_ms = (s, err already_claimed)
  claim_in confirmed s presented_token now_ms = (s, err already_claimed)

  unfoldable pub claim : BrowserSession → Bytes → ℕ → BrowserSession × Result BrowserError Bytes
  claim s presented_token now_ms =
      let (s', gone) = expire_if_needed s now_ms in
      if gone then (s', err invitation_expired) else claim_in s'.state s' presented_token now_ms

abbrev pub confirm_in :
    BrowserSessionState → BrowserSession → BrowserSession × Result BrowserError (Unit {0})
confirm_in awaiting_confirmation s = (record s { state = confirmed }, ok tt)
confirm_in offered s = (s, err not_claimed)
confirm_in confirmed s = (s, err already_confirmed)
confirm_in closed s = (s, err confirmation_expired)

unfoldable pub confirm : BrowserSession → ℕ → BrowserSession × Result BrowserError (Unit {0})
confirm s now_ms =
    let (s', gone) = expire_if_needed s now_ms in
    if gone then (s', err confirmation_expired) else confirm_in s'.state s'

unfoldable pub close : BrowserSession → BrowserSession
close s = record s { state = closed }

abbrev pub is_confirmed : BrowserSessionState → Bool
is_confirmed confirmed = true
is_confirmed _ = false

unfoldable pub may_negotiate : BrowserSession → Bool
may_negotiate s = is_confirmed s.state
