-- ===== src/Pairing/Session.antt =====
-- crates/omacam-core/src/pairing.rs: the session of one invitation, from the claim to the trust.
use omalens.Prelude.{
  ℕ, ◌-◌, ◌*◌, ◌+◌, ◌/◌, ◌%◌, Bool, true, false, not, ◌&&◌, Option, none, some, [], ◌∷◌, ◌++◌, ◌==◌,
  leb, Bytes, codes, bytes_eq, take, map, if◌then◌else◌, Result, ok, err, ◌>>=◌, ◌>>◌, reject_if,
  map_err, from_be_bytes,
}
use omalens.Platform.{Platform}
use omalens.Transcript.{append_field}
use omalens.Pairing.Invitation.{
  PairingError, PairingInvitation, invitation_expired, already_claimed, claim_rejected,
  unsupported_version, wrong_session, wrong_secret, invalid_peer_name, invalid_field_length,
  invalid_public_key, invalid_signature, approval_out_of_order, pairing_protocol_version,
  invitation_lifetime_secs, validate_name, decode_exact, decode_bounded,
}

pub record PairingClaim : Type 0 where
  pub version : ℕ  -- u8
  pub session_id : Bytes
  pub secret : Bytes
  pub phone_name : Bytes
  pub phone_public_key_der : Bytes
  pub phone_nonce : Bytes
  pub signature_der : Bytes

pub record VerifiedClaim : Type 0 where
  pub phone_name : Bytes
  pub phone_public_key_der : Bytes
  pub phone_key_sha256 : Bytes
  pub sas : Bytes

pub data InvitationState : Type 0 where
  available awaiting_approvals paired rejected expired : InvitationState

pub data ApprovalSide : Type 0 where
  phone desktop : ApprovalSide

pub record PairingSession : Type 0 where
  pub invitation : PairingInvitation
  pub created_monotonic_ms : ℕ  -- u64
  pub state : InvitationState
  pub verified_claim : Option VerifiedClaim
  pub phone_approved : Bool
  pub desktop_approved : Bool

abbrev pub is_paired : InvitationState → Bool
is_paired paired = true
is_paired _ = false

abbrev pub is_awaiting_approvals : InvitationState → Bool
is_awaiting_approvals awaiting_approvals = true
is_awaiting_approvals _ = false

unfoldable pub new : PairingInvitation → ℕ → PairingSession
new invitation now_monotonic_ms = record {
  invitation = invitation;
  created_monotonic_ms = now_monotonic_ms;
  state = available;
  verified_claim = none;
  phone_approved = false;
  desktop_approved = false;
}

-- The prefix of the signed bytes; it ends in a zero byte.
unfoldable pub claim_prefix : Bytes
claim_prefix = codes "OMACAM-PAIR-CLAIM-V1" ++ 0 ∷ []

-- `{:06}` of a number below a million.
unfoldable pub six_digits : ℕ → Bytes
six_digits n =
    map (λ d. b'0' + d % 10) (n / 100_000 ∷ n / 10_000 ∷ n / 1_000 ∷ n / 100 ∷ n / 10 ∷ n ∷ [])

-- The short authentication string of a digest.
unfoldable pub sas_of : Bytes → Bytes
sas_of digest = six_digits (from_be_bytes (take 4 digest) % 1_000_000)

unfoldable pub expire_if_needed : PairingSession → ℕ → PairingSession
expire_if_needed s now_monotonic_ms =
    if not (is_paired s.state)
      && leb (invitation_lifetime_secs * 1_000) (now_monotonic_ms - s.created_monotonic_ms)
    then record s {
      state = expired;
      verified_claim = none;
      phone_approved = false;
      desktop_approved = false;
    }
    else s

module _ (platform : Platform) where
  unfoldable pub claim_transcript :
      PairingInvitation → (phone_name key_der nonce : Bytes) → Result PairingError Bytes
  claim_transcript i phone_name key_der nonce = do
    t₁ ← append_field invalid_field_length claim_prefix i.session_id
    t₂ ← append_field invalid_field_length t₁ i.challenge
    t₃ ← append_field invalid_field_length t₂ i.certificate_sha256
    t₄ ← append_field invalid_field_length t₃ (platform.socket_to_string i.endpoint)
    t₅ ← append_field invalid_field_length t₄ i.desktop_name
    t₆ ← append_field invalid_field_length t₅ phone_name
    t₇ ← append_field invalid_field_length t₆ key_der
    append_field invalid_field_length t₇ nonce

  unfoldable pub constant_time_secret_match :
      (candidate expected : Bytes) → Result PairingError (Unit {0})
  constant_time_secret_match candidate expected = do
    c ← decode_exact platform candidate 32
    e ← decode_exact platform expected 32
    reject_if (not (bytes_eq c e)) wrong_secret

  -- The signature, and what is kept of the claim.
  unfoldable pub check_identity :
      PairingInvitation
      → (phone_name key_der nonce signature : Bytes) → Result PairingError VerifiedClaim
  check_identity i phone_name key_der nonce signature = do
    reject_if (not (platform.is_public_key_der key_der)) invalid_public_key
    reject_if (not (platform.is_signature_der signature)) invalid_signature
    transcript ← claim_transcript i phone_name key_der nonce
    reject_if (not (platform.verifies key_der transcript signature)) invalid_signature
    ok (record {
      phone_name = phone_name;
      phone_public_key_der = key_der;
      phone_key_sha256 = platform.sha256 key_der;
      sas = sas_of (platform.sha256 transcript);
    })

  -- `claim` after the match on the state, up to the change of the session.
  unfoldable pub check_claim : PairingInvitation → PairingClaim → Result PairingError VerifiedClaim
  check_claim i c = do
    reject_if (not (c.version == pairing_protocol_version)) unsupported_version
    reject_if (not (bytes_eq c.session_id i.session_id)) wrong_session
    constant_time_secret_match c.secret i.secret
    map_err (validate_name platform c.phone_name) invalid_peer_name
    key_der ← decode_bounded platform c.phone_public_key_der 1 256
    nonce ← decode_exact platform c.phone_nonce 32
    signature ← decode_bounded platform c.signature_der 1 96
    check_identity i c.phone_name key_der nonce signature

  abbrev pub settle_claim :
      PairingSession
      → Result PairingError VerifiedClaim
      → PairingSession × Result PairingError VerifiedClaim
  settle_claim s (ok v) = (record s { verified_claim = some v; state = awaiting_approvals }, ok v)
  settle_claim s (err e) = (s, err e)

  abbrev pub claim_in :
      InvitationState
      → PairingSession
      → PairingClaim
      → PairingSession × Result PairingError VerifiedClaim
  claim_in available s c = settle_claim s (check_claim s.invitation c)
  claim_in expired s c = (s, err invitation_expired)
  claim_in rejected s c = (s, err claim_rejected)
  claim_in awaiting_approvals s c = (s, err already_claimed)
  claim_in paired s c = (s, err already_claimed)

  unfoldable pub claim :
      PairingSession → PairingClaim → ℕ → PairingSession × Result PairingError VerifiedClaim
  claim s c now_monotonic_ms =
      let s' = expire_if_needed s now_monotonic_ms in claim_in s'.state s' c

abbrev pub mark : PairingSession → ApprovalSide → PairingSession
mark s phone = record s { phone_approved = true }
mark s desktop = record s { desktop_approved = true }

abbrev pub commit : PairingSession → PairingSession
commit s = if s.phone_approved && s.desktop_approved then record s { state = paired } else s

unfoldable pub approve :
    PairingSession → ApprovalSide → PairingSession × Result PairingError InvitationState
approve s side =
    if not (is_awaiting_approvals s.state)
    then (s, err approval_out_of_order)
    else (commit (mark s side), ok (commit (mark s side)).state)

unfoldable pub reject : PairingSession → PairingSession
reject s =
    if not (is_paired s.state)
    then record s {
      state = rejected;
      verified_claim = none;
      phone_approved = false;
      desktop_approved = false;
    }
    else s
