-- ===== src/Tests/Pairing.antt =====
-- A pairing session with its invitation and claim.
use omalens.Prelude.{
  from_be_bytes, ◌-◌, ◌<◌, ◌≡◌, refl, List, [], ◌∷◌, ◌++◌, Bytes, none, some, replicate, ok, err,
  arith, codes, false, bytes_eq, to_be_bytes,
}
use omalens.Endpoint.{pairing_accepts}
use omalens.Transcript.{append_field, framed}
use omalens.Pairing.Invitation.{
  PairingInvitation, PairingError, Json, create, parse, validate_name, validate_endpoint,
  expose_qr_payload, wrong_session, decode_exact, decode_bounded,
}
use omalens.Pairing.Session.{
  PairingClaim, VerifiedClaim, PairingSession, available, awaiting_approvals, paired, phone,
  desktop, new, claim, check_claim, claim_transcript, check_identity, constant_time_secret_match,
  claim_prefix, sas_of, six_digits, expire_if_needed, approve,
}
use omalens.Pairing.Approval.{Event, claims, approves, step, run, Claimed, paired-Claimed}
use omalens.Pairing.Claims.{claim_once}
use omalens.Pairing.Validity.{parse-create}
use omalens.Tests.Fixtures.{platform, platform-IsPlatform, endpoint}

abbrev name : Bytes
name = codes "Desk"

abbrev invitation : PairingInvitation
invitation = record {
  version = 1;
  session_id = replicate 16 3;
  secret = replicate 32 4;
  challenge = replicate 32 5;
  certificate_sha256 = replicate 32 0;
  endpoint = endpoint;
  desktop_name = name;
  expires_at_unix_secs = 1_120;
}

abbrev offer : PairingClaim
offer = record {
  version = 1;
  session_id = replicate 16 3;
  secret = replicate 32 4;
  phone_name = codes "Phone";
  phone_public_key_der = replicate 91 7;
  phone_nonce = replicate 32 8;
  signature_der = replicate 70 9;
}

abbrev misdirected : PairingClaim
misdirected = record offer { session_id = [] }

abbrev kept : VerifiedClaim
kept = record {
  phone_name = codes "Phone";
  phone_public_key_der = replicate 91 7;
  phone_key_sha256 = replicate 32 0;
  sas = codes "000000";
}

abbrev session : PairingSession
session = record {
  invitation = invitation;
  created_monotonic_ms = 500;
  state = available;
  verified_claim = none;
  phone_approved = false;
  desktop_approved = false;
}

verified : check_claim platform invitation offer ≡ ok kept
unfolding check_claim bytes_eq constant_time_secret_match decode_exact validate_name decode_bounded
    check_identity claim_transcript append_field sas_of six_digits from_be_bytes
verified = refl

refuted : check_claim platform invitation misdirected ≡ err wrong_session
unfolding check_claim bytes_eq
refuted = refl

accepted : (claim platform session offer 1_000).1 ≡ ok kept
unfolding claim check_claim expire_if_needed bytes_eq constant_time_secret_match decode_exact
    validate_name decode_bounded check_identity claim_transcript append_field sas_of six_digits
    from_be_bytes
accepted = refl

abbrev approvals : List Event
approvals = claims offer 1_000 ∷ approves desktop ∷ approves phone ∷ []

is_paired : (run platform (new invitation 500) approvals).state ≡ paired
unfolding run step claim check_claim approve new expire_if_needed bytes_eq
    constant_time_secret_match decode_exact validate_name decode_bounded check_identity
    claim_transcript append_field
is_paired = refl

paired-Claimed_example : Claimed platform invitation 500 approvals
paired-Claimed_example = paired-Claimed platform invitation 500 approvals is_paired

claim_once_example :
    let s' = (claim platform session offer 1_000).0 in
    (available ≡ available)
    × (1_000 - 500 < 120_000)
    × (check_claim platform invitation offer ≡ ok kept)
    × (s' ≡ record session { verified_claim = some kept; state = awaiting_approvals })
    × ((e : PairingError) × ((claim platform (run platform s' (approves phone ∷ [])) offer 2_000).1
          ≡ err e))
claim_once_example =
    claim_once platform session offer 1_000 kept (approves phone ∷ []) offer 2_000 accepted

abbrev key : Bytes
key = replicate 91 7

abbrev nonce : Bytes
nonce = replicate 32 8

abbrev signed : Bytes
signed =
    codes "OMACAM-PAIR-CLAIM-V1"
    ++ (0
        ∷ (framed (replicate 16 3)
            ++ (framed (replicate 32 5)
                ++ (framed (replicate 32 0)
                    ++ (framed (codes "192.168.1.5:8443")
                        ++ (framed name ++ (framed name ++ (framed key ++ framed nonce))))))))

is_signed : claim_transcript platform invitation name key nonce ≡ ok signed
unfolding claim_transcript append_field claim_prefix framed to_be_bytes
is_signed = refl

abbrev json : Json
json = record { from_str = λ _. some invitation; to_string = λ _. some (codes "{}") }

is_created :
    create platform endpoint name
      (1 ∷ [])
      (some (replicate 16 3))
      (some (replicate 32 4))
      (some (replicate 32 5))
      1_000
    ≡ ok invitation
unfolding create validate_endpoint pairing_accepts validate_name
is_created = refl

is_shown : expose_qr_payload json invitation ≡ ok (codes "{}")
unfolding expose_qr_payload
is_shown = refl

parse-create_example : parse platform json (codes "{}") 1_100 ≡ ok invitation
parse-create_example =
    parse-create platform platform-IsPlatform endpoint name (1 ∷ []) (replicate 16 3)
      (replicate 32 4) (replicate 32 5) 1_000 invitation is_created json (codes "{}") 1_100 refl
      refl refl is_shown refl (omega arith) (omega arith) (omega arith) (omega arith)
