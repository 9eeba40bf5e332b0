-- ===== src/Control.antt =====
-- crates/omacam-core/src/control.rs: the reconnect proof of a paired phone. The random bytes of
-- `create` are arguments, `none` where the operating system has none.
pub mod Attempts
pub mod Proof
use Prim.Native.Nat.{bit_and}
use omalens.Prelude.{
  ℕ, ◌+◌, ◌-◌, ◌<◌, ◌^◌, ◌≡◌, Bool, true, false, not, ◌&&◌, ◌||◌, Option, none, some, List, [], ◌∷◌,
  ◌++◌, ◌==◌, ltb, leb, Bytes, codes, bytes_eq, is_empty, length, if◌then◌else◌, Result, ok, err,
  ◌>>=◌, ◌>>◌, reject_if, ok_or, to_be_bytes,
}
use omalens.Platform.{Platform}
use omalens.Transcript.{append_field}

abbrev pub control_protocol_version : ℕ
control_protocol_version = 1

abbrev pub control_challenge_lifetime_ms : ℕ
control_challenge_lifetime_ms = 10_000

abbrev pub control_features : ℕ
control_features = 0

abbrev pub max_public_key_der_bytes : ℕ
max_public_key_der_bytes = 256

abbrev pub max_signature_der_bytes : ℕ
max_signature_der_bytes = 96

pub record ControlHello : Type 0 where
  pub message_type : Bytes
  pub minimum_version : ℕ  -- u8
  pub maximum_version : ℕ  -- u8
  pub features : ℕ  -- u32
  pub required_features : ℕ  -- u32
  pub session_id : Bytes
  pub challenge : Bytes
  pub certificate_sha256 : Bytes

pub record ControlProof : Type 0 where
  pub message_type : Bytes
  pub version : ℕ  -- u8
  pub features : ℕ  -- u32
  pub session_id : Bytes
  pub phone_public_key_sha256 : Bytes
  pub phone_nonce : Bytes
  pub signature_der : Bytes

pub record AuthenticatedControl : Type 0 where
  pub session_id : Bytes
  pub phone_key_sha256 : Bytes
  pub version : ℕ
  pub features : ℕ

pub data ControlState : Type 0 where
  awaiting_proof authenticated rejected expired : ControlState

pub data ControlError : Type 0 where
  random_source_unavailable unsupported_version unsupported_required_feature : ControlError
  invalid_message_type invalid_field_length wrong_session wrong_identity : ControlError
  invalid_public_key invalid_signature challenge_expired replay_rejected proof_rejected :
      ControlError

pub record ControlSession : Type 0 where
  pub hello : ControlHello
  pub created_monotonic_ms : ℕ  -- u64
  pub state : ControlState

abbrev pub is_authenticated : ControlState → Bool
is_authenticated authenticated = true
is_authenticated _ = false

abbrev pub is_rejected : ControlState → Bool
is_rejected rejected = true
is_rejected _ = false

abbrev pub is_expired : ControlState → Bool
is_expired expired = true
is_expired _ = false

abbrev pub hello_type : Bytes
hello_type = codes "control_hello"

unfoldable pub proof_type : Bytes
proof_type = codes "control_proof"

-- The prefix of the signed bytes; it ends in a zero byte.
unfoldable pub proof_prefix : Bytes
proof_prefix = codes "OMACAM-CONTROL-PROOF-V1" ++ 0 ∷ []

-- `!features`, of 32 bits.
abbrev pub complement : ℕ → ℕ
complement features = 0xffff_ffff - features

module _ (platform : Platform) where
  unfoldable pub create :
      (certificate_der : Bytes)
      → (session_random challenge_random : Option Bytes) → (now_monotonic_ms : ℕ)
      → Result ControlError ControlSession
  create certificate_der session_random challenge_random now_monotonic_ms = do
    reject_if (is_empty certificate_der) invalid_field_length
    session_id ← ok_or session_random random_source_unavailable
    challenge ← ok_or challenge_random random_source_unavailable
    ok (record {
      hello = record {
        message_type = hello_type;
        minimum_version = control_protocol_version;
        maximum_version = control_protocol_version;
        features = control_features;
        required_features = 0;
        session_id = platform.base64_encode session_id;
        challenge = platform.base64_encode challenge;
        certificate_sha256 = platform.base64_encode (platform.sha256 certificate_der);
      };
      created_monotonic_ms = now_monotonic_ms;
      state = awaiting_proof;
    })

  unfoldable pub decode_exact : Bytes → ℕ → Result ControlError Bytes
  decode_exact encoded expected = do
    decoded ← ok_or (platform.base64_decode encoded) invalid_field_length
    reject_if (not (length decoded == expected)) invalid_field_length
    ok decoded

  unfoldable pub decode_bounded : Bytes → (minimum maximum : ℕ) → Result ControlError Bytes
  decode_bounded encoded minimum maximum = do
    decoded ← ok_or (platform.base64_decode encoded) invalid_field_length
    reject_if (not (leb minimum (length decoded) && leb (length decoded) maximum))
        invalid_field_length
    ok decoded

  unfoldable pub proof_transcript :
      ControlHello
      → (version features : ℕ) → (phone_key_digest phone_nonce : Bytes) → Result ControlError Bytes
  proof_transcript hello version features phone_key_digest phone_nonce = do
    t₁ ← append_field invalid_field_length proof_prefix (version ∷ [])
    t₂ ← append_field invalid_field_length t₁ (to_be_bytes 4 features)
    t₃ ← append_field invalid_field_length t₂ hello.session_id
    t₄ ← append_field invalid_field_length t₃ hello.challenge
    t₅ ← append_field invalid_field_length t₄ hello.certificate_sha256
    t₆ ← append_field invalid_field_length t₅ phone_key_digest
    append_field invalid_field_length t₆ phone_nonce

  -- The first half of `verify_proof`: the guards on the message's own fields and the key's size.
  unfoldable pub check_message :
      ControlHello → ControlProof → Bytes → Result ControlError (Unit {0})
  check_message hello proof key_der = do
    reject_if (not (bytes_eq proof.message_type proof_type)) invalid_message_type
    reject_if
        (not (proof.version == control_protocol_version)
          || (ltb proof.version hello.minimum_version || ltb hello.maximum_version proof.version))
        unsupported_version
    reject_if (not (bit_and hello.required_features (complement proof.features) == 0))
        unsupported_required_feature
    reject_if (not (bytes_eq proof.session_id hello.session_id)) wrong_session
    reject_if (is_empty key_der || ltb max_public_key_der_bytes (length key_der)) invalid_public_key

  -- The key, the signature and what is signed; then the answer.
  unfoldable pub check_verified :
      ControlHello
      → ControlProof
      → (key_der claimed_digest phone_nonce signature_der : Bytes)
      → Result ControlError AuthenticatedControl
  check_verified hello proof key_der claimed_digest phone_nonce signature_der = do
    reject_if (not (platform.is_public_key_der key_der)) invalid_public_key
    reject_if (not (platform.is_signature_der signature_der)) invalid_signature
    transcript ← proof_transcript hello proof.version proof.features claimed_digest phone_nonce
    reject_if (not (platform.verifies key_der transcript signature_der)) invalid_signature
    ok (record {
      session_id = hello.session_id;
      phone_key_sha256 = platform.sha256 key_der;
      version = proof.version;
      features = bit_and proof.features hello.features;
    })

  -- The second half: the identity, the nonce and the signature.
  unfoldable pub check_signature :
      ControlHello → ControlProof → Bytes → Result ControlError AuthenticatedControl
  check_signature hello proof key_der = do
    claimed_digest ← decode_exact proof.phone_public_key_sha256 32
    reject_if (not (bytes_eq (platform.sha256 key_der) claimed_digest)) wrong_identity
    phone_nonce ← decode_exact proof.phone_nonce 32
    signature_der ← decode_bounded proof.signature_der 1 max_signature_der_bytes
    check_verified hello proof key_der claimed_digest phone_nonce signature_der

  unfoldable pub verify_proof :
      ControlHello → ControlProof → Bytes → Result ControlError AuthenticatedControl
  verify_proof hello proof key_der = do
    check_message hello proof key_der
    check_signature hello proof key_der

  -- The match on the result of `verify_proof`.
  unfoldable pub settle :
      ControlSession
      → Result ControlError AuthenticatedControl
      → ControlSession × Result ControlError AuthenticatedControl
  settle s (ok a) = (record s { state = authenticated }, ok a)
  settle s (err e) = (record s { state = rejected }, err e)

  unfoldable pub authenticate :
      ControlSession
      → ControlProof
      → Bytes
      → ℕ
      → ControlSession × Result ControlError AuthenticatedControl
  unfolding settle
  authenticate s proof key_der now_monotonic_ms =
      if is_authenticated s.state
      then (s, err replay_rejected)
      else if is_rejected s.state
      then (s, err proof_rejected)
      else if leb control_challenge_lifetime_ms (now_monotonic_ms - s.created_monotonic_ms)
      then (record s { state = expired }, err challenge_expired)
      else if is_expired s.state
      then (s, err challenge_expired)
      else settle s (verify_proof s.hello proof key_der)
