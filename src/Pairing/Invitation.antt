-- ===== src/Pairing/Invitation.antt =====
-- crates/omacam-core/src/pairing.rs: the invitation shown as a QR code. Random bytes are arguments,
-- `none` where the operating system has none; JSON is a pair of functions, since serde derives it.
use omalens.Prelude.{
  ℕ, ◌+◌, Bool, not, ◌&&◌, ◌||◌, Option, ◌==◌, leb, ltb, Bytes, all, is_empty, length, Result, ok,
  ◌>>=◌, ◌>>◌, reject_if, ok_or, map_err, checked_add, saturating_add,
}
use omalens.Endpoint.{SocketAddr, pairing_accepts}
use omalens.Platform.{Platform}

abbrev pub pairing_protocol_version : ℕ
pairing_protocol_version = 1

abbrev pub invitation_lifetime_secs : ℕ
invitation_lifetime_secs = 120

abbrev pub max_clock_skew_secs : ℕ
max_clock_skew_secs = 30

abbrev pub max_invitation_bytes : ℕ
max_invitation_bytes = 4_096

abbrev pub max_peer_name_bytes : ℕ
max_peer_name_bytes = 64

pub data PairingError : Type 0 where
  random_source_unavailable malformed_invitation invitation_too_large : PairingError
  unsupported_version invalid_endpoint invalid_desktop_name invalid_peer_name : PairingError
  invalid_field_length invitation_expired already_claimed claim_rejected wrong_session :
      PairingError
  wrong_secret invalid_public_key invalid_signature approval_out_of_order : PairingError

pub record PairingInvitation : Type 0 where
  pub version : ℕ  -- u8
  pub session_id : Bytes
  pub secret : Bytes
  pub challenge : Bytes
  pub certificate_sha256 : Bytes
  pub endpoint : SocketAddr
  pub desktop_name : Bytes
  pub expires_at_unix_secs : ℕ  -- u64

-- `serde_json::from_str` and `serde_json::to_string` at `PairingInvitation`.
pub record Json : Type 0 where
  pub from_str : Bytes → Option PairingInvitation
  pub to_string : PairingInvitation → Option Bytes

unfoldable pub validate_endpoint : SocketAddr → Result PairingError (Unit {0})
validate_endpoint endpoint = reject_if (not (pairing_accepts endpoint)) invalid_endpoint

-- The time window: neither expired, nor further ahead than a fresh invitation can be.
abbrev pub out_of_time : (expires now_unix_secs : ℕ) → Bool
out_of_time expires now_unix_secs =
    leb (saturating_add expires max_clock_skew_secs) now_unix_secs
    || ltb (saturating_add now_unix_secs (invitation_lifetime_secs + max_clock_skew_secs)) expires

module _ (platform : Platform) where
  -- The letters and digits of Unicode, and eight more characters.
  abbrev pub safe_character : ℕ → Bool
  safe_character c =
      platform.is_alphanumeric c
      || (c == b' '
          || (c == b'-'
              || (c == b'_'
                  || (c == b'.' || (c == b'\'' || (c == b'(' || (c == b')' || c == b'+')))))))

  unfoldable pub validate_name : Bytes → Result PairingError (Unit {0})
  validate_name name =
      reject_if
        (is_empty name
          || (ltb max_peer_name_bytes (length name)
              || not (all (platform.chars name) safe_character)))
        invalid_field_length

  unfoldable pub decode_exact : Bytes → ℕ → Result PairingError Bytes
  decode_exact encoded expected = do
    decoded ← ok_or (platform.base64_decode encoded) invalid_field_length
    reject_if (not (length decoded == expected)) invalid_field_length
    ok decoded

  unfoldable pub decode_bounded : Bytes → (minimum maximum : ℕ) → Result PairingError Bytes
  decode_bounded encoded minimum maximum = do
    decoded ← ok_or (platform.base64_decode encoded) invalid_field_length
    reject_if (not (leb minimum (length decoded) && leb (length decoded) maximum))
        invalid_field_length
    ok decoded

  unfoldable pub create :
      SocketAddr
      → (desktop_name certificate_der : Bytes)
      → (session_random secret_random challenge_random : Option Bytes) → (now_unix_secs : ℕ)
      → Result PairingError PairingInvitation
  create endpoint desktop_name certificate_der session_random secret_random challenge_random
        now_unix_secs =
      do
        validate_endpoint endpoint
        map_err (validate_name desktop_name) invalid_desktop_name
        reject_if (is_empty certificate_der) invalid_field_length
        session_id ← ok_or session_random random_source_unavailable
        secret ← ok_or secret_random random_source_unavailable
        challenge ← ok_or challenge_random random_source_unavailable
        expires ← ok_or (checked_add now_unix_secs invitation_lifetime_secs) invitation_expired
        ok (record {
          version = pairing_protocol_version;
          session_id = platform.base64_encode session_id;
          secret = platform.base64_encode secret;
          challenge = platform.base64_encode challenge;
          certificate_sha256 = platform.base64_encode (platform.sha256 certificate_der);
          endpoint = endpoint;
          desktop_name = desktop_name;
          expires_at_unix_secs = expires;
        })

  unfoldable pub validate : PairingInvitation → ℕ → Result PairingError (Unit {0})
  validate i now_unix_secs = do
    reject_if (not (i.version == pairing_protocol_version)) unsupported_version
    validate_endpoint i.endpoint
    map_err (validate_name i.desktop_name) invalid_desktop_name
    _ ← decode_exact i.session_id 16
    _ ← decode_exact i.secret 32
    _ ← decode_exact i.challenge 32
    _ ← decode_exact i.certificate_sha256 32
    reject_if (out_of_time i.expires_at_unix_secs now_unix_secs) invitation_expired

  unfoldable pub parse : Json → Bytes → ℕ → Result PairingError PairingInvitation
  parse json encoded now_unix_secs = do
    reject_if (ltb max_invitation_bytes (length encoded)) invitation_too_large
    invitation ← ok_or (json.from_str encoded) malformed_invitation
    validate invitation now_unix_secs
    ok invitation

unfoldable pub expose_qr_payload : Json → PairingInvitation → Result PairingError Bytes
expose_qr_payload json i = ok_or (json.to_string i) malformed_invitation
