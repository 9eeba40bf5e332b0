-- ===== src/Browser/Invitation.antt =====
-- crates/omacam-core/src/browser.rs: the invitation, minted and parsed. JSON is a pair of functions,
-- since serde derives it.
use omalens.Prelude.{
  ℕ, Bool, false, not, ◌||◌, Option, none, some, ◌++◌, ◌==◌, ltb, Bytes, codes, is_empty, length,
  Result, ok, ◌>>=◌, ◌>>◌, reject_if, ok_or,
}
use omalens.Endpoint.{SocketAddr, browser_accepts}
use omalens.Platform.{Platform}

abbrev pub browser_protocol_version : ℕ
browser_protocol_version = 1

abbrev pub max_invitation_bytes : ℕ
max_invitation_bytes = 1_024

abbrev pub max_desktop_name_bytes : ℕ
max_desktop_name_bytes = 64

pub data BrowserError : Type 0 where
  invalid_version invalid_token invalid_certificate_digest invalid_endpoint : BrowserError
  invalid_desktop_name invitation_expired already_claimed not_claimed not_confirmed : BrowserError
  already_confirmed confirmation_expired oversize_invitation malformed_invitation : BrowserError

pub record BrowserInvitation : Type 0 where
  pub version : ℕ  -- u8
  pub token : Bytes
  pub certificate_sha256 : Bytes
  pub endpoint : SocketAddr
  pub desktop_name : Bytes

-- `serde_json::from_str` and `serde_json::to_string` at `BrowserInvitation`.
pub record Json : Type 0 where
  pub from_str : Bytes → Option BrowserInvitation
  pub to_string : BrowserInvitation → Option Bytes

unfoldable pub validate_endpoint : SocketAddr → Result BrowserError (Unit {0})
validate_endpoint endpoint = reject_if (not (browser_accepts endpoint)) invalid_endpoint

unfoldable pub validate_desktop_name : Bytes → Result BrowserError (Unit {0})
validate_desktop_name name =
    reject_if (is_empty name || ltb max_desktop_name_bytes (length name)) invalid_desktop_name

module _ (platform : Platform) where
  unfoldable pub create :
      (token certificate_sha256 : Bytes)
      → SocketAddr
      → Bytes
      → Result BrowserError BrowserInvitation
  create token certificate_sha256 endpoint desktop_name = do
    reject_if (not (length certificate_sha256 == 32)) invalid_certificate_digest
    validate_endpoint endpoint
    validate_desktop_name desktop_name
    ok (record {
      version = browser_protocol_version;
      token = platform.base64_encode token;
      certificate_sha256 = platform.base64_encode certificate_sha256;
      endpoint = endpoint;
      desktop_name = desktop_name;
    })

  -- `decoded_len(encoded) == Some(n)`.
  abbrev pub decodes_to : Bytes → ℕ → Bool
  decodes_to encoded n = elim (platform.base64_decode encoded) [
    | none ↦ false
    | some bytes ↦ length bytes == n
  ]

  unfoldable pub parse : Json → Bytes → Result BrowserError BrowserInvitation
  parse json encoded = do
    reject_if (ltb max_invitation_bytes (length encoded)) oversize_invitation
    i ← ok_or (json.from_str encoded) malformed_invitation
    reject_if (not (i.version == browser_protocol_version)) invalid_version
    reject_if (not (decodes_to i.certificate_sha256 32)) invalid_certificate_digest
    reject_if (not (decodes_to i.token 32)) invalid_token
    validate_endpoint i.endpoint
    validate_desktop_name i.desktop_name
    ok i

  unfoldable pub url : BrowserInvitation → Bytes
  url i = codes "https://" ++ (platform.socket_to_string i.endpoint ++ (codes "/#" ++ i.token))

  unfoldable pub qr_payload : BrowserInvitation → Bytes
  qr_payload i = url i

unfoldable pub to_json : Json → BrowserInvitation → Result BrowserError Bytes
to_json json i = do
  encoded ← ok_or (json.to_string i) malformed_invitation
  reject_if (ltb max_invitation_bytes (length encoded)) oversize_invitation
  ok encoded
