-- ===== src/Platform.antt =====
-- What the protocol code calls and this repository does not implement: base64 (URL-safe, without
-- padding), SHA-256, P-256 ECDSA, the Unicode tables and the printing of a socket address. Each is a
-- field, so every definition that calls one takes the record as its argument.
use omalens.Prelude.{ℕ, ◌≡◌, Bool, Option, some, List, Bytes, length}
use omalens.Endpoint.{SocketAddr}

pub record Platform : Type 0 where
  pub base64_encode : Bytes → Bytes
  pub base64_decode : Bytes → Option Bytes
  pub sha256 : Bytes → Bytes
  -- `VerifyingKey::from_public_key_der` and `Signature::from_der` succeed on these bytes.
  pub is_public_key_der : Bytes → Bool
  pub is_signature_der : Bytes → Bool
  -- `verify`, of a key and a signature in DER.
  pub verifies : (key message signature : Bytes) → Bool
  -- `str::chars` and `char::is_alphanumeric`.
  pub chars : Bytes → List ℕ
  pub is_alphanumeric : ℕ → Bool
  pub socket_to_string : SocketAddr → Bytes

-- The documented behaviour that proofs rest on.
pub record IsPlatform (p : Platform) : Type 0 where
  pub decode-encode : (bytes : Bytes) → p.base64_decode (p.base64_encode bytes) ≡ some bytes
  pub length-sha256 : (bytes : Bytes) → length (p.sha256 bytes) ≡ 32
