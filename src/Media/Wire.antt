-- ===== src/Media/Wire.antt =====
-- crates/omacam-core/src/media.rs: the constants, identifiers and header fields of the wire format.
-- A Rust array is a list here; `IsBinding` states the lengths that its type fixes.
use omalens.Prelude.{
  bytes_eq, bytes_eq_iff, ◌==◌, ◌&&◌, ◌↔◌, Bool, true, arith, from_be_bytes, ℕ, ◌-◌, ◌<◌, ◌≡◌, ◌++◌,
  length, take, drop, get_or, Bytes, codes, AreBytes, to_be_bytes, u64_mod,
}

abbrev pub media_protocol_version : ℕ
media_protocol_version = 1

abbrev pub peer_identity_bytes : ℕ
peer_identity_bytes = 32

abbrev pub control_connection_id_bytes : ℕ
control_connection_id_bytes = 16

abbrev pub media_session_id_bytes : ℕ
media_session_id_bytes = 16

abbrev pub media_header_bytes : ℕ
media_header_bytes = 104

abbrev pub max_h264_access_unit_bytes : ℕ
max_h264_access_unit_bytes = 1_048_576

abbrev pub key_frame_flag : ℕ
key_frame_flag = 1

abbrev pub media_magic : Bytes
media_magic = codes "OMACAMM1"

abbrev pub output_control_magic : Bytes
output_control_magic = codes "OMACAMO1"

abbrev pub output_control_header_bytes : ℕ
output_control_header_bytes = 84

-- The three identifiers wrap byte arrays of fixed length.
abbrev pub PeerIdentity : Type 0
PeerIdentity = Bytes

abbrev pub ControlConnectionId : Type 0
ControlConnectionId = Bytes

abbrev pub MediaSessionId : Type 0
MediaSessionId = Bytes

pub record MediaBinding : Type 0 where
  pub peer_identity : PeerIdentity
  pub control_connection_id : ControlConnectionId
  pub media_session_id : MediaSessionId
  pub generation : ℕ  -- u64

-- Two bindings compared field by field, as `derive(PartialEq)` does.
unfoldable pub same_binding : MediaBinding → MediaBinding → Bool
same_binding a b =
    bytes_eq a.peer_identity b.peer_identity
    && (bytes_eq a.control_connection_id b.control_connection_id
        && (bytes_eq a.media_session_id b.media_session_id && (a.generation == b.generation)))

pub same_binding_iff : (a b : MediaBinding) → (same_binding a b ≡ true) ↔ (a ≡ b)
unfolding same_binding
same_binding_iff a b = (
  λ h. ground (
    arith,
    bytes_eq_iff a.peer_identity b.peer_identity,
    bytes_eq_iff a.control_connection_id b.control_connection_id,
    bytes_eq_iff a.media_session_id b.media_session_id,
  ),
  λ h. ground (
    arith,
    bytes_eq_iff a.peer_identity b.peer_identity,
    bytes_eq_iff a.control_connection_id b.control_connection_id,
    bytes_eq_iff a.media_session_id b.media_session_id,
  ),
)

-- What the Rust types of the fields say.
pub record IsBinding (b : MediaBinding) : Type 0 where
  pub peer_length : length b.peer_identity ≡ 32
  pub connection_length : length b.control_connection_id ≡ 16
  pub session_length : length b.media_session_id ≡ 16
  pub generation_fits : b.generation < u64_mod
  pub peer_bytes : AreBytes b.peer_identity
  pub connection_bytes : AreBytes b.control_connection_id
  pub session_bytes : AreBytes b.media_session_id

-- `header[i..j]`.
unfoldable pub slice : ℕ → ℕ → Bytes → Bytes
slice i j header = take (j - i) (drop i header)

-- The binding as it stands in a header, from byte 12 to byte 84, and what follows it.
abbrev pub binding_bytes : MediaBinding → Bytes → Bytes
binding_bytes b rest =
    b.peer_identity
    ++ (b.control_connection_id ++ (b.media_session_id ++ (to_be_bytes 8 b.generation ++ rest)))

-- `header[i]`, of a header that is long enough.
unfoldable pub byte_at : Bytes → ℕ → ℕ
byte_at header i = get_or header i 0

-- The binding in bytes 12 to 84 of a header.
unfoldable pub read_binding : Bytes → MediaBinding
read_binding header = record {
  peer_identity = slice 12 44 header;
  control_connection_id = slice 44 60 header;
  media_session_id = slice 60 76 header;
  generation = from_be_bytes (slice 76 84 header);
}
