-- ===== src/Media/Stream.antt =====
-- crates/omacam-core/src/media.rs: media records, their validator and the reading of a stream.
pub mod Header
pub mod Reading
pub mod Layout
pub mod RoundTrip
pub mod Canonical
pub mod Order
use omalens.Prelude.{
  ℕ, zero, suc, ◌+◌, ◌*◌, ◌/◌, ◌<◌, ◌^◌, Bool, true, false, not, ◌&&◌, ◌||◌, Option, none, some,
  List, [], ◌∷◌, ◌++◌, Bytes, bytes_eq, ◌==◌, ltb, if◌then◌else◌, is_some_and, is_empty, Result, ok,
  err, ◌>>=◌, ◌>>◌, reject_if, ok_or, checked_add, saturating_add, length, to_be_bytes,
  from_be_bytes,
}
use omalens.Media.Wire.{
  MediaBinding, binding_bytes, slice, byte_at, media_protocol_version, media_magic, key_frame_flag,
  max_h264_access_unit_bytes,
}

pub data MediaRecordKind : Type 0 where
  h264_access_unit stop : MediaRecordKind

pub record MediaRecord : Type 0 where
  pub kind : MediaRecordKind
  pub key_frame : Bool
  pub sequence : ℕ  -- u64
  pub presentation_time_us : ℕ  -- u64
  pub payload : Bytes

pub record ValidatedMediaHeader : Type 0 where
  pub kind : MediaRecordKind
  pub key_frame : Bool
  pub sequence : ℕ
  pub presentation_time_us : ℕ
  pub payload_length : ℕ

-- `io` carries the operating system's error by its number.
pub data MediaError : Type 0 where
  io : (kind : ℕ) → MediaError
  truncated_header truncated_payload invalid_magic unsupported_version invalid_kind : MediaError
  invalid_flags invalid_peer_identity invalid_connection_id invalid_session_id : MediaError
  wrong_peer wrong_connection wrong_session stale_generation invalid_sequence : MediaError
  invalid_timestamp empty_access_unit access_unit_too_large stop_has_payload : MediaError
  invalidated : MediaError

pub record MediaStreamValidator : Type 0 where
  pub binding : MediaBinding
  pub last_sequence : Option ℕ
  pub last_presentation_time_us : Option ℕ
  pub invalidated : Bool

unfoldable pub new : MediaBinding → MediaStreamValidator
new binding = record {
  binding = binding;
  last_sequence = none;
  last_presentation_time_us = none;
  invalidated = false;
}

abbrev pub is_stop : MediaRecordKind → Bool
is_stop stop = true
is_stop h264_access_unit = false

-- The match on byte 9.
unfoldable pub record_kind : ℕ → Result MediaError MediaRecordKind
record_kind code =
    if code == 1 then ok h264_access_unit else if code == 2 then ok stop else err invalid_kind

-- `flags & !KEY_FRAME_FLAG` and `flags & KEY_FRAME_FLAG`, the flag being the lowest bit.
abbrev pub other_flags : ℕ → ℕ
other_flags flags = flags / 2 * 2

abbrev pub has_key_frame_flag : ℕ → Bool
has_key_frame_flag flags = not (flags == other_flags flags)

unfoldable pub expected_sequence : Option ℕ → Result MediaError ℕ
expected_sequence none = ok 0
expected_sequence (some value) = ok_or (checked_add value 1) invalid_sequence

-- The match on the kind at the end of `validate_header`.
unfoldable pub check_kind :
    MediaRecordKind
    → (payload_length presentation_time_us : ℕ) → Option ℕ
    → Result MediaError (Unit {0})
check_kind h264_access_unit payload_length presentation_time_us last = do
  reject_if (payload_length == 0) empty_access_unit
  reject_if (ltb max_h264_access_unit_bytes payload_length) access_unit_too_large
  reject_if (is_some_and last (λ l. ltb presentation_time_us l)) invalid_timestamp
check_kind stop payload_length presentation_time_us last = do
  reject_if (not (payload_length == 0)) stop_has_payload
  reject_if (not (presentation_time_us == 0)) invalid_timestamp

-- Bytes 12 to 84 against the binding.
unfoldable pub check_binding : MediaBinding → Bytes → Result MediaError (Unit {0})
check_binding binding header = do
  reject_if (not (bytes_eq (slice 12 44 header) binding.peer_identity)) wrong_peer
  reject_if (not (bytes_eq (slice 44 60 header) binding.control_connection_id)) wrong_connection
  reject_if (not (bytes_eq (slice 60 76 header) binding.media_session_id)) wrong_session
  reject_if (not (from_be_bytes (slice 76 84 header) == binding.generation)) stale_generation

-- The first twelve bytes: the kind of the record and its flags.
unfoldable pub check_preamble : Bytes → Result MediaError (MediaRecordKind × ℕ)
check_preamble header = do
  reject_if (not (bytes_eq (slice 0 8 header) media_magic)) invalid_magic
  reject_if (not (byte_at header 8 == media_protocol_version)) unsupported_version
  kind ← record_kind (byte_at header 9)
  let flags = from_be_bytes (byte_at header 10 ∷ byte_at header 11 ∷ [])
  reject_if (not (other_flags flags == 0) || (is_stop kind && not (flags == 0))) invalid_flags
  ok (kind, flags)

-- The last twenty bytes, against what the stream has had so far. `usize` holds every u32, so the
-- conversion of the payload's length succeeds.
unfoldable pub check_order :
    MediaStreamValidator → MediaRecordKind × ℕ → Bytes → Result MediaError ValidatedMediaHeader
check_order v (kind, flags) header = do
  let sequence = from_be_bytes (slice 84 92 header)
  let presentation_time_us = from_be_bytes (slice 92 100 header)
  let payload_length = from_be_bytes (slice 100 104 header)
  expected ← expected_sequence v.last_sequence
  reject_if (not (sequence == expected)) invalid_sequence
  check_kind kind payload_length presentation_time_us v.last_presentation_time_us
  ok (record {
    kind = kind;
    key_frame = has_key_frame_flag flags;
    sequence = sequence;
    presentation_time_us = presentation_time_us;
    payload_length = payload_length;
  })

unfoldable pub validate_header :
    MediaStreamValidator → Bytes → Result MediaError ValidatedMediaHeader
validate_header v header = do
  reject_if v.invalidated MediaError.invalidated
  preamble ← check_preamble header
  check_binding v.binding header
  check_order v preamble header

-- `self.last_sequence.map_or(0, |value| value.saturating_add(1))`.
abbrev pub following_sequence : Option ℕ → ℕ
following_sequence none = 0
following_sequence (some value) = saturating_add value 1

-- The state after a record was taken.
abbrev pub committed : MediaStreamValidator → MediaRecordKind → ℕ → ℕ → MediaStreamValidator
committed v h264_access_unit sequence time = record v {
  last_sequence = some sequence;
  last_presentation_time_us = some time;
}
committed v stop sequence time = record v { last_sequence = some sequence; invalidated = true }

abbrev pub record_of : ValidatedMediaHeader → Bytes → MediaRecord
record_of pending payload = record {
  kind = pending.kind;
  key_frame = pending.key_frame;
  sequence = pending.sequence;
  presentation_time_us = pending.presentation_time_us;
  payload = payload;
}

unfoldable pub finish_record :
    MediaStreamValidator
    → ValidatedMediaHeader
    → Bytes
    → MediaStreamValidator × Result MediaError MediaRecord
finish_record v pending payload =
    if v.invalidated
    then (v, err MediaError.invalidated)
    else if not (length payload == pending.payload_length)
    then (v, err truncated_payload)
    else if not (pending.sequence == following_sequence v.last_sequence)
    then (v, err invalid_sequence)
    else (
      committed v pending.kind pending.sequence pending.presentation_time_us,
      ok (record_of pending payload),
    )

-- The match on the kind at the start of `write_record`.
unfoldable pub check_record : MediaRecord → Result MediaError (Unit {0})
check_record r = elim r.kind [
  | h264_access_unit ↦ do
    reject_if (is_empty r.payload) empty_access_unit
    reject_if (ltb max_h264_access_unit_bytes (length r.payload)) access_unit_too_large
  | stop ↦ do
    reject_if r.key_frame invalid_flags
    reject_if (not (is_empty r.payload)) stop_has_payload
    reject_if (not (r.presentation_time_us == 0)) invalid_timestamp
]

abbrev pub kind_code : MediaRecordKind → ℕ
kind_code h264_access_unit = 1
kind_code stop = 2

abbrev pub flags_of : Bool → ℕ
flags_of key_frame = if key_frame then key_frame_flag else 0

abbrev pub header_bytes : MediaBinding → MediaRecord → Bytes
header_bytes binding r =
    media_magic
    ++ media_protocol_version
      ∷ kind_code r.kind
      ∷ (to_be_bytes 2 (flags_of r.key_frame)
          ++ binding_bytes binding (
              to_be_bytes 8 r.sequence
              ++ (to_be_bytes 8 r.presentation_time_us ++ to_be_bytes 4 (length r.payload))))

-- The bytes written, to a writer that takes all of them.
unfoldable pub write_record : MediaBinding → MediaRecord → Result MediaError Bytes
unfolding check_record
write_record binding r = do
  check_record r
  reject_if (not (ltb (length r.payload) (2 ^ 32))) access_unit_too_large
  ok (header_bytes binding r ++ r.payload)
