-- ===== src/Tests/Media.antt =====
-- A media stream of two records, an output command and identifiers as text.
use omalens.Prelude.{
  ◌≡◌, ◌↔◌, refl, true, false, none, some, [], ◌∷◌, ◌++◌, map, arith, Bytes, AreBytes, codes, all,
  ltb, length, replicate, ok, err, to_be_bytes, from_be_bytes, bytes_eq,
}
use omalens.Media.Wire.{MediaBinding, IsBinding, slice, byte_at}
use omalens.Media.Hex.{
  parse_pairs, parse_hex, to_lower, peer_to_hex, peer_from_hex, session_to_hex, session_from_hex,
  connection_to_hex, connection_from_hex, to_hex-from_hex,
}
use omalens.Media.Output.{
  shutdown, IsCommand, parse_output_control, write_output_control, write-parse_output_control,
}
use omalens.Media.Stream.{
  h264_access_unit, stop, MediaRecord, ValidatedMediaHeader, MediaStreamValidator, MediaError,
  validate_header, finish_record, committed, header_bytes, write_record, check_preamble,
  record_kind, check_binding, check_order, expected_sequence, check_kind,
}
use omalens.Media.Stream.Header.{Accepts, validate_header_iff}
use omalens.Media.Stream.Reading.{
  byte, interrupted, Reader, read_next, settle, settle_step, read_next-settle, read_header,
  read_exact,
}
use omalens.Media.Stream.RoundTrip.{IsNext, moved_on, read_next-write_record}
use omalens.Media.Stream.Canonical.{write_record-validate_header}
use omalens.Media.Stream.Order.{InOrder, records, records-InOrder, read_next-stop}

all_bytes : (bs : Bytes) → all bs (λ b. ltb b 256) ≡ true → AreBytes bs
all_bytes [] h = tt
all_bytes (b ∷ bs) h = (ground arith, all_bytes bs (ground arith))

abbrev pub peer : Bytes
peer = replicate 32 1

abbrev pub connection : Bytes
connection = replicate 16 2

abbrev pub session : Bytes
session = replicate 16 171

abbrev pub binding : MediaBinding
binding = record {
  peer_identity = peer;
  control_connection_id = connection;
  media_session_id = session;
  generation = 7;
}

pub binding-IsBinding : IsBinding binding
binding-IsBinding = record {
  peer_length = refl;
  connection_length = refl;
  session_length = refl;
  generation_fits = omega arith;
  peer_bytes = all_bytes peer refl;
  connection_bytes = all_bytes connection refl;
  session_bytes = all_bytes session refl;
}

abbrev pub fresh : MediaStreamValidator
fresh = record {
  binding = binding;
  last_sequence = none;
  last_presentation_time_us = none;
  invalidated = false;
}

abbrev pub picture : MediaRecord
picture = record {
  kind = h264_access_unit;
  key_frame = true;
  sequence = 0;
  presentation_time_us = 40;
  payload = 9 ∷ 8 ∷ [];
}

abbrev after_picture : MediaStreamValidator
after_picture = committed fresh h264_access_unit 0 40

abbrev stop_record : MediaRecord
stop_record = record {
  kind = stop;
  key_frame = false;
  sequence = 1;
  presentation_time_us = 0;
  payload = [];
}

abbrev picture_header : Bytes
picture_header = header_bytes binding picture

abbrev picture_validated : ValidatedMediaHeader
picture_validated = record {
  kind = h264_access_unit;
  key_frame = true;
  sequence = 0;
  presentation_time_us = 40;
  payload_length = 2;
}

picture-IsNext : IsNext fresh picture
picture-IsNext = record {
  running = refl;
  stop_plain = λ e. cc;
  continues = refl;
  time_fits = omega arith;
  fits = (omega arith, omega arith);
}

validate_header_iff_example :
    (validate_header fresh picture_header ≡ ok picture_validated)
    ↔ Accepts fresh picture_header picture_validated
validate_header_iff_example = validate_header_iff fresh picture_header picture_validated

read_next-write_record_example :
    (bytes : Bytes) × (write_record binding picture ≡ ok bytes)
    × ((rest : Reader)
        → read_next fresh (map byte bytes ++ rest)
          ≡ (moved_on fresh picture, rest, ok (some picture)))
read_next-write_record_example =
    read_next-write_record fresh picture binding-IsBinding picture-IsNext

picture_accepted : validate_header fresh picture_header ≡ ok picture_validated
unfolding validate_header check_preamble bytes_eq slice byte_at record_kind from_be_bytes
    to_be_bytes check_binding check_order expected_sequence check_kind
picture_accepted = refl

write_record-validate_header_example :
    write_record binding picture ≡ ok (picture_header ++ 9 ∷ 8 ∷ [])
unfolding to_be_bytes
write_record-validate_header_example =
    write_record-validate_header fresh picture_header picture_validated (9 ∷ 8 ∷ [])
      (all_bytes picture_header refl) refl picture_accepted refl

read_next-settle_example :
    read_next fresh (settle (interrupted ∷ byte 79 ∷ []))
    ≡ settle_step (read_next fresh (interrupted ∷ byte 79 ∷ []))
read_next-settle_example = read_next-settle fresh (interrupted ∷ byte 79 ∷ [])

abbrev both : Reader
both = map byte ((picture_header ++ 9 ∷ 8 ∷ []) ++ header_bytes binding stop_record)

records-InOrder_example : InOrder none none (records 3 fresh both)
records-InOrder_example = records-InOrder 3 fresh both

stop_read :
    read_next after_picture (map byte (header_bytes binding stop_record))
    ≡ (committed after_picture stop 1 0, [], ok (some stop_record))
unfolding read_next read_header read_exact finish_record validate_header check_preamble bytes_eq
    slice byte_at record_kind from_be_bytes to_be_bytes check_binding check_order expected_sequence
    check_kind
stop_read = refl

read_next-stop_example :
    let v' = committed after_picture stop 1 0 in
    ((later : Reader) → read_next v' later ≡ (v', later, err MediaError.invalidated))
    × ((header : Bytes) → validate_header v' header ≡ err MediaError.invalidated)
    × ((p : ValidatedMediaHeader) (payload : Bytes)
        → finish_record v' p payload ≡ (v', err MediaError.invalidated))
read_next-stop_example =
    read_next-stop after_picture (committed after_picture stop 1 0)
      (map byte (header_bytes binding stop_record)) [] stop_record stop_read refl

abbrev peer_text : Bytes
peer_text = replicate 64 b'A'

abbrev short_text : Bytes
short_text = replicate 32 b'b'

abbrev peer_read : Bytes
peer_read = replicate 32 170

abbrev short_read : Bytes
short_read = replicate 16 187

to_hex-from_hex_example :
    ((peer_to_hex peer_read ≡ map to_lower peer_text)
      × (length peer_text ≡ 64)
      × (length peer_read ≡ 32)
      × AreBytes peer_read)
    × ((session_to_hex short_read ≡ map to_lower short_text)
        × (length short_text ≡ 32)
        × (length short_read ≡ 16)
        × AreBytes short_read)
    × ((connection_to_hex short_read ≡ map to_lower short_text)
        × (length short_text ≡ 32)
        × (length short_read ≡ 16)
        × AreBytes short_read)
unfolding peer_from_hex session_from_hex connection_from_hex parse_hex parse_pairs
to_hex-from_hex_example =
    to_hex-from_hex peer_text short_text short_text peer_read short_read short_read refl refl refl

abbrev shutdown_header : Bytes
shutdown_header = codes "OMACAMO1" ++ 1 ∷ 3 ∷ 0 ∷ 0 ∷ replicate 72 0

write-parse_output_control_example :
    (write_output_control shutdown ≡ shutdown_header) × IsCommand shutdown
unfolding parse_output_control bytes_eq slice byte_at
write-parse_output_control_example =
    write-parse_output_control shutdown_header (all_bytes shutdown_header refl) refl shutdown refl
