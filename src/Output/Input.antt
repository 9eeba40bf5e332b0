-- ===== src/Output/Input.antt =====
-- crates/omacam-output/src/service.rs: what is read from the daemon's pipe, over the reader of
-- `read_next`. A read of the first byte that is interrupted is an error here.
pub mod RoundTrip
use omalens.Prelude.{
  ℕ, Bool, not, Option, none, some, List, [], ◌∷◌, ◌++◌, Bytes, bytes_eq, ltb, if◌then◌else◌,
  Result, ok, err, from_be_bytes,
}
use omalens.Media.Wire.{media_magic, output_control_magic, max_h264_access_unit_bytes, slice}
use omalens.Media.Output.{OutputControlCommand, OutputControlError, parse_output_control}
use omalens.Media.Stream.Reading.{
  ReadEvent, byte, interrupted, failed, Reader, ReadError, unexpected_eof, other, read_exact,
}

pub data ServiceInput : Type 0 where
  control : OutputControlCommand → ServiceInput
  media : (header payload : Bytes) → ServiceInput

pub data InputError : Type 0 where
  read_interrupted read_truncated payload_too_large invalid_command_magic : InputError
  read_failed : (kind : ℕ) → InputError
  invalid_control : OutputControlError → InputError

abbrev pub input_error : ReadError → InputError
input_error unexpected_eof = read_truncated
input_error (other kind) = read_failed kind

abbrev pub prefix_result :
    ℕ → Result ReadError Bytes × Reader → Result InputError (Option Bytes) × Reader
prefix_result first (ok rest, r) = (ok (some (first ∷ rest)), r)
prefix_result first (err e, r) = (err (input_error e), r)

unfoldable pub read_prefix : Reader → Result InputError (Option Bytes) × Reader
read_prefix [] = (ok none, [])
read_prefix (byte first ∷ r) = prefix_result first (read_exact 7 r)
read_prefix (interrupted ∷ r) = (err read_interrupted, r)
read_prefix (failed kind ∷ r) = (err (read_failed kind), r)

abbrev pub Input : Type 0
Input = Result InputError (Option ServiceInput) × Reader

abbrev pub payload_result : Bytes → Result ReadError Bytes × Reader → Input
payload_result header (ok payload, r) = (ok (some (media header payload)), r)
payload_result header (err e, r) = (err (input_error e), r)

-- The length is checked before the payload is read.
unfoldable pub media_input : Bytes → Result ReadError Bytes × Reader → Input
media_input prefix (ok rest, r) =
    let payload_length = from_be_bytes (slice 100 104 (prefix ++ rest)) in
    if ltb max_h264_access_unit_bytes payload_length
    then (err payload_too_large, r)
    else payload_result (prefix ++ rest) (read_exact payload_length r)
media_input prefix (err e, r) = (err (input_error e), r)

abbrev pub parsed_input :
    Result OutputControlError OutputControlCommand → Result InputError (Option ServiceInput)
parsed_input (ok command) = ok (some (control command))
parsed_input (err e) = err (invalid_control e)

unfoldable pub control_input : Bytes → Result ReadError Bytes × Reader → Input
control_input prefix (ok rest, r) = (parsed_input (parse_output_control (prefix ++ rest)), r)
control_input prefix (err e, r) = (err (input_error e), r)

unfoldable pub after_prefix : Result InputError (Option Bytes) × Reader → Input
after_prefix (ok none, r) = (ok none, r)
after_prefix (ok (some prefix), r) =
    if bytes_eq prefix media_magic
    then media_input prefix (read_exact 96 r)
    else if not (bytes_eq prefix output_control_magic)
    then (err invalid_command_magic, r)
    else control_input prefix (read_exact 76 r)
after_prefix (err e, r) = (err e, r)

unfoldable pub read_service_input : Reader → Input
unfolding after_prefix
read_service_input r = after_prefix (read_prefix r)
