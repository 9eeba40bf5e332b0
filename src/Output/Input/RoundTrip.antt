-- ===== src/Output/Input/RoundTrip.antt =====
-- crates/omacam-output/src/service.rs: what the writers of crates/omacam-core/src/media.rs write, read
-- from the pipe.
use omalens.Prelude.{
  length-drop, ◌^◌, ◌≤◌, ◌<◌, ◌≡◌, refl, ap, ◌∙◌, false, some, [], ◌∷◌, ◌++◌, map, arith, Bytes,
  bytes_eq, length, ltb, Result, ok, drop, u64_mod,
}
use omalens.Media.Wire.{MediaBinding, IsBinding, media_magic, output_control_magic}
use omalens.Media.Fields.{length-binding_bytes}
use omalens.Media.Stream.Layout.{plain_header, size_back, length-plain_header}
use omalens.Media.Output.{
  OutputControlCommand, OutputControlError, bind, reset, shutdown, IsCommand, control_kind,
  control_region, write_output_control, parse_output_control, parse-write_output_control,
}
use omalens.Media.Stream.{MediaRecord}
use omalens.Media.Stream.Reading.{byte, Reader, read_exact}
use omalens.Media.Stream.RoundTrip.{read_exact-map, map_append}
use omalens.Output.Input.{
  control, media, read_prefix, read_service_input, parsed_input, control_input, media_input,
}

length-control_region : (c : OutputControlCommand) → IsCommand c → length (control_region c) ≡ 72
length-control_region (bind b) v = omega (arith, length-binding_bytes b [] v.0)
length-control_region (reset b) v = omega (arith, length-binding_bytes b [] v.0)
length-control_region shutdown v = refl

control_prefix :
    (r : Reader)
    → read_service_input (map byte output_control_magic ++ r)
      ≡ control_input output_control_magic (read_exact 76 r)
unfolding read_service_input read_prefix read_exact bytes_eq
control_prefix r = refl

media_prefix :
    (r : Reader)
    → read_service_input (map byte media_magic ++ r) ≡ media_input media_magic (read_exact 96 r)
unfolding read_service_input read_prefix read_exact bytes_eq
media_prefix r = refl

-- A command that is written to the pipe is read back as it was, whatever follows it.
pub read_service_input-write_output_control :
    (c : OutputControlCommand) (rest : Reader)
    → IsCommand c
    → read_service_input (map byte (write_output_control c) ++ rest) ≡ (ok (some (control c)), rest)
read_service_input-write_output_control c rest v =
    let tail : Bytes = 1 ∷ control_kind c ∷ 0 ∷ 0 ∷ control_region c in
    let whole : length tail ≡ 76 = omega (arith, length-control_region c v) in
    let read : read_exact 76 (map byte tail ++ rest) ≡ (ok tail, rest) =
      rw whole at (read_exact-map tail rest) in
    let parsed : parse_output_control (output_control_magic ++ tail) ≡ ok c =
      unfold write_output_control in parse-write_output_control c v in
    unfold write_output_control control_input in
    control_prefix (map byte tail ++ rest)
    ∙ ap (control_input output_control_magic) read
    ∙ ap (λ (x : Result OutputControlError OutputControlCommand). (parsed_input x, rest)) parsed

module _ (b : MediaBinding) (r : MediaRecord) (w : IsBinding b) (seq : r.sequence < u64_mod)
    (time : r.presentation_time_us < u64_mod) (size : length r.payload ≤ 1_048_576) where
  media_input-plain_header :
      (rest : Reader)
      → media_input media_magic (ok (drop 8 (plain_header b r)), map byte r.payload ++ rest)
        ≡ (ok (some (media (plain_header b r) r.payload)), rest)
  unfolding media_input plain_header
  media_input-plain_header rest =
      let size' : length r.payload < 2 ^ 32 = omega arith in
      let allowed : ltb 1_048_576 (length r.payload) ≡ false = ground arith in
      rw (size_back b r w seq time size', allowed, read_exact-map r.payload rest)

  read_tail :
      (rest : Reader)
      → read_exact 96 (map byte (drop 8 (plain_header b r)) ++ rest)
        ≡ (ok (drop 8 (plain_header b r)), rest)
  read_tail rest =
      let whole : length (drop 8 (plain_header b r)) ≡ 96 =
        omega (arith, length-drop 8 (plain_header b r), length-plain_header b r w) in
      rw whole at (read_exact-map (drop 8 (plain_header b r)) rest)

  -- A record on the pipe is taken off it whole, whatever follows it, with the header that was written.
  pub read_service_input-plain_header :
      (rest : Reader)
      → read_service_input (map byte (plain_header b r ++ r.payload) ++ rest)
        ≡ (ok (some (media (plain_header b r) r.payload)), rest)
  read_service_input-plain_header rest =
      ap read_service_input (map_append (plain_header b r) r.payload rest)
      ∙ rw (← media_input-plain_header rest, ← read_tail (map byte r.payload ++ rest)) (begins rest)
    where
      begins :
          (rest : Reader)
          → read_service_input (map byte (plain_header b r) ++ (map byte r.payload ++ rest))
            ≡ media_input media_magic (
                read_exact 96
                  (map byte (drop 8 (plain_header b r)) ++ (map byte r.payload ++ rest)))
      begins rest =
          unfold plain_header in
          media_prefix (map byte (drop 8 (plain_header b r)) ++ (map byte r.payload ++ rest))
