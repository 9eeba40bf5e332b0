-- ===== src/Media/Stream/Canonical.antt =====
-- crates/omacam-core/src/media.rs: the bytes that are accepted, against those that are written.
use mathlib.Core.List.{append-nil}
use omalens.Prelude.{
  ℕ, ◌+◌, ◌≤◌, ◌^◌, ◌≡◌, sym, ap, ◌∙◌, Bool, true, false, [], ◌∷◌, ◌++◌, arith, Bytes, AreBytes,
  AreBytes-take, AreBytes-drop, take, drop, length, length-take, length-drop, take-append-drop,
  drop_all, ok, from_be_bytes, to_be_bytes, to_be_bytes-from_be_bytes, lt→ltb,
}
use omalens.Media.Wire.{slice, byte_at, binding_bytes}
use omalens.Media.Fields.{binding_bytes-read_binding, header_start, drop-add}
use omalens.Media.Stream.{
  ValidatedMediaHeader, MediaStreamValidator, validate_header, record_of, write_record, flags_of,
}
use omalens.Media.Stream.Header.{Fits, Accepts, validate_header_iff, Fits-size, check_record-Fits}
use omalens.Media.Stream.Layout.{plain_header, numbers, header_bytes-plain}

flag_pair :
    (a b : ℕ) (key : Bool)
    → from_be_bytes (a ∷ b ∷ []) ≡ flags_of key
    → (a ≡ 0) × (b ≡ flags_of key)
unfolding from_be_bytes
flag_pair a b false h = (omega arith, omega arith)
flag_pair a b true h = (omega arith, omega arith)

module _ (header : Bytes) (bytes : AreBytes header) (long : length header ≡ 104) where
  piece :
      (i n : ℕ)
      → i + n ≤ 104
      → to_be_bytes n (from_be_bytes (take n (drop i header))) ≡ take n (drop i header)
  piece i n h =
      let size : length (take n (drop i header)) ≡ n =
        omega (arith, length-take n (drop i header), length-drop i header) in
      rw size at (
        to_be_bytes-from_be_bytes (take n (drop i header))
          (AreBytes-take n (drop i header) (AreBytes-drop i header bytes)))

  cut : (i n : ℕ) → drop i header ≡ take n (drop i header) ++ drop (i + n) header
  cut i n = rw (drop-add i n header) (sym (take-append-drop n (drop i header)))

  tail_numbers :
      drop 84 header
      ≡ to_be_bytes 8 (from_be_bytes (slice 84 92 header))
        ++ (to_be_bytes 8 (from_be_bytes (slice 92 100 header))
            ++ to_be_bytes 4 (from_be_bytes (slice 100 104 header)))
  unfolding slice
  tail_numbers =
      let last : drop 104 header ≡ [] = drop_all 104 header long in
      rw (piece 84 8 (omega arith), piece 92 8 (omega arith), piece 100 4 (omega arith))
        (cut 84 8
          ∙ ap (◌++◌ (take 8 (drop 84 header))) (
              cut 92 8
              ∙ ap (◌++◌ (take 8 (drop 92 header))) (
                  cut 100 4
                  ∙ (ap (◌++◌ (take 4 (drop 100 header))) last
                      ∙ append-nil (take 4 (drop 100 header))))))

  module _ (v : MediaStreamValidator) (p : ValidatedMediaHeader) (payload : Bytes)
      (a : Accepts v header p) (whole : length payload ≡ p.payload_length) where
    header-plain : header ≡ plain_header v.binding (record_of p payload)
    unfolding plain_header
    header-plain =
        let (high, low) = flag_pair (byte_at header 10) (byte_at header 11) p.key_frame a.flags in
        let region : drop 12 header
            ≡ binding_bytes v.binding (numbers v.binding (record_of p payload)) =
          binding_bytes-read_binding header bytes (omega arith) ∙ λ i. binding_bytes (a.bound i) (
            (tail_numbers ∙ λ j.
            to_be_bytes 8 (a.sequence j)
            ++ (to_be_bytes 8 (a.time j) ++ to_be_bytes 4 ((a.size ∙ sym whole) j)))
              i) in
        header_start header bytes (omega arith) ∙ λ i.
        a.magic i ++ a.version i ∷ a.kind i ∷ high i ∷ low i ∷ region i

    fits : Fits p.kind (length payload) p.presentation_time_us v.last_presentation_time_us
    fits = rw whole a.fits

    write_accepted : write_record v.binding (record_of p payload) ≡ ok (header ++ payload)
    unfolding write_record
    write_accepted =
        rw
          (
            check_record-Fits (record_of p payload) v.last_presentation_time_us a.stop_plain fits,
            lt→ltb (length payload) (2 ^ 32) (
                Fits-size p.kind (length payload) p.presentation_time_us v.last_presentation_time_us
                  fits),
          )
          (ap (λ h. ok (h ++ payload))
            (header_bytes-plain v.binding (record_of p payload) ∙ sym header-plain))

-- A header of 104 bytes that is accepted, with a payload of the length that it announces, is byte
-- for byte what `write_record` writes for the record that is taken from them: no record has two
-- encodings.
pub write_record-validate_header :
    (v : MediaStreamValidator) (header : Bytes) (p : ValidatedMediaHeader) (payload : Bytes)
    → AreBytes header
    → length header ≡ 104
    → validate_header v header ≡ ok p
    → length payload ≡ p.payload_length
    → write_record v.binding (record_of p payload) ≡ ok (header ++ payload)
write_record-validate_header v header p payload bytes long h whole =
    write_accepted header bytes long v p payload ((validate_header_iff v header p).0 h) whole
