-- ===== src/Media/Stream/Layout.antt =====
-- crates/omacam-core/src/media.rs: where the fields of a record stand in its header.
use omalens.Prelude.{
  take_all, arith, length-append, ◌<◌, ◌^◌, ◌≡◌, refl, ap, ◌∙◌, Bool, true, false, [], ◌∷◌, ◌++◌,
  Bytes, length, drop, from_be_bytes, to_be_bytes, length-to_be_bytes, from_be_bytes-to_be_bytes,
  u64_mod, take-append, drop-append,
}
use omalens.Media.Wire.{MediaBinding, IsBinding, binding_bytes, slice, media_magic}
use omalens.Media.Fields.{drop-binding_bytes, drop-add, length-binding_bytes}
use omalens.Media.Stream.{MediaRecord, kind_code, flags_of, header_bytes}

flag_bytes : (key : Bool) → to_be_bytes 2 (flags_of key) ≡ 0 ∷ flags_of key ∷ []
unfolding to_be_bytes
flag_bytes false = refl
flag_bytes true = refl

pub flags_back : (key : Bool) → from_be_bytes (0 ∷ flags_of key ∷ []) ≡ flags_of key
unfolding from_be_bytes
flags_back false = refl
flags_back true = refl

module _ (b : MediaBinding) (r : MediaRecord) where
  abbrev pub numbers : Bytes
  numbers =
      to_be_bytes 8 r.sequence
      ++ (to_be_bytes 8 r.presentation_time_us ++ to_be_bytes 4 (length r.payload))

  -- The header with the two flag bytes written out.
  unfoldable pub plain_header : Bytes
  plain_header =
      media_magic ++ 1 ∷ kind_code r.kind ∷ 0 ∷ flags_of r.key_frame ∷ binding_bytes b numbers

  pub header_bytes-plain : header_bytes b r ≡ plain_header
  unfolding plain_header
  header_bytes-plain = rw (flag_bytes r.key_frame)

  pub length-plain_header : IsBinding b → length plain_header ≡ 104
  unfolding plain_header
  length-plain_header w = omega (
    arith,
    length-binding_bytes b numbers w,
    length-append (to_be_bytes 8 r.sequence)
        (to_be_bytes 8 r.presentation_time_us ++ to_be_bytes 4 (length r.payload)),
    length-append (to_be_bytes 8 r.presentation_time_us) (to_be_bytes 4 (length r.payload)),
    length-to_be_bytes 8 r.sequence,
    length-to_be_bytes 8 r.presentation_time_us,
    length-to_be_bytes 4 (length r.payload),
  )

  module _ (w : IsBinding b) (seq : r.sequence < u64_mod) (time : r.presentation_time_us < u64_mod)
      (size : length r.payload < 2 ^ 32) where
    from_84 : drop 84 plain_header ≡ numbers
    unfolding plain_header
    from_84 = drop-binding_bytes b numbers plain_header w refl

    from_92 :
        drop 92 plain_header
        ≡ to_be_bytes 8 r.presentation_time_us ++ to_be_bytes 4 (length r.payload)
    from_92 =
        drop-add 84 8 plain_header
        ∙ (ap (drop 8) from_84
            ∙ drop-append 8 (to_be_bytes 8 r.sequence) _ (length-to_be_bytes 8 r.sequence))

    from_100 : drop 100 plain_header ≡ to_be_bytes 4 (length r.payload)
    from_100 =
        drop-add 92 8 plain_header
        ∙ (ap (drop 8) from_92
            ∙ drop-append 8 (to_be_bytes 8 r.presentation_time_us) _
                (length-to_be_bytes 8 r.presentation_time_us))

    pub sequence_back : from_be_bytes (slice 84 92 plain_header) ≡ r.sequence
    unfolding slice
    sequence_back =
        rw (from_84, take-append 8 (to_be_bytes 8 r.sequence) _ (length-to_be_bytes 8 r.sequence))
          (from_be_bytes-to_be_bytes 8 r.sequence seq)

    pub time_back : from_be_bytes (slice 92 100 plain_header) ≡ r.presentation_time_us
    unfolding slice
    time_back =
        rw
          (
            from_92,
            take-append 8 (to_be_bytes 8 r.presentation_time_us) _
                (length-to_be_bytes 8 r.presentation_time_us),
          )
          (from_be_bytes-to_be_bytes 8 r.presentation_time_us time)

    pub size_back : from_be_bytes (slice 100 104 plain_header) ≡ length r.payload
    unfolding slice
    size_back =
        rw
          (
            from_100,
            take_all 4 (to_be_bytes 4 (length r.payload)) (length-to_be_bytes 4 (length r.payload)),
          )
          (from_be_bytes-to_be_bytes 4 (length r.payload) size)
