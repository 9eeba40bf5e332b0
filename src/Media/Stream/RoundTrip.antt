-- ===== src/Media/Stream/RoundTrip.antt =====
-- crates/omacam-core/src/media.rs: `write_record` and `read_next` together.
use mathlib.Core.List.{map-append, append_assoc}
use omalens.Prelude.{
  lt→ltb, ℕ, ◌<◌, ◌^◌, ◌≡◌, refl, ap, Bool, true, false, Option, none, some, [], ◌∷◌, ◌++◌, map,
  arith, Bytes, length, drop, ok, u64_mod, ==_refl,
}
use omalens.Media.Wire.{IsBinding, slice, byte_at}
use omalens.Media.Fields.{read_binding-binding_bytes}
use omalens.Media.Stream.{
  MediaRecordKind, h264_access_unit, stop, MediaRecord, ValidatedMediaHeader, MediaStreamValidator,
  finish_record, committed, write_record, following_sequence,
}
use omalens.Media.Stream.Layout.{
  plain_header, numbers, header_bytes-plain, flags_back, sequence_back, time_back, size_back,
  length-plain_header,
}
use omalens.Media.Stream.Header.{
  Fits, Continues, Accepts, validate_header_iff, Fits-size, check_record-Fits,
}
use omalens.Media.Stream.Reading.{
  header_result, byte, Reader, read_exact, read_header, read_next, after_header,
}

-- A record that may follow in the stream of `v`; its numbers are in u64.
pub record IsNext (v : MediaStreamValidator) (r : MediaRecord) : Type 0 where
  pub running : v.invalidated ≡ false
  pub stop_plain : r.kind ≡ stop → r.key_frame ≡ false
  pub continues : Continues v.last_sequence r.sequence
  pub time_fits : r.presentation_time_us < u64_mod
  pub fits : Fits r.kind (length r.payload) r.presentation_time_us v.last_presentation_time_us

abbrev pub pending_of : MediaRecord → ValidatedMediaHeader
pending_of r = record {
  kind = r.kind;
  key_frame = r.key_frame;
  sequence = r.sequence;
  presentation_time_us = r.presentation_time_us;
  payload_length = length r.payload;
}

-- What a record leaves of the state, written out.
abbrev pub time_after : MediaRecordKind → ℕ → Option ℕ → Option ℕ
time_after h264_access_unit time last = some time
time_after stop time last = last

abbrev pub ends : MediaRecordKind → Bool
ends h264_access_unit = false
ends stop = true

abbrev pub moved_on : MediaStreamValidator → MediaRecord → MediaStreamValidator
moved_on v r = record {
  binding = v.binding;
  last_sequence = some r.sequence;
  last_presentation_time_us = time_after r.kind r.presentation_time_us v.last_presentation_time_us;
  invalidated = ends r.kind;
}

Continues-fits : (last : Option ℕ) (sequence : ℕ) → Continues last sequence → sequence < u64_mod
Continues-fits none sequence c = omega arith
Continues-fits (some l) sequence c = omega arith

Continues-following :
    (last : Option ℕ) (sequence : ℕ) → Continues last sequence → following_sequence last ≡ sequence
Continues-following none sequence c = omega arith
Continues-following (some l) sequence c = omega arith

pub read_exact-map :
    (bs : Bytes) (rest : Reader) → read_exact (length bs) (map byte bs ++ rest) ≡ (ok bs, rest)
unfolding read_exact
read_exact-map [] rest = refl
read_exact-map (b ∷ bs) rest = rw (read_exact-map bs rest)

pub map_append :
    (bs cs : Bytes) (rest : Reader)
    → map byte (bs ++ cs) ++ rest ≡ map byte bs ++ (map byte cs ++ rest)
map_append bs cs rest = simp (map-append, append_assoc)

module _ (v : MediaStreamValidator) (r : MediaRecord) (w : IsBinding v.binding)
    (n : IsNext v r) where
  pub sequence_fits : r.sequence < u64_mod
  sequence_fits = Continues-fits v.last_sequence r.sequence n.continues

  pub size_fits : length r.payload < 2 ^ 32
  size_fits =
      Fits-size r.kind (length r.payload) r.presentation_time_us v.last_presentation_time_us n.fits

  pub header-Accepts : Accepts v (plain_header v.binding r) (pending_of r)
  unfolding plain_header slice byte_at
  header-Accepts = record {
    running = n.running;
    magic = refl;
    version = refl;
    kind = refl;
    flags = flags_back r.key_frame;
    stop_plain = n.stop_plain;
    bound =
        read_binding-binding_bytes v.binding (numbers v.binding r) (plain_header v.binding r) w
          refl;
    sequence = sequence_back v.binding r w sequence_fits n.time_fits size_fits;
    time = time_back v.binding r w sequence_fits n.time_fits size_fits;
    size = size_back v.binding r w sequence_fits n.time_fits size_fits;
    continues = n.continues;
    fits = n.fits;
  }

  abbrev pub next : MediaStreamValidator
  next = committed v r.kind r.sequence r.presentation_time_us

  pub finish_record_ok : finish_record v (pending_of r) r.payload ≡ (next, ok r)
  unfolding finish_record
  finish_record_ok = rw (
    n.running,
    ==_refl (length r.payload),
    Continues-following v.last_sequence r.sequence n.continues,
    ==_refl r.sequence,
  )

  pub write_record_ok : write_record v.binding r ≡ ok (plain_header v.binding r ++ r.payload)
  unfolding write_record
  write_record_ok = rw (
    ← header_bytes-plain v.binding r,
    check_record-Fits r v.last_presentation_time_us n.stop_plain n.fits,
    lt→ltb (length r.payload) (2 ^ 32) size_fits,
  )

  read_payload :
      (rest : Reader)
      → after_header v (ok (some (plain_header v.binding r)), map byte r.payload ++ rest)
        ≡ (next, rest, ok (some r))
  read_payload rest = rw (
    (validate_header_iff v (plain_header v.binding r) (pending_of r)).1 header-Accepts,
    read_exact-map r.payload rest,
    finish_record_ok,
  )

  read_plain_header :
      (rest : Reader)
      → read_header (map byte (plain_header v.binding r) ++ rest)
        ≡ (ok (some (plain_header v.binding r)), rest)
  unfolding read_header plain_header
  read_plain_header rest =
      let tail = drop 1 (plain_header v.binding r) in
      let whole : length tail ≡ 103 = omega (arith, length-plain_header v.binding r w) in
      ap (header_result 79) (rw whole at (read_exact-map tail rest))

  next-moved_on : next ≡ moved_on v r
  next-moved_on = go r.kind
    where
      go :
          (kind : MediaRecordKind)
          → committed v kind r.sequence r.presentation_time_us ≡ record v {
            last_sequence = some r.sequence;
            last_presentation_time_us =
                time_after kind r.presentation_time_us v.last_presentation_time_us;
            invalidated = ends kind;
          }
      go h264_access_unit =
          ap
            (λ b. record v {
              last_sequence = some r.sequence;
              last_presentation_time_us = some r.presentation_time_us;
              invalidated = b;
            })
            n.running
      go stop = refl

  -- A record that may follow in the stream of a validator is written without an error, and reading
  -- what was written, whatever follows it, yields that record, leaves what follows, and moves the
  -- validator on: the record's sequence number is the last one, an access unit leaves its time and the
  -- stream open, and a Stop leaves the time as it was and ends the stream.
  pub read_next-write_record :
      (bytes : Bytes) × (write_record v.binding r ≡ ok bytes)
      × ((rest : Reader) → read_next v (map byte bytes ++ rest) ≡ (moved_on v r, rest, ok (some r)))
  unfolding read_next
  read_next-write_record = (
    plain_header v.binding r ++ r.payload,
    write_record_ok,
    λ rest.
        simp
          (
            n.running,
            map_append (plain_header v.binding r) r.payload rest,
            read_plain_header (map byte r.payload ++ rest),
          )
          (rw (← next-moved_on) (read_payload rest)),
  )
