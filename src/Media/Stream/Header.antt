-- ===== src/Media/Stream/Header.antt =====
-- crates/omacam-core/src/media.rs: what `validate_header` accepts.
use omalens.Prelude.{
  is_empty-length, length, ◌^◌, ◌>>◌, refl, >>=-eq-ok, passed, ◌∙◌, ==_refl, bytes_eq_refl,
  not-bytes_eq_iff, ℕ, ◌+◌, ◌≤◌, ◌<◌, ◌≡◌, ◌↔◌, Bool, true, false, not, ◌||◌, ◌&&◌, Option, none,
  some, [], ◌∷◌, arith, Bytes, bytes_eq_iff, ◌==◌, ok, from_be_bytes, u64_mod,
}
use omalens.Media.Wire.{MediaBinding, slice, byte_at, read_binding, media_magic}
use omalens.Media.Stream.{
  MediaRecord, check_record, MediaError, validate_header, check_preamble, check_order,
  MediaRecordKind, h264_access_unit, stop, ValidatedMediaHeader, MediaStreamValidator, other_flags,
  has_key_frame_flag, is_stop, record_kind, expected_sequence, check_kind, check_binding, kind_code,
  flags_of,
}

-- The size and the time that a record of this kind may have.
abbrev pub Fits : MediaRecordKind → (payload_length presentation_time_us : ℕ) → Option ℕ → Type 0
Fits h264_access_unit size time none = (0 < size) × (size ≤ 1_048_576)
Fits h264_access_unit size time (some last) = (0 < size) × (size ≤ 1_048_576) × (last ≤ time)
Fits stop size time last = (size ≡ 0) × (time ≡ 0)

-- The sequence number that continues a stream, in u64.
abbrev pub Continues : Option ℕ → ℕ → Type 0
Continues none sequence = sequence ≡ 0
Continues (some last) sequence = (sequence ≡ last + 1) × (last + 1 < u64_mod)

-- What the validator checks of a header, and what it reports.
pub record Accepts (v : MediaStreamValidator) (header : Bytes) (p : ValidatedMediaHeader)
    : Type 0 where
  pub running : v.invalidated ≡ false
  pub magic : slice 0 8 header ≡ media_magic
  pub version : byte_at header 8 ≡ 1
  pub kind : byte_at header 9 ≡ kind_code p.kind
  pub flags : from_be_bytes (byte_at header 10 ∷ byte_at header 11 ∷ []) ≡ flags_of p.key_frame
  pub stop_plain : p.kind ≡ stop → p.key_frame ≡ false
  pub bound : read_binding header ≡ v.binding
  pub sequence : from_be_bytes (slice 84 92 header) ≡ p.sequence
  pub time : from_be_bytes (slice 92 100 header) ≡ p.presentation_time_us
  pub size : from_be_bytes (slice 100 104 header) ≡ p.payload_length
  pub continues : Continues v.last_sequence p.sequence
  pub fits : Fits p.kind p.payload_length p.presentation_time_us v.last_presentation_time_us

record_kind_iff :
    (code : ℕ) (k : MediaRecordKind) → (record_kind code ≡ ok k) ↔ (code ≡ kind_code k)
unfolding record_kind
record_kind_iff code h264_access_unit = (λ h. ground arith, λ h. ground arith)
record_kind_iff code stop = (λ h. ground arith, λ h. ground arith)

expected_sequence_iff :
    (last : Option ℕ) (n : ℕ) → (expected_sequence last ≡ ok n) ↔ Continues last n
unfolding expected_sequence
expected_sequence_iff none n = (λ h. ground arith, λ h. ground arith)
expected_sequence_iff (some l) n = (λ h. ground arith, λ h. ground arith)

check_kind_iff :
    (k : MediaRecordKind) (size time : ℕ) (last : Option ℕ)
    → (check_kind k size time last ≡ ok tt) ↔ Fits k size time last
unfolding check_kind
check_kind_iff h264_access_unit size time none = (λ h. ground arith, λ h. ground arith)
check_kind_iff h264_access_unit size time (some l) = (λ h. ground arith, λ h. ground arith)
check_kind_iff stop size time last = (λ h. ground arith, λ h. ground arith)

flags_iff :
    (flags : ℕ) (k : MediaRecordKind) (key : Bool)
    → ((not (other_flags flags == 0) || (is_stop k && not (flags == 0))) ≡ false)
        × (has_key_frame_flag flags ≡ key)
      ↔ (flags ≡ flags_of key) × (k ≡ stop → key ≡ false)
flags_iff flags h264_access_unit false = (λ h. ground arith, λ h. ground arith)
flags_iff flags h264_access_unit true = (λ h. ground arith, λ h. ground arith)
flags_iff flags stop false = (λ h. ground arith, λ h. ground arith)
flags_iff flags stop true = (λ h. ground arith, λ h. ground arith)

check_binding_iff :
    (b : MediaBinding) (header : Bytes)
    → (check_binding b header ≡ ok tt) ↔ (read_binding header ≡ b)
unfolding check_binding read_binding
check_binding_iff b header = (
  λ h. ground (
    arith,
    bytes_eq_iff (slice 12 44 header) b.peer_identity,
    bytes_eq_iff (slice 44 60 header) b.control_connection_id,
    bytes_eq_iff (slice 60 76 header) b.media_session_id,
  ),
  λ e. rw (← e) (simp (bytes_eq_refl, ==_refl)),
)

check_preamble-eq-ok :
    (header : Bytes) (kind : MediaRecordKind) (flags : ℕ)
    → check_preamble header ≡ ok (kind, flags)
    → (slice 0 8 header ≡ media_magic)
      × (byte_at header 8 ≡ 1)
      × (byte_at header 9 ≡ kind_code kind)
      × (from_be_bytes (byte_at header 10 ∷ byte_at header 11 ∷ []) ≡ flags)
      × ((not (other_flags flags == 0) || (is_stop kind && not (flags == 0))) ≡ false)
unfolding check_preamble
check_preamble-eq-ok header kind flags h = ground (
  arith,
  not-bytes_eq_iff (slice 0 8 header) media_magic,
  record_kind_iff (byte_at header 9) kind,
)

check_order-eq-ok :
    (v : MediaStreamValidator) (kind : MediaRecordKind) (flags : ℕ) (header : Bytes)
    (p : ValidatedMediaHeader)
    → check_order v (kind, flags) header ≡ ok p
    → (p.kind ≡ kind)
      × (has_key_frame_flag flags ≡ p.key_frame)
      × (from_be_bytes (slice 84 92 header) ≡ p.sequence)
      × (from_be_bytes (slice 92 100 header) ≡ p.presentation_time_us)
      × (from_be_bytes (slice 100 104 header) ≡ p.payload_length)
      × (expected_sequence v.last_sequence ≡ ok p.sequence)
      × (check_kind kind p.payload_length p.presentation_time_us v.last_presentation_time_us
          ≡ ok tt)
unfolding check_order
check_order-eq-ok v kind flags header p h = ground arith

module _ (v : MediaStreamValidator) (header : Bytes) (p : ValidatedMediaHeader) where
  validate_header-parts :
      validate_header v header ≡ ok p
      → (v.invalidated ≡ false)
        × (kind : MediaRecordKind) × (flags : ℕ) × (check_preamble header ≡ ok (kind, flags))
        × (check_binding v.binding header ≡ ok tt)
        × (check_order v (kind, flags) header ≡ ok p)
  unfolding validate_header
  validate_header-parts h =
      let (running, h₁) = passed v.invalidated MediaError.invalidated _ h in
      let ((kind, flags), pre, h₂) =
        >>=-eq-ok (check_preamble header)
          (λ preamble. check_binding v.binding header >> check_order v preamble header) h₁ in
      let (u, bound, h₃) =
        >>=-eq-ok (check_binding v.binding header) (λ _. check_order v (kind, flags) header) h₂ in
      (running, kind, flags, pre, bound, h₃)

  validate_header-Accepts : validate_header v header ≡ ok p → Accepts v header p
  validate_header-Accepts h =
      let (running, kind, flags, pre, bound, order) = validate_header-parts h in
      let (magic, version, code, bits, plain) = check_preamble-eq-ok header kind flags pre in
      let (same, key, seq, time, size, next, good) =
        check_order-eq-ok v kind flags header p order in
      let (exact, stop_plain) = (flags_iff flags kind p.key_frame).0 (plain, key) in
      record {
        running = running;
        magic = magic;
        version = version;
        kind = rw same code;
        flags = bits ∙ exact;
        stop_plain = rw same stop_plain;
        bound = (check_binding_iff v.binding header).0 bound;
        sequence = seq;
        time = time;
        size = size;
        continues = (expected_sequence_iff v.last_sequence p.sequence).0 next;
        fits = rw same (
            (check_kind_iff kind p.payload_length p.presentation_time_us
                v.last_presentation_time_us).0
              good);
      }

  module _ (a : Accepts v header p) where
    preamble_ok : check_preamble header ≡ ok (p.kind, flags_of p.key_frame)
    unfolding check_preamble
    preamble_ok = rw (
      a.magic,
      bytes_eq_refl media_magic,
      a.version,
      (record_kind_iff (byte_at header 9) p.kind).1 a.kind,
      a.flags,
      ((flags_iff (flags_of p.key_frame) p.kind p.key_frame).1 (refl, a.stop_plain)).0,
    )

    order_ok : check_order v (p.kind, flags_of p.key_frame) header ≡ ok p
    unfolding check_order
    order_ok = rw (
      a.sequence,
      a.time,
      a.size,
      (expected_sequence_iff v.last_sequence p.sequence).1 a.continues,
      ==_refl p.sequence,
      (check_kind_iff p.kind p.payload_length p.presentation_time_us v.last_presentation_time_us).1
          a.fits,
      ((flags_iff (flags_of p.key_frame) p.kind p.key_frame).1 (refl, a.stop_plain)).1,
    )

    Accepts-validate_header : validate_header v header ≡ ok p
    unfolding validate_header check_order
    Accepts-validate_header =
        rw (a.running, preamble_ok, (check_binding_iff v.binding header).1 a.bound, order_ok)

-- A header is accepted exactly if `Accepts` describes it: the stream was not stopped, the magic and
-- the version are right, the binding in the header is the validator's, the sequence number is the
-- next one, a Stop is plain and empty, and an access unit has between 1 byte and 1 MiB and a time
-- that does not go back. The result repeats the header's fields.
pub validate_header_iff :
    (v : MediaStreamValidator) (header : Bytes) (p : ValidatedMediaHeader)
    → (validate_header v header ≡ ok p) ↔ Accepts v header p
validate_header_iff v header p =
    (validate_header-Accepts v header p, Accepts-validate_header v header p)

pub Fits-size :
    (k : MediaRecordKind) (size time : ℕ) (last : Option ℕ) → Fits k size time last → size < 2 ^ 32
Fits-size h264_access_unit size time none f = omega arith
Fits-size h264_access_unit size time (some l) f = omega arith
Fits-size stop size time last f = omega arith

check_record-Fits_kind :
    (r : MediaRecord) (last : Option ℕ) (k : MediaRecordKind)
    → r.kind ≡ k
    → (r.kind ≡ stop → r.key_frame ≡ false)
    → Fits r.kind (length r.payload) r.presentation_time_us last
    → check_record r ≡ ok tt
unfolding check_record
check_record-Fits_kind r none h264_access_unit e s f = ground (arith, is_empty-length r.payload)
check_record-Fits_kind r (some l) h264_access_unit e s f = ground (arith, is_empty-length r.payload)
check_record-Fits_kind r last stop e s f = ground (arith, is_empty-length r.payload)

-- The writer's checks pass for a record that the validator would take.
pub check_record-Fits :
    (r : MediaRecord) (last : Option ℕ)
    → (r.kind ≡ stop → r.key_frame ≡ false)
    → Fits r.kind (length r.payload) r.presentation_time_us last
    → check_record r ≡ ok tt
check_record-Fits r last = check_record-Fits_kind r last r.kind refl
