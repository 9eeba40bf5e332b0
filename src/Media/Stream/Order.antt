-- ===== src/Media/Stream/Order.antt =====
-- crates/omacam-core/src/media.rs: the records that a stream yields, one call after another.
use mathlib.Core.Path.{subst}
use omalens.Prelude.{
  ℕ, zero, suc, ◌≡◌, refl, ap, sym, ◌∙◌, Bool, true, false, not, Option, none, some, List, [], ◌∷◌,
  Bytes, length, Result, ok, err, if◌then◌else◌, not-==_iff, ◌==◌, Bool-cases, inl, inr,
}
use omalens.Media.Stream.{
  invalid_sequence, truncated_payload, MediaRecordKind, h264_access_unit, stop, MediaRecord,
  ValidatedMediaHeader, MediaError, MediaStreamValidator, validate_header, finish_record, committed,
  record_of, following_sequence,
}
use omalens.Media.Stream.Header.{Fits, Continues, Accepts, validate_header_iff}
use omalens.Media.Stream.Reading.{
  Reader, Step, ReadError, unexpected_eof, other, read_exact, read_header, read_next, after_header,
  after_payload, after_validation, record_result,
}

-- The record continues the stream of the validator.
pub record Follows (v : MediaStreamValidator) (m : MediaRecord) : Type 0 where
  pub running : v.invalidated ≡ false
  pub continues : Continues v.last_sequence m.sequence
  pub fits : Fits m.kind (length m.payload) m.presentation_time_us v.last_presentation_time_us
  pub stop_plain : m.kind ≡ stop → m.key_frame ≡ false

-- What a call does: it takes a record that follows and commits it, or it changes nothing.
abbrev pub Effect : MediaStreamValidator → Step → Type 0
Effect v (v', r, ok (some m)) =
    Follows v m × (v' ≡ committed v m.kind m.sequence m.presentation_time_us)
Effect v (v', r, ok none) = v' ≡ v
Effect v (v', r, err e) = v' ≡ v

finish_record-Effect :
    (v : MediaStreamValidator) (header : Bytes) (p : ValidatedMediaHeader) (payload : Bytes)
    (r : Reader)
    → Accepts v header p
    → Effect v (record_result r (finish_record v p payload))
unfolding finish_record
finish_record-Effect v header p payload r a = simp a.running (
    go (not (length payload == p.payload_length)) refl
      (not (p.sequence == following_sequence v.last_sequence)))
  where
    go :
        (short : Bool)
        → not (length payload == p.payload_length) ≡ short
        → (wrong : Bool)
        → Effect v (
            record_result r (
              if short
              then (v, err truncated_payload)
              else if wrong
              then (v, err invalid_sequence)
              else (
                committed v p.kind p.sequence p.presentation_time_us,
                ok (record_of p payload),
              )))
    go true e wrong = refl
    go false e true = refl
    go false e false = (
      record {
        running = a.running;
        continues = a.continues;
        fits = rw ((not-==_iff (length payload) p.payload_length).0 e) a.fits;
        stop_plain = a.stop_plain;
      },
      refl,
    )

read_next-Effect : (v : MediaStreamValidator) (r : Reader) → Effect v (read_next v r)
unfolding read_next
read_next-Effect v r = elim (Bool-cases v.invalidated) [
  | inl stopped ↦ simp stopped refl
  | inr running ↦ simp running (header (read_header r))
]
  where
    payload :
        (bytes : Bytes) (p : ValidatedMediaHeader) (x : Result ReadError Bytes × Reader)
        → Accepts v bytes p
        → Effect v (after_payload v p x)
    payload bytes p (ok body, r) a = finish_record-Effect v bytes p body r a
    payload bytes p (err unexpected_eof, r) a = refl
    payload bytes p (err (other kind), r) a = refl

    validation :
        (bytes : Bytes) (r : Reader) (x : Result MediaError ValidatedMediaHeader)
        → validate_header v bytes ≡ x
        → Effect v (after_validation v r x)
    validation bytes r (ok p) e =
        payload bytes p (read_exact p.payload_length r) ((validate_header_iff v bytes p).0 e)
    validation bytes r (err why) e = refl

    header : (x : Result MediaError (Option Bytes) × Reader) → Effect v (after_header v x)
    header (ok none, r) = refl
    header (ok (some bytes), r) = validation bytes r (validate_header v bytes) refl
    header (err e, r) = refl

-- Calls of `read_next`, one after another, on what is left of the input; the records that they
-- yield.
abbrev after_step : (MediaStreamValidator → Reader → List MediaRecord) → Step → List MediaRecord
after_step next (v, r, ok none) = next v r
after_step next (v, r, ok (some m)) = m ∷ next v r
after_step next (v, r, err e) = next v r

unfoldable pub records : ℕ → MediaStreamValidator → Reader → List MediaRecord
records zero v r = []
records (suc n) v r = after_step (records n) (read_next v r)

-- A stream in order behind a last sequence number and a last time: the sequence numbers go up by one,
-- each record is within its bounds, and nothing follows a Stop.
abbrev pub InOrder : (last time : Option ℕ) → List MediaRecord → Type 0
InOrder last time [] = Unit {0}
InOrder last time (m ∷ ms) =
    Continues last m.sequence
    × Fits m.kind (length m.payload) m.presentation_time_us time
    × (m.kind ≡ stop → m.key_frame ≡ false)
    × (m.kind ≡ stop → ms ≡ [])
    × (m.kind ≡ h264_access_unit → InOrder (some m.sequence) (some m.presentation_time_us) ms)

-- A validator that is invalidated yields nothing.
records_invalidated :
    (n : ℕ) (v : MediaStreamValidator) (r : Reader) → v.invalidated ≡ true → records n v r ≡ []
unfolding records read_next
records_invalidated zero v r e = refl
records_invalidated (suc n) v r e = simp e (records_invalidated n v r e)

abbrev Ordered : MediaStreamValidator → List MediaRecord → Type 0
Ordered v ms = InOrder v.last_sequence v.last_presentation_time_us ms

taken-Ordered :
    (n : ℕ)
    → ((v : MediaStreamValidator) (r : Reader) → Ordered v (records n v r))
    → (v : MediaStreamValidator) (r : Reader) (m : MediaRecord) (k : MediaRecordKind) → m.kind ≡ k
    → Follows v m
    → Ordered v (m ∷ records n (committed v k m.sequence m.presentation_time_us) r)
taken-Ordered n ih v r m h264_access_unit e f = (
  f.continues,
  f.fits,
  f.stop_plain,
  λ s. cc,
  λ _. ih (committed v h264_access_unit m.sequence m.presentation_time_us) r,
)
taken-Ordered n ih v r m stop e f = (
  f.continues,
  f.fits,
  f.stop_plain,
  λ _. records_invalidated n (committed v stop m.sequence m.presentation_time_us) r refl,
  λ s. cc,
)

after_step-Ordered :
    (n : ℕ)
    → ((v : MediaStreamValidator) (r : Reader) → Ordered v (records n v r))
    → (v : MediaStreamValidator) (s : Step) → Effect v s
    → Ordered v (after_step (records n) s)
after_step-Ordered n ih v (v', r, ok none) e = subst (λ u. Ordered u (records n v' r)) e (ih v' r)
after_step-Ordered n ih v (v', r, ok (some m)) (f, e) =
    subst (λ u. Ordered v (m ∷ records n u r)) (sym e) (taken-Ordered n ih v r m m.kind refl f)
after_step-Ordered n ih v (v', r, err why) e = subst (λ u. Ordered u (records n v' r)) e (ih v' r)

-- However often `read_next` is called on whatever input, the records that it yields form a stream
-- in order: the sequence numbers go up by one from where the validator stands, times do not go
-- back, sizes are within their bounds, and nothing follows a Stop.
pub records-InOrder :
    (n : ℕ) (v : MediaStreamValidator) (r : Reader)
    → InOrder v.last_sequence v.last_presentation_time_us (records n v r)
unfolding records
records-InOrder zero v r = tt
records-InOrder (suc n) v r =
    after_step-Ordered n (records-InOrder n) v (read_next v r) (read_next-Effect v r)

-- Once a call has yielded a Stop record, every later call is refused as invalidated, whatever it is
-- given, and changes nothing: reading, validating a header, and finishing a record.
pub read_next-stop :
    (v v' : MediaStreamValidator) (r r' : Reader) (m : MediaRecord)
    → read_next v r ≡ (v', r', ok (some m))
    → m.kind ≡ stop
    → ((later : Reader) → read_next v' later ≡ (v', later, err MediaError.invalidated))
      × ((header : Bytes) → validate_header v' header ≡ err MediaError.invalidated)
      × ((p : ValidatedMediaHeader) (payload : Bytes)
          → finish_record v' p payload ≡ (v', err MediaError.invalidated))
unfolding read_next validate_header finish_record
read_next-stop v v' r r' m e k =
    let (f, changed) = subst (Effect v) e (read_next-Effect v r) in
    let stopped : v'.invalidated ≡ true =
      ap (λ u. u.invalidated) changed ∙ committed_stop m.kind k in
    (λ later. simp stopped, λ header. simp stopped, λ p payload. simp stopped)
  where
    committed_stop :
        (kind : MediaRecordKind)
        → kind ≡ stop
        → (committed v kind m.sequence m.presentation_time_us).invalidated ≡ true
    committed_stop h264_access_unit e = cc
    committed_stop stop e = refl
