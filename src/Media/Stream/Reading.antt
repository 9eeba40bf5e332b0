-- ===== src/Media/Stream/Reading.antt =====
-- crates/omacam-core/src/media.rs: `read_next`, over a reader that is the list of what its reads
-- will yield: a byte, an interrupted call, or another failure of the operating system; the end of
-- the list is the end of the file. `Read::read_exact` retries after an interruption.
use omalens.Prelude.{
  ℕ, zero, suc, ◌≡◌, refl, Bool, true, false, Option, none, some, List, [], ◌∷◌, Bytes, Result, ok,
  err, if◌then◌else◌,
}
use omalens.Media.Stream.{
  ValidatedMediaHeader, MediaRecord, MediaError, MediaStreamValidator, io, truncated_header,
  truncated_payload, validate_header, finish_record,
}

pub data ReadEvent : Type 0 where
  byte : ℕ → ReadEvent
  interrupted : ReadEvent
  failed : (kind : ℕ) → ReadEvent

abbrev pub Reader : Type 0
Reader = List ReadEvent

pub data ReadError : Type 0 where
  unexpected_eof : ReadError
  other : (kind : ℕ) → ReadError

abbrev pub prepend : ℕ → Result ReadError Bytes × Reader → Result ReadError Bytes × Reader
prepend b (ok bs, r) = (ok (b ∷ bs), r)
prepend b (err e, r) = (err e, r)

unfoldable pub read_exact : ℕ → Reader → Result ReadError Bytes × Reader
read_exact zero r = (ok [], r)
read_exact (suc n) [] = (err unexpected_eof, [])
read_exact (suc n) (byte b ∷ r) = prepend b (read_exact n r)
read_exact (suc n) (interrupted ∷ r) = read_exact (suc n) r
read_exact (suc n) (failed kind ∷ r) = (err (other kind), r)

-- The loop for the first byte; `none` is a clean end.
unfoldable pub read_first : Reader → Result MediaError (Option ℕ) × Reader
read_first [] = (ok none, [])
read_first (byte b ∷ r) = (ok (some b), r)
read_first (interrupted ∷ r) = read_first r
read_first (failed kind ∷ r) = (err (io kind), r)

abbrev pub header_result :
    ℕ → Result ReadError Bytes × Reader → Result MediaError (Option Bytes) × Reader
header_result first (ok rest, r) = (ok (some (first ∷ rest)), r)
header_result first (err unexpected_eof, r) = (err truncated_header, r)
header_result first (err (other kind), r) = (err (io kind), r)

abbrev pub after_first :
    Result MediaError (Option ℕ) × Reader → Result MediaError (Option Bytes) × Reader
after_first (ok none, r) = (ok none, r)
after_first (ok (some first), r) = header_result first (read_exact 103 r)
after_first (err e, r) = (err e, r)

unfoldable pub read_header : Reader → Result MediaError (Option Bytes) × Reader
unfolding read_first
read_header r = after_first (read_first r)

abbrev pub Step : Type 0
Step = MediaStreamValidator × Reader × Result MediaError (Option MediaRecord)

abbrev pub record_result : Reader → MediaStreamValidator × Result MediaError MediaRecord → Step
record_result r (v, ok m) = (v, r, ok (some m))
record_result r (v, err e) = (v, r, err e)

abbrev pub after_payload :
    MediaStreamValidator → ValidatedMediaHeader → Result ReadError Bytes × Reader → Step
after_payload v pending (ok payload, r) = record_result r (finish_record v pending payload)
after_payload v pending (err unexpected_eof, r) = (v, r, err truncated_payload)
after_payload v pending (err (other kind), r) = (v, r, err (io kind))

abbrev pub after_validation :
    MediaStreamValidator → Reader → Result MediaError ValidatedMediaHeader → Step
after_validation v r (ok pending) = after_payload v pending (read_exact pending.payload_length r)
after_validation v r (err e) = (v, r, err e)

abbrev pub after_header : MediaStreamValidator → Result MediaError (Option Bytes) × Reader → Step
after_header v (ok none, r) = (v, r, ok none)
after_header v (ok (some header), r) = after_validation v r (validate_header v header)
after_header v (err e, r) = (v, r, err e)

unfoldable pub read_next : MediaStreamValidator → Reader → Step
read_next v r =
    if v.invalidated then (v, r, err MediaError.invalidated) else after_header v (read_header r)

-- A reader without its interruptions.
abbrev pub settle : Reader → Reader
settle [] = []
settle (byte b ∷ r) = byte b ∷ settle r
settle (interrupted ∷ r) = settle r
settle (failed kind ∷ r) = failed kind ∷ settle r

abbrev pub settle_after {ℓ} : {A : Type ℓ} → A × Reader → A × Reader
settle_after (a, r) = (a, settle r)

abbrev pub settle_step : Step → Step
settle_step (v, r, x) = (v, settle r, x)

read_exact-settle : (n : ℕ) (r : Reader) → read_exact n (settle r) ≡ settle_after (read_exact n r)
unfolding read_exact
read_exact-settle zero r = refl
read_exact-settle (suc n) [] = refl
read_exact-settle (suc n) (byte b ∷ r) =
    rw (read_exact-settle n r) (prepend-settle b (read_exact n r))
  where
    prepend-settle :
        (b : ℕ) (x : Result ReadError Bytes × Reader)
        → prepend b (settle_after x) ≡ settle_after (prepend b x)
    prepend-settle b (ok bs, r) = refl
    prepend-settle b (err e, r) = refl
read_exact-settle (suc n) (interrupted ∷ r) = read_exact-settle (suc n) r
read_exact-settle (suc n) (failed kind ∷ r) = refl

read_first-settle : (r : Reader) → read_first (settle r) ≡ settle_after (read_first r)
unfolding read_first
read_first-settle [] = refl
read_first-settle (byte b ∷ r) = refl
read_first-settle (interrupted ∷ r) = read_first-settle r
read_first-settle (failed kind ∷ r) = refl

after_first-settle :
    (x : Result MediaError (Option ℕ) × Reader)
    → after_first (settle_after x) ≡ settle_after (after_first x)
after_first-settle (ok none, r) = refl
after_first-settle (ok (some b), r) = rw (read_exact-settle 103 r) (go (read_exact 103 r))
  where
    go :
        (x : Result ReadError Bytes × Reader)
        → header_result b (settle_after x) ≡ settle_after (header_result b x)
    go (ok bs, r) = refl
    go (err unexpected_eof, r) = refl
    go (err (other kind), r) = refl
after_first-settle (err e, r) = refl

after_payload-settle :
    (v : MediaStreamValidator) (p : ValidatedMediaHeader) (x : Result ReadError Bytes × Reader)
    → after_payload v p (settle_after x) ≡ settle_step (after_payload v p x)
after_payload-settle v p (ok bs, r) = go (finish_record v p bs)
  where
    go :
        (y : MediaStreamValidator × Result MediaError MediaRecord)
        → record_result (settle r) y ≡ settle_step (record_result r y)
    go (v, ok m) = refl
    go (v, err e) = refl
after_payload-settle v p (err unexpected_eof, r) = refl
after_payload-settle v p (err (other kind), r) = refl

after_header-settle :
    (v : MediaStreamValidator) (x : Result MediaError (Option Bytes) × Reader)
    → after_header v (settle_after x) ≡ settle_step (after_header v x)
after_header-settle v (ok none, r) = refl
after_header-settle v (ok (some header), r) = go (validate_header v header)
  where
    go :
        (y : Result MediaError ValidatedMediaHeader)
        → after_validation v (settle r) y ≡ settle_step (after_validation v r y)
    go (ok p) =
        rw (read_exact-settle p.payload_length r)
          (after_payload-settle v p (read_exact p.payload_length r))
    go (err e) = refl
after_header-settle v (err e, r) = refl

-- Interrupted reads are invisible: without them the same record or error results, with the same
-- validator, and the same input is left but for the interruptions in it.
pub read_next-settle :
    (v : MediaStreamValidator) (r : Reader) → read_next v (settle r) ≡ settle_step (read_next v r)
unfolding read_next read_header
read_next-settle v r = go v.invalidated
  where
    go :
        (b : Bool)
        → (if b
            then (v, settle r, err MediaError.invalidated)
            else after_header v (after_first (read_first (settle r))))
          ≡ settle_step (
              if b
              then (v, r, err MediaError.invalidated)
              else after_header v (after_first (read_first r)))
    go true = refl
    go false =
        rw (read_first-settle r, after_first-settle (read_first r))
          (after_header-settle v (after_first (read_first r)))
