-- ===== src/Output/Forward.antt =====
-- crates/omacam-output/src/service.rs: `forward_media`, the loop of the framed mode. The decoder's input
-- takes a payload or fails, by a test that is given. The loop runs on fuel; each turn that goes on has
-- read a byte at least, so more fuel than the reader has events is enough.
use omalens.Prelude.{
  ℕ, zero, suc, ◌≤◌, ◌<◌, ◌≡◌, refl, Bool, true, false, Option, none, some, List, [], ◌∷◌, Bytes,
  length, Result, ok, err, if◌then◌else◌, arith,
}
use omalens.Media.Stream.{
  MediaError, MediaRecord, MediaRecordKind, h264_access_unit, stop, MediaStreamValidator,
  ValidatedMediaHeader, validate_header, finish_record,
}
use omalens.Media.Stream.Reading.{
  byte, interrupted, failed, Reader, ReadError, unexpected_eof, other, read_exact, prepend,
  read_first, read_header, header_result, after_first, read_next, Step, record_result,
  after_payload, after_validation, after_header,
}

pub data ForwardError : Type 0 where
  unread : MediaError → ForwardError
  unwritten : ForwardError

-- The payloads that were written, and how the loop ended.
abbrev pub Forwarded : Type 0
Forwarded = List Bytes × Result ForwardError (Unit {0})

abbrev pub wrote : Bytes → Option Forwarded → Option Forwarded
wrote payload none = none
wrote payload (some (payloads, end)) = some (payload ∷ payloads, end)

module _ (accepts : Bytes → Bool) where
  -- A turn of the loop; `again` is the rest of it.
  abbrev pub turn : Step → (MediaStreamValidator → Reader → Option Forwarded) → Option Forwarded
  turn (v, r, ok none) again = some ([], ok tt)
  turn (v, r, err e) again = some ([], err (unread e))
  turn (v, r, ok (some m)) again = elim m.kind [
    | stop ↦ some ([], ok tt)
    | h264_access_unit ↦ elim (accepts m.payload) [
      | true ↦ wrote m.payload (again v r)
      | false ↦ some ([], err unwritten)
    ]
  ]

  unfoldable pub forward_media : (fuel : ℕ) → MediaStreamValidator → Reader → Option Forwarded
  forward_media zero v r = none
  forward_media (suc fuel) v r = turn (read_next v r) (forward_media fuel)

read_exact_shrinks : (n : ℕ) (r : Reader) → length (read_exact n r).1 ≤ length r
unfolding read_exact
read_exact_shrinks zero r = omega arith
read_exact_shrinks (suc n) [] = omega arith
read_exact_shrinks (suc n) (byte b ∷ r) = prepended (read_exact n r) (read_exact_shrinks n r)
  where
    prepended :
        (x : Result ReadError Bytes × Reader)
        → length x.1 ≤ length r
        → length (prepend b x).1 ≤ suc (length r)
    prepended (ok bs, q) h = omega arith
    prepended (err e, q) h = omega arith
read_exact_shrinks (suc n) (interrupted ∷ r) = omega (arith, read_exact_shrinks (suc n) r)
read_exact_shrinks (suc n) (failed kind ∷ r) = omega arith

-- What is left is shorter, unless nothing was read or there was an error.
abbrev Shrinks : ℕ → {A : Type 0} → Result MediaError (Option A) × Reader → Type 0
Shrinks n (ok (some a), r) = length r < n
Shrinks n _ = Unit {0}

read_first-Shrinks : (r : Reader) (n : ℕ) → length r ≤ n → Shrinks n (read_first r)
unfolding read_first
read_first-Shrinks [] n h = tt
read_first-Shrinks (byte b ∷ r) n h = omega arith
read_first-Shrinks (interrupted ∷ r) n h = read_first-Shrinks r n (omega arith)
read_first-Shrinks (failed kind ∷ r) n h = tt

after_first-Shrinks :
    (x : Result MediaError (Option ℕ) × Reader) (n : ℕ) → Shrinks n x → Shrinks n (after_first x)
after_first-Shrinks (ok none, r) n h = tt
after_first-Shrinks (ok (some b), r) n h = headed (read_exact 103 r) (read_exact_shrinks 103 r)
  where
    headed :
        (x : Result ReadError Bytes × Reader)
        → length x.1 ≤ length r
        → Shrinks n (header_result b x)
    headed (ok bs, q) k = omega arith
    headed (err unexpected_eof, q) k = tt
    headed (err (other kind), q) k = tt
after_first-Shrinks (err e, r) n h = tt

abbrev StepShrinks : ℕ → Step → Type 0
StepShrinks n (v, r, ok (some m)) = length r < n
StepShrinks n _ = Unit {0}

after_payload-StepShrinks :
    (v : MediaStreamValidator) (p : ValidatedMediaHeader) (x : Result ReadError Bytes × Reader)
    (n : ℕ)
    → length x.1 < n
    → StepShrinks n (after_payload v p x)
after_payload-StepShrinks v p (ok bs, r) n h = recorded (finish_record v p bs)
  where
    recorded :
        (x : MediaStreamValidator × Result MediaError MediaRecord)
        → StepShrinks n (record_result r x)
    recorded (w, ok m) = h
    recorded (w, err e) = tt
after_payload-StepShrinks v p (err unexpected_eof, r) n h = tt
after_payload-StepShrinks v p (err (other kind), r) n h = tt

after_header-StepShrinks :
    (v : MediaStreamValidator) (x : Result MediaError (Option Bytes) × Reader) (n : ℕ)
    → Shrinks n x
    → StepShrinks n (after_header v x)
after_header-StepShrinks v (ok none, r) n h = tt
after_header-StepShrinks v (ok (some header), r) n h = validated (validate_header v header)
  where
    validated :
        (x : Result MediaError ValidatedMediaHeader) → StepShrinks n (after_validation v r x)
    validated (ok p) =
        let less : length (read_exact p.payload_length r).1 < n =
          omega (arith, read_exact_shrinks p.payload_length r) in
        after_payload-StepShrinks v p (read_exact p.payload_length r) n less
    validated (err e) = tt
after_header-StepShrinks v (err e, r) n h = tt

read_next-StepShrinks :
    (v : MediaStreamValidator) (r : Reader) → StepShrinks (length r) (read_next v r)
unfolding read_next read_header
read_next-StepShrinks v r = guarded v.invalidated
  where
    guarded :
        (b : Bool)
        → StepShrinks (length r) (
            if b
            then (v, r, err MediaError.invalidated)
            else after_header v (after_first (read_first r)))
    guarded true = tt
    guarded false = after_header-StepShrinks v (after_first (read_first r)) (length r) (
        after_first-Shrinks (read_first r) (length r)
          (read_first-Shrinks r (length r) (omega arith)))

abbrev IsDone : Option Forwarded → Type 0
IsDone x = (result : Forwarded) × (x ≡ some result)

module _ (accepts : Bytes → Bool) where
  turn_ends :
      (s : Step) (n : ℕ) (again : MediaStreamValidator → Reader → Option Forwarded)
      → StepShrinks n s
      → ((v : MediaStreamValidator) (r : Reader) → length r < n → IsDone (again v r))
      → IsDone (turn accepts s again)
  turn_ends (v, r, ok none) n again h k = (([], ok tt), refl)
  turn_ends (v, r, err e) n again h k = (([], err (unread e)), refl)
  turn_ends (v, r, ok (some m)) n again h k = ended m.kind (accepts m.payload) (again v r) (k v r h)
    where
      ended :
          (kind : MediaRecordKind) (b : Bool) (rest : Option Forwarded)
          → IsDone rest
          → IsDone (elim kind as (λ x. Option Forwarded) [
            | stop ↦ some ([], ok tt)
            | h264_access_unit ↦ elim b [
              | true ↦ wrote m.payload rest
              | false ↦ some ([], err unwritten)
            ]
          ])
      ended stop b rest d = (([], ok tt), refl)
      ended h264_access_unit false rest d = (([], err unwritten), refl)
      ended h264_access_unit true none d = absurd (cc (d.1))
      ended h264_access_unit true (some (payloads, end)) d = ((m.payload ∷ payloads, end), refl)

  -- On every input, whatever the writes do, the loop ends: with more fuel than the reader has events it
  -- returns the payloads written and how it ended.
  pub forward_media_ends :
      (fuel : ℕ) (v : MediaStreamValidator) (r : Reader)
      → length r < fuel
      → (result : Forwarded) × (forward_media accepts fuel v r ≡ some result)
  unfolding forward_media
  forward_media_ends zero v r h = absurd (omega arith)
  forward_media_ends (suc fuel) v r h =
      turn_ends (read_next v r) (length r) (forward_media accepts fuel) (read_next-StepShrinks v r)
        (λ w q k. forward_media_ends fuel w q (omega arith))
