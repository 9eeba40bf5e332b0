-- ===== src/Media/Fields.antt =====
-- crates/omacam-core/src/media.rs: the binding in a header, written and read.
use omalens.Prelude.{
  length-append, AreBytes-drop, drop-get_or, AreBytes-take, ℕ, zero, suc, ◌+◌, ◌≤◌, ◌<◌, ◌≡◌, ap,
  sym, ◌∙◌, List, [], ◌∷◌, ◌++◌, arith, length, take, drop, take-append, drop-append, Bytes,
  AreBytes, from_be_bytes, to_be_bytes, length-to_be_bytes, from_be_bytes-to_be_bytes,
  to_be_bytes-from_be_bytes, take-append-drop, length-take, length-drop, from_be_bytes-lt,
}
use omalens.Media.Wire.{MediaBinding, IsBinding, binding_bytes, slice, byte_at, read_binding}

-- Cutting in two steps.
pub drop-add {ℓ} : {A : Type ℓ} (m n : ℕ) (xs : List A) → drop (m + n) xs ≡ drop n (drop m xs)
drop-add zero n xs = let e : 0 + n ≡ n = omega arith in rw e
drop-add (suc m) zero [] = let e : suc m + 0 ≡ suc m = omega arith in rw e
drop-add (suc m) (suc n) [] = let e : suc m + suc n ≡ suc (m + suc n) = omega arith in rw e
drop-add (suc m) n (x ∷ xs) =
    let e : suc m + n ≡ suc (m + n) = omega arith in rw e (drop-add m n xs)

module _ (b : MediaBinding) (rest header : Bytes) (v : IsBinding b)
    (at : drop 12 header ≡ binding_bytes b rest) where
  after_peer :
      drop 44 header
      ≡ b.control_connection_id ++ (b.media_session_id ++ (to_be_bytes 8 b.generation ++ rest))
  after_peer =
      drop-add 12 32 header ∙ (ap (drop 32) at ∙ drop-append 32 b.peer_identity _ v.peer_length)

  after_connection : drop 60 header ≡ b.media_session_id ++ (to_be_bytes 8 b.generation ++ rest)
  after_connection =
      drop-add 44 16 header
      ∙ (ap (drop 16) after_peer ∙ drop-append 16 b.control_connection_id _ v.connection_length)

  after_session : drop 76 header ≡ to_be_bytes 8 b.generation ++ rest
  after_session =
      drop-add 60 16 header
      ∙ (ap (drop 16) after_connection ∙ drop-append 16 b.media_session_id _ v.session_length)

  pub drop-binding_bytes : drop 84 header ≡ rest
  drop-binding_bytes =
      drop-add 76 8 header
      ∙ (ap (drop 8) after_session
          ∙ drop-append 8 (to_be_bytes 8 b.generation) rest (length-to_be_bytes 8 b.generation))

  -- A header with a binding at byte 12 is read back as that binding.
  pub read_binding-binding_bytes : read_binding header ≡ b
  unfolding read_binding slice
  read_binding-binding_bytes = λ i. record {
    peer_identity = (ap (take 32) at ∙ take-append 32 b.peer_identity _ v.peer_length) i;
    control_connection_id =
        (ap (take 16) after_peer ∙ take-append 16 b.control_connection_id _ v.connection_length) i;
    media_session_id =
        (ap (take 16) after_connection ∙ take-append 16 b.media_session_id _ v.session_length) i;
    generation =
        (ap (λ bs. from_be_bytes (take 8 bs)) after_session
            ∙ (ap from_be_bytes (
                  take-append 8 (to_be_bytes 8 b.generation) rest
                    (length-to_be_bytes 8 b.generation))
                ∙ from_be_bytes-to_be_bytes 8 b.generation v.generation_fits))
          i;
  }

module _ (header : Bytes) (bytes : AreBytes header) (long : 84 ≤ length header) where
  cut : (i n : ℕ) → drop i header ≡ take n (drop i header) ++ drop (i + n) header
  cut i n = rw (drop-add i n header) (sym (take-append-drop n (drop i header)))

  slice_length : (i n : ℕ) → i + n ≤ 84 → length (take n (drop i header)) ≡ n
  slice_length i n h = omega (arith, length-take n (drop i header), length-drop i header)

  slice_bytes : (i n : ℕ) → AreBytes (take n (drop i header))
  slice_bytes i n = AreBytes-take n (drop i header) (AreBytes-drop i header bytes)

  generation_bytes : to_be_bytes 8 (read_binding header).generation ≡ slice 76 84 header
  unfolding read_binding slice
  generation_bytes =
      rw (slice_length 76 8 (omega arith)) at
        (to_be_bytes-from_be_bytes (slice 76 84 header) (slice_bytes 76 8))

  -- What is read as a binding stands in the header as that binding is written.
  pub binding_bytes-read_binding :
      drop 12 header ≡ binding_bytes (read_binding header) (drop 84 header)
  unfolding read_binding slice
  binding_bytes-read_binding = rw generation_bytes (
      cut 12 32
      ∙ ap (◌++◌ (slice 12 44 header)) (
          cut 44 16
          ∙ ap (◌++◌ (slice 44 60 header)) (cut 60 16 ∙ ap (◌++◌ (slice 60 76 header)) (cut 76 8))))

  pub read_binding-IsBinding : IsBinding (read_binding header)
  unfolding read_binding slice
  read_binding-IsBinding = record {
    peer_length = slice_length 12 32 (omega arith);
    connection_length = slice_length 44 16 (omega arith);
    session_length = slice_length 60 16 (omega arith);
    generation_fits =
        rw (slice_length 76 8 (omega arith)) at
          (from_be_bytes-lt (slice 76 84 header) (slice_bytes 76 8));
    peer_bytes = slice_bytes 12 32;
    connection_bytes = slice_bytes 44 16;
    session_bytes = slice_bytes 60 16;
  }

  byte_cons : (i : ℕ) → i < 84 → drop i header ≡ byte_at header i ∷ drop (suc i) header
  unfolding byte_at
  byte_cons i h = drop-get_or i header 0 (omega arith)

  -- The first twelve bytes one by one.
  pub header_start :
      header
      ≡ slice 0 8 header
        ++ byte_at header 8
          ∷ byte_at header 9
          ∷ byte_at header 10
          ∷ byte_at header 11
          ∷ drop 12 header
  unfolding slice
  header_start =
      cut 0 8
      ∙ ap (◌++◌ (slice 0 8 header)) (
          byte_cons 8 (omega arith)
          ∙ ap (◌∷◌ (byte_at header 8)) (
              byte_cons 9 (omega arith)
              ∙ ap (◌∷◌ (byte_at header 9)) (
                  byte_cons 10 (omega arith)
                  ∙ ap (◌∷◌ (byte_at header 10)) (byte_cons 11 (omega arith)))))

pub length-binding_bytes :
    (b : MediaBinding) (rest : Bytes)
    → IsBinding b
    → length (binding_bytes b rest) ≡ 72 + length rest
length-binding_bytes b rest v = omega (
  arith,
  v.peer_length,
  v.connection_length,
  v.session_length,
  length-append b.peer_identity
      (b.control_connection_id ++ (b.media_session_id ++ (to_be_bytes 8 b.generation ++ rest))),
  length-append b.control_connection_id
      (b.media_session_id ++ (to_be_bytes 8 b.generation ++ rest)),
  length-append b.media_session_id (to_be_bytes 8 b.generation ++ rest),
  length-append (to_be_bytes 8 b.generation) rest,
  length-to_be_bytes 8 b.generation,
)
