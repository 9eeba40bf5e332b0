-- ===== src/Control/Proof.antt =====
-- crates/omacam-core/src/control.rs: which proofs are accepted, and what the signature covers.
use Prim.Native.Nat.{bit_and}
use omalens.Prelude.{
  >>=-ok, ℕ, ◌-◌, ◌<◌, ◌≤◌, ◌^◌, ◌≡◌, refl, sym, ap, ◌∙◌, ◌↔◌, true, false, not, some, List, [],
  ◌∷◌, Bytes, length, ok, passed, >>=-eq-ok, to_be_bytes, from_be_bytes, from_be_bytes-to_be_bytes,
  arith, bytes_eq, bytes_eq_iff, bytes_eq_refl, not-bytes_eq_iff, leb, is_empty-length,
}
use omalens.Platform.{Platform}
use omalens.Transcript.{append_fields, append_fields-eq-ok, frames-injective, append_cancel}
use omalens.Control.{
  settle, ControlHello, ControlProof, AuthenticatedControl, ControlSession, awaiting_proof,
  authenticated, invalid_field_length, proof_type, proof_prefix, complement, decode_exact,
  decode_bounded, proof_transcript, check_message, check_verified, check_signature, verify_proof,
  authenticate,
}

-- What the phone signs, field by field.
abbrev pub signed_fields :
    ControlHello → (version features : ℕ) → (digest nonce : Bytes) → List Bytes
signed_fields hello version features digest nonce =
    (version ∷ [])
    ∷ to_be_bytes 4 features
    ∷ hello.session_id
    ∷ hello.challenge
    ∷ hello.certificate_sha256
    ∷ digest
    ∷ nonce
    ∷ []

module _ (platform : Platform) where
  transcript-append_fields :
      (hello : ControlHello) (version features : ℕ) (digest nonce : Bytes)
      → proof_transcript platform hello version features digest nonce
        ≡ append_fields invalid_field_length proof_prefix
            (signed_fields hello version features digest nonce)
  unfolding proof_transcript append_fields
  transcript-append_fields hello version features digest nonce = simp (>>=-ok)

  -- The bytes that are signed determine all that goes into them: two transcripts agree only if
  -- they are for the same version, features (of 32 bits), session, challenge, certificate, phone key
  -- and nonce, so no signature can be moved to another session or desktop.
  pub proof_transcript-injective :
      (h k : ControlHello) (v w f g : ℕ) (d e n m out : Bytes)
      → f < 2 ^ 32
      → g < 2 ^ 32
      → proof_transcript platform h v f d n ≡ ok out
      → proof_transcript platform k w g e m ≡ ok out
      → (v ≡ w)
        × (f ≡ g)
        × (h.session_id ≡ k.session_id)
        × (h.challenge ≡ k.challenge)
        × (h.certificate_sha256 ≡ k.certificate_sha256)
        × (d ≡ e)
        × (n ≡ m)
  proof_transcript-injective h k v w f g d e n m out ff gg p q =
      let (one, short) =
        append_fields-eq-ok invalid_field_length (signed_fields h v f d n) proof_prefix out
          (sym (transcript-append_fields h v f d n) ∙ p) in
      let (two, brief) =
        append_fields-eq-ok invalid_field_length (signed_fields k w g e m) proof_prefix out
          (sym (transcript-append_fields k w g e m) ∙ q) in
      let same =
        frames-injective (signed_fields h v f d n) (signed_fields k w g e m) refl short brief
          (append_cancel proof_prefix _ _ (sym one ∙ two)) in
      let features : to_be_bytes 4 f ≡ to_be_bytes 4 g = cc in
      (
        cc,
        sym (from_be_bytes-to_be_bytes 4 f ff)
            ∙ (ap from_be_bytes features ∙ from_be_bytes-to_be_bytes 4 g gg),
        cc,
        cc,
        cc,
        cc,
        cc,
      )

  -- What is checked of a proof, and what is answered.
  pub record Proves (s : ControlSession) (proof : ControlProof) (key_der : Bytes)
      (now_monotonic_ms : ℕ) (a : AuthenticatedControl) : Type 0 where
    pub awaiting : s.state ≡ awaiting_proof
    pub in_time : now_monotonic_ms - s.created_monotonic_ms < 10_000
    pub message_type : proof.message_type ≡ proof_type
    pub version : proof.version ≡ 1
    pub offered : (s.hello.minimum_version ≤ 1) × (1 ≤ s.hello.maximum_version)
    pub required : bit_and s.hello.required_features (complement proof.features) ≡ 0
    pub session : proof.session_id ≡ s.hello.session_id
    pub key_size : (0 < length key_der) × (length key_der ≤ 256)
    pub digest_size : length (platform.sha256 key_der) ≡ 32
    pub identity :
        platform.base64_decode proof.phone_public_key_sha256 ≡ some (platform.sha256 key_der)
    pub nonce : Bytes
    pub nonce_decoded : platform.base64_decode proof.phone_nonce ≡ some nonce
    pub nonce_size : length nonce ≡ 32
    pub signature : Bytes
    pub signature_decoded : platform.base64_decode proof.signature_der ≡ some signature
    pub signature_size : (1 ≤ length signature) × (length signature ≤ 96)
    pub is_key : platform.is_public_key_der key_der ≡ true
    pub is_signature : platform.is_signature_der signature ≡ true
    pub signed : Bytes
    pub transcript :
        proof_transcript platform s.hello proof.version proof.features
          (platform.sha256 key_der)
          nonce
        ≡ ok signed
    pub verified : platform.verifies key_der signed signature ≡ true
    pub answer : a ≡ record {
      session_id = s.hello.session_id;
      phone_key_sha256 = platform.sha256 key_der;
      version = proof.version;
      features = bit_and proof.features s.hello.features;
    }

  decode_exact-eq-ok :
      (encoded : Bytes) (n : ℕ) (out : Bytes)
      → (decode_exact platform encoded n ≡ ok out)
        ↔ (platform.base64_decode encoded ≡ some out) × (length out ≡ n)
  unfolding decode_exact
  decode_exact-eq-ok encoded n out = (λ h. ground arith, λ h. ground arith)

  decode_bounded-eq-ok :
      (encoded : Bytes) (m n : ℕ) (out : Bytes)
      → (decode_bounded platform encoded m n ≡ ok out)
        ↔ (platform.base64_decode encoded ≡ some out) × ((m ≤ length out) × (length out ≤ n))
  unfolding decode_bounded
  decode_bounded-eq-ok encoded m n out = (λ h. ground arith, λ h. ground arith)

  module _ (s : ControlSession) (proof : ControlProof) (key_der : Bytes) (now : ℕ)
      (a : AuthenticatedControl) where
    accepted_state :
        authenticate platform s proof key_der now ≡ (record s { state = authenticated }, ok a)
        → (s.state ≡ awaiting_proof)
          × (now - s.created_monotonic_ms < 10_000)
          × (verify_proof platform s.hello proof key_der ≡ ok a)
    unfolding authenticate settle
    accepted_state h = ground arith

    message_accepted :
        check_message platform s.hello proof key_der ≡ ok tt
        → (proof.message_type ≡ proof_type)
          × (proof.version ≡ 1)
          × ((s.hello.minimum_version ≤ 1) × (1 ≤ s.hello.maximum_version))
          × (bit_and s.hello.required_features (complement proof.features) ≡ 0)
          × (proof.session_id ≡ s.hello.session_id)
          × ((0 < length key_der) × (length key_der ≤ 256))
    unfolding check_message
    message_accepted h = ground (
      arith,
      bytes_eq_iff proof.message_type proof_type,
      bytes_eq_iff proof.session_id s.hello.session_id,
      is_empty-length key_der,
    )

    verified_accepted :
        (digest nonce signature : Bytes)
        → check_verified platform s.hello proof key_der digest nonce signature ≡ ok a
        → (signed : Bytes) × (platform.is_public_key_der key_der ≡ true)
          × (platform.is_signature_der signature ≡ true)
          × (proof_transcript platform s.hello proof.version proof.features digest nonce
              ≡ ok signed)
          × (platform.verifies key_der signed signature ≡ true)
          × (a ≡ record {
            session_id = s.hello.session_id;
            phone_key_sha256 = platform.sha256 key_der;
            version = proof.version;
            features = bit_and proof.features s.hello.features;
          })
    unfolding check_verified
    verified_accepted digest nonce signature h =
        let (key, h₁) = passed (not (platform.is_public_key_der key_der)) _ _ h in
        let (sig, h₂) = passed (not (platform.is_signature_der signature)) _ _ h₁ in
        let (signed, t, h₃) =
          >>=-eq-ok (proof_transcript platform s.hello proof.version proof.features digest nonce) _
            h₂ in
        let (v, h₄) = passed (not (platform.verifies key_der signed signature)) _ _ h₃ in
        (signed, ground arith, ground arith, t, ground arith, ground arith)

    signature_accepted :
        check_signature platform s.hello proof key_der ≡ ok a
        → (digest nonce signature : Bytes) × (decode_exact platform proof.phone_public_key_sha256 32
            ≡ ok digest)
          × (platform.sha256 key_der ≡ digest)
          × (decode_exact platform proof.phone_nonce 32 ≡ ok nonce)
          × (decode_bounded platform proof.signature_der 1 96 ≡ ok signature)
          × (check_verified platform s.hello proof key_der digest nonce signature ≡ ok a)
    unfolding check_signature
    signature_accepted h =
        let (digest, d, h₁) =
          >>=-eq-ok (decode_exact platform proof.phone_public_key_sha256 32) _ h in
        let (same, h₂) = passed (not (bytes_eq (platform.sha256 key_der) digest)) _ _ h₁ in
        let (nonce, n, h₃) = >>=-eq-ok (decode_exact platform proof.phone_nonce 32) _ h₂ in
        let (signature, sig, h₄) =
          >>=-eq-ok (decode_bounded platform proof.signature_der 1 96) _ h₃ in
        (
          digest,
          nonce,
          signature,
          d,
          (not-bytes_eq_iff (platform.sha256 key_der) digest).0 same,
          n,
          sig,
          h₄,
        )

    authenticate-Proves :
        authenticate platform s proof key_der now ≡ (record s { state = authenticated }, ok a)
        → Proves s proof key_der now a
    unfolding verify_proof
    authenticate-Proves h =
        let (awaiting, in_time, checked) = accepted_state h in
        let (u, message, signature_part) =
          >>=-eq-ok (check_message platform s.hello proof key_der) _ checked in
        let (type, version, offered, required, session, size) = message_accepted message in
        let (digest, nonce, signature, d, same, n, sig, last) = signature_accepted signature_part in
        let (signed, key, is_sig, t, v, answer) = verified_accepted digest nonce signature last in
        let (identity, dlen) = (decode_exact-eq-ok proof.phone_public_key_sha256 32 digest).0 d in
        let (nonce_decoded, nlen) = (decode_exact-eq-ok proof.phone_nonce 32 nonce).0 n in
        let (sig_decoded, slen) = (decode_bounded-eq-ok proof.signature_der 1 96 signature).0 sig in
        record {
          awaiting = awaiting;
          in_time = in_time;
          message_type = type;
          version = version;
          offered = offered;
          required = required;
          session = session;
          key_size = size;
          digest_size = rw same dlen;
          identity = rw same identity;
          nonce = nonce;
          nonce_decoded = nonce_decoded;
          nonce_size = nlen;
          signature = signature;
          signature_decoded = sig_decoded;
          signature_size = slen;
          is_key = key;
          is_signature = is_sig;
          signed = signed;
          transcript = rw same t;
          verified = v;
          answer = answer;
        }

    module _ (p : Proves s proof key_der now a) where
      message_ok : check_message platform s.hello proof key_der ≡ ok tt
      unfolding check_message
      message_ok = ground (
        arith,
        bytes_eq_iff proof.message_type proof_type,
        bytes_eq_iff proof.session_id s.hello.session_id,
        is_empty-length key_der,
      )

      signature_ok : check_signature platform s.hello proof key_der ≡ ok a
      unfolding check_signature check_verified
      signature_ok = rw (
        (decode_exact-eq-ok proof.phone_public_key_sha256 32 (platform.sha256 key_der)).1
            (p.identity, p.digest_size),
        bytes_eq_refl (platform.sha256 key_der),
        (decode_exact-eq-ok proof.phone_nonce 32 p.nonce).1 (p.nonce_decoded, p.nonce_size),
        (decode_bounded-eq-ok proof.signature_der 1 96 p.signature).1
            (p.signature_decoded, p.signature_size),
        p.is_key,
        p.is_signature,
        p.transcript,
        p.verified,
        p.answer,
      )

      Proves-authenticate :
          authenticate platform s proof key_der now ≡ (record s { state = authenticated }, ok a)
      unfolding authenticate verify_proof settle
      Proves-authenticate =
          let late : leb 10_000 (now - s.created_monotonic_ms) ≡ false =
            ground (arith, p.in_time) in
          rw (p.awaiting, late, message_ok, signature_ok)

  -- A proof is accepted, with this answer, exactly if `Proves` holds: the session still awaits one
  -- and is less than ten seconds old, the message is of this type, version and session, the key
  -- is the one whose digest the proof names, and its signature over the transcript of this
  -- session verifies. The session then counts as authenticated and is otherwise unchanged.
  pub authenticate_iff :
      (s : ControlSession) (proof : ControlProof) (key_der : Bytes) (now : ℕ)
      (a : AuthenticatedControl)
      → (authenticate platform s proof key_der now ≡ (record s { state = authenticated }, ok a))
        ↔ Proves s proof key_der now a
  authenticate_iff s proof key_der now a =
      (authenticate-Proves s proof key_der now a, Proves-authenticate s proof key_der now a)
