-- ===== src/Pairing/Validity.antt =====
-- crates/omacam-core/src/pairing.rs: the invitations that a phone accepts, and its window of time.
use omalens.Prelude.{
  ℕ, ◌+◌, ◌≤◌, ◌<◌, ◌≡◌, ◌↔◌, false, some, Bytes, length, is_empty, ok, arith, ltb, ==_refl, passed,
  >>=-eq-ok, u64_mod, u64_max, min, map_err,
}
use omalens.Endpoint.{SocketAddr}
use omalens.Platform.{Platform, IsPlatform}
use omalens.Pairing.Invitation.{
  PairingInvitation, Json, validate_endpoint, validate_name, decode_exact, create, validate, parse,
  expose_qr_payload, out_of_time, invalid_desktop_name,
}

-- The window of time in which an invitation is taken: up to 30 seconds after it expires, and at most
-- 150 seconds before.
out_of_time_iff :
    (expires now : ℕ)
    → expires < u64_mod
    → now < u64_mod
    → (out_of_time expires now ≡ false) ↔ (now < min (expires + 30) u64_max) × (expires ≤ now + 150)
out_of_time_iff expires now e n = (λ h. ground arith, λ h. ground arith)

module _ (platform : Platform) (law : IsPlatform platform) where
  decode_exact-encode :
      (bytes : Bytes) (n : ℕ)
      → length bytes ≡ n
      → decode_exact platform (platform.base64_encode bytes) n ≡ ok bytes
  unfolding decode_exact
  decode_exact-encode bytes n h = rw (law.decode-encode bytes, h, ==_refl n)

  module _ (endpoint : SocketAddr) (name certificate session secret challenge : Bytes) (made : ℕ)
      (i : PairingInvitation)
      (created : create platform endpoint name certificate
          (some session)
          (some secret)
          (some challenge)
          made
        ≡ ok i) where
    created_parts :
        (validate_endpoint endpoint ≡ ok tt)
        × (map_err (validate_name platform name) invalid_desktop_name ≡ ok tt)
        × (made + 120 < u64_mod)
        × (i ≡ record {
          version = 1;
          session_id = platform.base64_encode session;
          secret = platform.base64_encode secret;
          challenge = platform.base64_encode challenge;
          certificate_sha256 = platform.base64_encode (platform.sha256 certificate);
          endpoint = endpoint;
          desktop_name = name;
          expires_at_unix_secs = made + 120;
        })
    unfolding create
    created_parts =
        let (u, e, h₁) = >>=-eq-ok (validate_endpoint endpoint) _ created in
        let (w, n, h₂) =
          >>=-eq-ok (map_err (validate_name platform name) invalid_desktop_name) _ h₁ in
        let (full, h₃) = passed (is_empty certificate) _ _ h₂ in (e, n, ground arith, ground arith)

    -- An invitation that was created is printed and parsed back as it was, if its random parts have
    -- their sizes, JSON gives back what it was given, in at most 4096 bytes, and the phone's clock is
    -- at most 30 seconds behind the time of creation and less than 150 seconds ahead.
    pub parse-create :
        (json : Json) (encoded : Bytes) (now : ℕ)
        → length session ≡ 16
        → length secret ≡ 32
        → length challenge ≡ 32
        → expose_qr_payload json i ≡ ok encoded
        → json.from_str encoded ≡ some i
        → length encoded ≤ 4_096
        → made ≤ now + 30
        → now < made + 150
        → now < u64_max
        → parse platform json encoded now ≡ ok i
    unfolding parse validate
    parse-create json encoded now ls lsec lc shown read small lo hi fits =
        let (e, n, expires, same) = created_parts in
        let short : ltb 4_096 (length encoded) ≡ false = ground arith in
        let open_window : out_of_time (made + 120) now ≡ false =
          (out_of_time_iff (made + 120) now expires (omega arith)).1 (omega arith, omega arith) in
        rw (short, read)
          (rw same (
            rw (
              e,
              n,
              decode_exact-encode session 16 ls,
              decode_exact-encode secret 32 lsec,
              decode_exact-encode challenge 32 lc,
              decode_exact-encode (platform.sha256 certificate) 32 (law.length-sha256 certificate),
              open_window,
            )))
