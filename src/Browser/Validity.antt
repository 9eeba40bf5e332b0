-- ===== src/Browser/Validity.antt =====
-- crates/omacam-core/src/browser.rs: the invitations that are parsed, and what the six digits are
-- computed from.
use omalens.Prelude.{
  ℕ, ◌<◌, ◌^◌, ◌≡◌, sym, ◌∙◌, none, some, ◌++◌, Bytes, length, ok, arith, ltb, lt→ltb, ==_refl,
  >>=-eq-ok, passed, not, ◌==◌, true, false,
}
use mathlib.Core.Path.{subst}
use mathlib.Core.List.{append-nil, [], append_assoc}
use omalens.Endpoint.{SocketAddr}
use omalens.Platform.{Platform, IsPlatform}
use omalens.Transcript.{framed, framed-injective, append_cancel}
use omalens.Browser.Invitation.{
  BrowserInvitation, Json, create, parse, decodes_to, to_json, validate_endpoint,
  validate_desktop_name,
}
use omalens.Browser.Session.{sas_transcript, append_field, sas_transcript_prefix}

module _ (platform : Platform) (law : IsPlatform platform) where
  decodes_to-encode :
      (bytes : Bytes) (n : ℕ)
      → length bytes ≡ n
      → decodes_to platform (platform.base64_encode bytes) n ≡ true
  decodes_to-encode bytes n h =
      subst (λ d. elim d [ none ↦ false | some x ↦ length x == n ] ≡ true)
        (sym (law.decode-encode bytes))
        (subst (λ m. (length bytes == m) ≡ true) h (==_refl (length bytes)))

  module _ (token certificate : Bytes) (endpoint : SocketAddr) (name : Bytes)
      (i : BrowserInvitation)
      (created : create platform token certificate endpoint name ≡ ok i) where
    created_parts :
        (length certificate ≡ 32)
        × (validate_endpoint endpoint ≡ ok tt)
        × (validate_desktop_name name ≡ ok tt)
        × (i ≡ record {
          version = 1;
          token = platform.base64_encode token;
          certificate_sha256 = platform.base64_encode certificate;
          endpoint = endpoint;
          desktop_name = name;
        })
    unfolding create
    created_parts =
        let (sized, h₁) = passed (not (length certificate == 32)) _ _ created in
        let (u, e, h₂) = >>=-eq-ok (validate_endpoint endpoint) _ h₁ in
        let (w, n, h₃) = >>=-eq-ok (validate_desktop_name name) _ h₂ in
        (ground arith, e, n, ground arith)

    -- An invitation that was created for a token of 32 bytes and printed as JSON is parsed back as
    -- it was, if JSON gives back what it was given.
    pub parse-to_json :
        (json : Json) (encoded : Bytes)
        → length token ≡ 32
        → to_json json i ≡ ok encoded
        → json.from_str encoded ≡ some i
        → parse platform json encoded ≡ ok i
    unfolding parse to_json
    parse-to_json json encoded sized shown read =
        let (lc, e, n, same) = created_parts in
        let small : ltb 1_024 (length encoded) ≡ false = ground arith in
        rw (small, read)
          (rw same
            (rw (decodes_to-encode certificate 32 lc, decodes_to-encode token 32 sized, e, n)))

framed_transcript :
    (token certificate : Bytes)
    → length token < 2 ^ 32
    → length certificate < 2 ^ 32
    → sas_transcript token certificate
      ≡ sas_transcript_prefix ++ (framed token ++ (framed certificate ++ []))
unfolding sas_transcript append_field framed
framed_transcript token certificate t c =
    rw (lt→ltb (length token) (2 ^ 32) t, lt→ltb (length certificate) (2 ^ 32) c)
      (simp (append_assoc, append-nil))

-- The digits on the two screens are computed from bytes that determine the token and the text of the
-- certificate's digest, as long as each has a length below 2^32.
sas_transcript-injective :
    (token token' certificate certificate' : Bytes)
    → length token < 2 ^ 32
    → length token' < 2 ^ 32
    → length certificate < 2 ^ 32
    → length certificate' < 2 ^ 32
    → sas_transcript token certificate ≡ sas_transcript token' certificate'
    → (token ≡ token') × (certificate ≡ certificate')
sas_transcript-injective token token' certificate certificate' t t' c c' e =
    let same = append_cancel sas_transcript_prefix _ _ (
      sym (framed_transcript token certificate t c)
      ∙ (e ∙ framed_transcript token' certificate' t' c')) in
    let (one, rest) = framed-injective token token' _ _ t t' same in
    let (two, _) = framed-injective certificate certificate' [] [] c c' rest in (one, two)
