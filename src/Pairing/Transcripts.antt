-- ===== src/Pairing/Transcripts.antt =====
-- crates/omacam-core/src/pairing.rs: what the phone's signature covers.
use omalens.Prelude.{◌≡◌, refl, sym, ◌∙◌, List, [], ◌∷◌, Bytes, ok, >>=-ok}
use omalens.Platform.{Platform}
use omalens.Transcript.{append_fields, append_fields-eq-ok, frames-injective, append_cancel}
use omalens.Pairing.Invitation.{PairingInvitation, invalid_field_length}
use omalens.Pairing.Session.{claim_prefix, claim_transcript}

module _ (platform : Platform) where
  abbrev pub signed_fields : PairingInvitation → (phone_name key_der nonce : Bytes) → List Bytes
  signed_fields i phone_name key_der nonce =
      i.session_id
      ∷ i.challenge
      ∷ i.certificate_sha256
      ∷ platform.socket_to_string i.endpoint
      ∷ i.desktop_name
      ∷ phone_name
      ∷ key_der
      ∷ nonce
      ∷ []

  transcript-append_fields :
      (i : PairingInvitation) (name key nonce : Bytes)
      → claim_transcript platform i name key nonce
        ≡ append_fields invalid_field_length claim_prefix (signed_fields i name key nonce)
  unfolding claim_transcript append_fields
  transcript-append_fields i name key nonce = simp (>>=-ok)

  -- The bytes that the phone signs determine what it signs: two transcripts agree only if they are
  -- for the same session, challenge, certificate, printed endpoint, desktop name, phone name, key
  -- and nonce.
  claim_transcript-injective :
      (i j : PairingInvitation) (name name' key key' nonce nonce' out : Bytes)
      → claim_transcript platform i name key nonce ≡ ok out
      → claim_transcript platform j name' key' nonce' ≡ ok out
      → (i.session_id ≡ j.session_id)
        × (i.challenge ≡ j.challenge)
        × (i.certificate_sha256 ≡ j.certificate_sha256)
        × (platform.socket_to_string i.endpoint ≡ platform.socket_to_string j.endpoint)
        × (i.desktop_name ≡ j.desktop_name)
        × (name ≡ name')
        × (key ≡ key')
        × (nonce ≡ nonce')
  claim_transcript-injective i j name name' key key' nonce nonce' out p q =
      let (one, short) =
        append_fields-eq-ok invalid_field_length (signed_fields i name key nonce) claim_prefix out
          (sym (transcript-append_fields i name key nonce) ∙ p) in
      let (two, brief) =
        append_fields-eq-ok invalid_field_length (signed_fields j name' key' nonce') claim_prefix
          out (sym (transcript-append_fields j name' key' nonce') ∙ q) in
      let same =
        frames-injective (signed_fields i name key nonce) (signed_fields j name' key' nonce') refl
          short brief (append_cancel claim_prefix _ _ (sym one ∙ two)) in
      (cc, cc, cc, cc, cc, cc, cc, cc)
