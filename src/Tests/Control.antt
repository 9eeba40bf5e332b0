-- ===== src/Tests/Control.antt =====
-- A control session with its proof.
use omalens.Prelude.{◌≡◌, ◌↔◌, refl, [], ◌∷◌, ◌++◌, Bytes, replicate, ok, arith, codes, to_be_bytes}
use omalens.Control.{
  ControlHello, ControlProof, AuthenticatedControl, ControlSession, awaiting_proof, authenticated,
  hello_type, authenticate, proof_transcript, proof_prefix,
}
use omalens.Control.Attempts.{Attempt, Once, attempt-Once}
use omalens.Control.Proof.{Proves, proof_transcript-injective, authenticate_iff}
use omalens.Transcript.{append_field, framed}
use omalens.Tests.Fixtures.{platform}

abbrev hello : ControlHello
hello = record {
  message_type = hello_type;
  minimum_version = 1;
  maximum_version = 1;
  features = 0;
  required_features = 0;
  session_id = replicate 16 3;
  challenge = replicate 32 4;
  certificate_sha256 = replicate 32 0;
}

abbrev session : ControlSession
session = record { hello = hello; created_monotonic_ms = 1_000; state = awaiting_proof }

abbrev proof : ControlProof
proof = record {
  message_type = codes "control_proof";
  version = 1;
  features = 0;
  session_id = replicate 16 3;
  phone_public_key_sha256 = replicate 32 0;
  phone_nonce = replicate 32 5;
  signature_der = replicate 70 6;
}

abbrev key : Bytes
key = replicate 91 7

abbrev digest : Bytes
digest = replicate 32 0

abbrev nonce : Bytes
nonce = replicate 32 5

abbrev answer : AuthenticatedControl
answer = record {
  session_id = replicate 16 3;
  phone_key_sha256 = replicate 32 0;
  version = 1;
  features = 0;
}

authenticate_iff_example :
    (authenticate platform session proof key 2_000
      ≡ (record session { state = authenticated }, ok answer))
    ↔ Proves platform session proof key 2_000 answer
authenticate_iff_example = authenticate_iff platform session proof key 2_000 answer

abbrev first : Attempt
first = record { proof = proof; key_der = key; now_monotonic_ms = 2_000 }

attempt-Once_example :
    Once platform 1_000 (authenticate platform session proof key 2_000) (first ∷ first ∷ [])
attempt-Once_example = attempt-Once platform session first (first ∷ first ∷ []) refl

abbrev signed : Bytes
signed =
    codes "OMACAM-CONTROL-PROOF-V1"
    ++ (0
        ∷ 0
        ∷ 0
        ∷ 0
        ∷ 1
        ∷ 1
        ∷ 0
        ∷ 0
        ∷ 0
        ∷ 4
        ∷ 0
        ∷ 0
        ∷ 0
        ∷ 0
        ∷ (framed (replicate 16 3)
            ++ (framed (replicate 32 4)
                ++ (framed (replicate 32 0)
                    ++ (framed (replicate 32 0) ++ framed (replicate 32 5))))))

is_signed : proof_transcript platform hello 1 0 digest nonce ≡ ok signed
unfolding proof_transcript append_field to_be_bytes proof_prefix framed
is_signed = refl

proof_transcript-injective_example :
    (proof.version ≡ proof.version)
    × (proof.features ≡ proof.features)
    × (hello.session_id ≡ hello.session_id)
    × (hello.challenge ≡ hello.challenge)
    × (hello.certificate_sha256 ≡ hello.certificate_sha256)
    × (digest ≡ digest)
    × (nonce ≡ nonce)
proof_transcript-injective_example =
    proof_transcript-injective platform hello hello 1 1 0 0 digest digest nonce nonce signed
      (omega arith) (omega arith) is_signed is_signed
