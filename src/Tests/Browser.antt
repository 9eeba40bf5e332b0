-- ===== src/Tests/Browser.antt =====
-- A browser session with its token.
use omalens.Endpoint.{browser_accepts}
use omalens.Prelude.{
  ◌≡◌, refl, List, [], ◌∷◌, Bytes, none, some, replicate, ok, err, arith, codes, true, false,
  bytes_eq,
}
use omalens.Platform.{Platform}
use omalens.Browser.Invitation.{
  validate_desktop_name, validate_endpoint, BrowserInvitation, Json, create, parse, to_json,
  invalid_token,
}
use omalens.Browser.Session.{new, claim, confirm, may_negotiate, expire_if_needed, claim_token}
use omalens.Browser.Ceremony.{
  Event, claims, confirms, step, run, Offered, IsRight, may_negotiate-Offered, wrong_token_closes,
}
use omalens.Browser.Validity.{parse-to_json}
use omalens.Tests.Fixtures.{platform, platform-IsPlatform, endpoint}

abbrev token : Bytes
token = replicate 32 1

abbrev digest : Bytes
digest = replicate 32 0

abbrev invitation : BrowserInvitation
invitation = record {
  version = 1;
  token = token;
  certificate_sha256 = replicate 32 0;
  endpoint = endpoint;
  desktop_name = codes "Desk";
}

abbrev history : List Event
history = claims token 1_000 ∷ confirms 2_000 ∷ []

negotiates : may_negotiate (run platform (new invitation token 500) history) ≡ true
unfolding may_negotiate run step claim confirm new expire_if_needed claim_token bytes_eq
negotiates = refl

may_negotiate-Offered_example : Offered platform token 500 history
may_negotiate-Offered_example =
    may_negotiate-Offered platform invitation token 500 history negotiates

other : ¬ IsRight platform token 500 []
other (same, size, short) = cc

wrong_token_closes_example :
    let r = claim platform (new invitation token 500) [] 1_000 in
    (r.1 ≡ err invalid_token) × (may_negotiate (run platform r.0 history) ≡ false)
wrong_token_closes_example =
    wrong_token_closes platform invitation token [] [] 500 1_000 history (omega arith) refl other

-- A platform whose base64 has no empty text.
abbrev strict : Platform
strict = record platform {
  base64_decode = λ bytes. elim bytes [ [] ↦ none | b ∷ bs ↦ some (b ∷ bs) ];
}

abbrev json : Json
json = record { from_str = λ _. some invitation; to_string = λ _. some (codes "{}") }

is_created : create platform token (replicate 32 0) endpoint (codes "Desk") ≡ ok invitation
unfolding create validate_endpoint browser_accepts validate_desktop_name
is_created = refl

is_shown : to_json json invitation ≡ ok (codes "{}")
unfolding to_json
is_shown = refl

parse-to_json_example : parse platform json (codes "{}") ≡ ok invitation
parse-to_json_example =
    parse-to_json platform platform-IsPlatform token (replicate 32 0) endpoint (codes "Desk")
      invitation is_created json (codes "{}") refl is_shown refl
