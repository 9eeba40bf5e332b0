-- ===== src/Policy.antt =====
-- crates/omacam-core/src/lib.rs: the session policy, its state and its operations. A method on
-- `&mut self` returns the new state beside its result.
pub mod Invariant
pub mod Consent
pub mod Generation
pub mod Expiry
use omalens.Prelude.{
  ℕ, ◌-◌, ◌||◌, Bool, true, false, not, Option, none, some, List, [], ◌∷◌, ◌==◌, leb, if◌then◌else◌,
  is_some, is_some_and, Result, ok, err, wrapping_add, saturating_add,
}

pub data TrustState : Type 0 where
  unpaired trusted revoked : TrustState

pub data ConnectionState : Type 0 where
  offline online recovering : ConnectionState

pub data CaptureState : Type 0 where
  idle awaiting_consent starting streaming stopping failed : CaptureState

pub data OutputState : Type 0 where
  missing ready_neutral ready_live output_failed : OutputState

pub data PolicyError : Type 0 where
  peer_not_trusted peer_offline capture_busy consent_not_pending : PolicyError
  session_not_starting session_not_streaming stale_generation : PolicyError

abbrev pub default_capture_lease_ms : ℕ
default_capture_lease_ms = 10_000

abbrev pub max_frame_age_ms : ℕ
max_frame_age_ms = 500

pub record SessionSnapshot : Type 0 where
  pub trust : TrustState
  pub connection : ConnectionState
  pub capture : CaptureState
  pub output : OutputState
  pub generation : ℕ
  pub capture_armed : Bool

pub record SessionPolicy : Type 0 where
  pub trust : TrustState
  pub connection : ConnectionState
  pub capture : CaptureState
  pub output : OutputState
  pub generation : ℕ  -- u64
  pub lease_expires_at_ms : Option ℕ
  pub last_frame_at_ms : Option ℕ

unfoldable pub default : SessionPolicy
default = record {
  trust = unpaired;
  connection = offline;
  capture = idle;
  output = missing;
  generation = 0;
  lease_expires_at_ms = none;
  last_frame_at_ms = none;
}

unfoldable pub snapshot : SessionPolicy → SessionSnapshot
snapshot p = record {
  trust = p.trust;
  connection = p.connection;
  capture = p.capture;
  output = p.output;
  generation = p.generation;
  capture_armed = is_some p.lease_expires_at_ms;
}

-- The derived equality tests that the guards use.
abbrev pub is_trusted : TrustState → Bool
is_trusted trusted = true
is_trusted _ = false

abbrev pub is_online : ConnectionState → Bool
is_online online = true
is_online _ = false

abbrev pub is_idle : CaptureState → Bool
is_idle idle = true
is_idle _ = false

abbrev pub is_awaiting_consent : CaptureState → Bool
is_awaiting_consent awaiting_consent = true
is_awaiting_consent _ = false

abbrev pub is_starting : CaptureState → Bool
is_starting starting = true
is_starting _ = false

abbrev pub is_streaming : CaptureState → Bool
is_streaming streaming = true
is_streaming _ = false

abbrev pub is_ready_neutral : OutputState → Bool
is_ready_neutral ready_neutral = true
is_ready_neutral _ = false

abbrev pub is_ready_live : OutputState → Bool
is_ready_live ready_live = true
is_ready_live _ = false

abbrev pub Outcome : Type 0 → Type 0
Outcome A = SessionPolicy × Result PolicyError A

abbrev fail : {A : Type 0} → SessionPolicy → PolicyError → Outcome A
fail p e = (p, err e)

abbrev done : SessionPolicy → Outcome (Unit {0})
done p = (p, ok tt)

force_neutral : SessionPolicy → SessionPolicy
force_neutral p = if is_ready_live p.output then record p { output = ready_neutral } else p

require_generation : SessionPolicy → ℕ → Result PolicyError (Unit {0})
require_generation p generation = if p.generation == generation then ok tt else err stale_generation

-- `self.require_generation(generation)?` in front of the rest of a method.
checking_generation : SessionPolicy → ℕ → Outcome (Unit {0}) → Outcome (Unit {0})
unfolding require_generation
checking_generation p generation rest = elim (require_generation p generation) [
  | ok _ ↦ rest
  | err e ↦ fail p e
]

unfoldable pub set_output_ready : SessionPolicy → SessionPolicy
set_output_ready p = record p { output = ready_neutral }

unfoldable pub set_output_failed : SessionPolicy → SessionPolicy
set_output_failed p = record p { output = output_failed }

unfoldable pub trust_peer : SessionPolicy → SessionPolicy
trust_peer p = record p { trust = trusted }

unfoldable pub authenticate_connection : SessionPolicy → Outcome (Unit {0})
authenticate_connection p =
    if not (is_trusted p.trust)
    then fail p peer_not_trusted
    else done (record p { connection = online })

unfoldable pub request_start : SessionPolicy → Outcome (Unit {0})
request_start p =
    if not (is_trusted p.trust)
    then fail p peer_not_trusted
    else if not (is_online p.connection)
    then fail p peer_offline
    else if not (is_idle p.capture)
    then fail p capture_busy
    else done (record p { capture = awaiting_consent })

armed : SessionPolicy → ℕ → SessionPolicy
unfolding force_neutral
armed p now_ms = force_neutral (record p {
  generation = wrapping_add p.generation 1;
  capture = starting;
  lease_expires_at_ms = some (saturating_add now_ms default_capture_lease_ms);
  last_frame_at_ms = none;
})

unfoldable pub grant_consent : SessionPolicy → ℕ → Outcome ℕ
unfolding armed
grant_consent p now_ms =
    if not (is_awaiting_consent p.capture)
    then fail p consent_not_pending
    else if not (is_trusted p.trust)
    then fail p peer_not_trusted
    else if not (is_online p.connection)
    then fail p peer_offline
    else (armed p now_ms, ok (armed p now_ms).generation)

unfoldable pub capture_started : SessionPolicy → ℕ → Outcome (Unit {0})
unfolding checking_generation
capture_started p generation = checking_generation p generation (
    if not (is_starting p.capture)
    then fail p session_not_starting
    else done (record p { capture = streaming }))

unfoldable pub refresh_lease : SessionPolicy → ℕ → ℕ → Outcome (Unit {0})
unfolding checking_generation
refresh_lease p generation now_ms = checking_generation p generation (
    if not (is_starting p.capture || is_streaming p.capture)
    then fail p session_not_streaming
    else done
        (record p { lease_expires_at_ms = some (saturating_add now_ms default_capture_lease_ms) }))

unfoldable pub accept_frame : SessionPolicy → ℕ → ℕ → Outcome (Unit {0})
unfolding checking_generation
accept_frame p generation now_ms = checking_generation p generation (
    if not (is_streaming p.capture)
    then fail p session_not_streaming
    else done (record p {
      last_frame_at_ms = some now_ms;
      output = if is_ready_neutral p.output then ready_live else p.output;
    }))

unfoldable pub connection_lost : SessionPolicy → SessionPolicy
unfolding force_neutral
connection_lost p = force_neutral (record p { connection = recovering; last_frame_at_ms = none })

unfoldable pub stop : SessionPolicy → SessionPolicy
unfolding force_neutral
stop p = force_neutral (record p {
  generation = if had_session then wrapping_add p.generation 1 else p.generation;
  capture = idle;
  lease_expires_at_ms = none;
  last_frame_at_ms = none;
})
  where
    had_session : Bool
    had_session =
        not (is_idle p.capture) || is_some p.lease_expires_at_ms || is_some p.last_frame_at_ms

unfoldable pub tick : SessionPolicy → ℕ → SessionPolicy
unfolding stop force_neutral
tick p now_ms =
    if is_some_and p.lease_expires_at_ms (λ expiry. leb expiry now_ms)
    then stop p
    else if is_some_and p.last_frame_at_ms
        (λ last_frame. leb max_frame_age_ms (now_ms - last_frame))
    then force_neutral (record p { last_frame_at_ms = none })
    else p

unfoldable pub forget_peer : SessionPolicy → SessionPolicy
unfolding stop
forget_peer p = record (stop p) { trust = revoked; connection = offline }

-- The calls of the public interface, and a history of them.
pub data Event : Type 0 where
  output_ready output_fails peer_trusted connection_authenticated start_requested : Event
  consent_granted : (now_ms : ℕ) → Event
  started : (generation : ℕ) → Event
  lease_refreshed frame_accepted : (generation now_ms : ℕ) → Event
  lost : Event
  ticked : (now_ms : ℕ) → Event
  stopped forgotten : Event

pub data Answer : Type 0 where
  nothing : Answer
  answered : ℕ → Answer
  refused : PolicyError → Answer

abbrev unit_answer : Outcome (Unit {0}) → SessionPolicy × Answer
unit_answer (p, ok _) = (p, nothing)
unit_answer (p, err e) = (p, refused e)

abbrev number_answer : Outcome ℕ → SessionPolicy × Answer
number_answer (p, ok n) = (p, answered n)
number_answer (p, err e) = (p, refused e)

-- One call, as the caller sees it.
unfoldable pub step : SessionPolicy → Event → SessionPolicy × Answer
unfolding set_output_ready set_output_failed trust_peer authenticate_connection request_start
    grant_consent capture_started refresh_lease accept_frame connection_lost tick stop forget_peer
step p output_ready = (set_output_ready p, nothing)
step p output_fails = (set_output_failed p, nothing)
step p peer_trusted = (trust_peer p, nothing)
step p connection_authenticated = unit_answer (authenticate_connection p)
step p start_requested = unit_answer (request_start p)
step p (consent_granted now_ms) = number_answer (grant_consent p now_ms)
step p (started generation) = unit_answer (capture_started p generation)
step p (lease_refreshed generation now_ms) = unit_answer (refresh_lease p generation now_ms)
step p (frame_accepted generation now_ms) = unit_answer (accept_frame p generation now_ms)
step p lost = (connection_lost p, nothing)
step p (ticked now_ms) = (tick p now_ms, nothing)
step p stopped = (stop p, nothing)
step p forgotten = (forget_peer p, nothing)

unfoldable pub run : SessionPolicy → List Event → SessionPolicy
run p [] = p
run p (e ∷ es) = run (step p e).0 es
