-- ===== src/Output/Service/Rounds.antt =====
-- crates/omacam-output/src/service.rs: each round keeps `IsService`.
use mathlib.Core.Path.{subst}
use omalens.Prelude.{
  ℕ, if_both, ◌≡◌, refl, ◌∙◌, Bool, true, false, Option, none, some, List, [], ◌∷◌, Bytes, Result,
  ok, err, arith,
}
use omalens.Media.Wire.{same_binding, MediaBinding}
use omalens.Media.Output.{OutputControlCommand, bind, reset, shutdown}
use omalens.Media.Stream.{
  MediaRecordKind, h264_access_unit, stop, new, MediaStreamValidator, MediaError, MediaRecord,
  ValidatedMediaHeader, validate_header, finish_record, is_stop, committed,
}
use omalens.Output.Mux.{spawn}
use omalens.Output.Mux.Refinement.{IsMux, spawn-IsMux}
use omalens.Output.Config.{VideoFormat}
use omalens.Output.Input.{control, media}
use omalens.Output.Service.{
  write_failed, unbound, refused, stop_unbound, bind_requires_reset, decoder_unavailable,
  different_generation, not, is_some_and, is_some, ServiceOutput, Outcome, Answers, Done, happen,
  cleared_queue, send_command, bind_output, reset_output, write_record, decode, spawn_service,
  check_health, bound, detached,
}
use omalens.Output.Service.Loop.{
  stop_output, Received, input, timeout, disconnected, Status, running, returned, command,
  received_media, finished, handle, service_round, Move, meanwhile, received, serve,
}
use omalens.Output.Service.Steps.{
  IsOff, happen_all-IsMux, happen_all-IsOff, Sent, send_command-Sent,
}
use omalens.Output.Service.Invariant.{
  Together, IsService, Ensures, Continues, error-Ensures, guarded-Ensures, continued-Continues,
  happen-IsService,
}

bound-Ensures :
    (old : Option (List Bytes)) (b : MediaBinding) (d : Done)
    → IsMux d.0.format d.0.raw_mux
    → Ensures IsService (bound old b d)
bound-Ensures old b (s, ok _) v =
    λ p. record { together = unfold new in refl; mux = v; idle = λ e. cc }
bound-Ensures old b (s, err e) v = λ p. cc

bind_output-Ensures :
    (s : ServiceOutput) (b : MediaBinding) (a : Answers)
    → IsService s
    → Ensures IsService (bind_output s b a)
unfolding bind_output
bind_output-Ensures s b a v =
    let activated : Done = send_command (record s { decoder = some [] }) true a in
    let sent : Sent (record s { decoder = some [] }) true activated =
      send_command-Sent (record s { decoder = some [] }) true a v.mux in
    if_both (Ensures IsService) (is_some s.binding) (error-Ensures IsService s bind_requires_reset)
      (guarded-Ensures IsService s (check_health s a) _ (
        if_both (Ensures IsService) a.decoder_spawns
          (bound-Ensures s.decoder b activated sent.sent_mux)
          (error-Ensures IsService s decoder_unavailable)))

detached-Ensures :
    (decoder : Option (List Bytes)) (a : Answers) (d : Done)
    → IsMux d.0.format d.0.raw_mux
    → (d.1 ≡ ok tt → IsOff d.0.raw_mux)
    → Ensures IsService (detached decoder a d)
unfolding cleared_queue
detached-Ensures decoder a (s, ok _) v h = λ p.
    let quiet = happen_all-IsMux s a.late v in
    let off = happen_all-IsOff s a.late (h refl) in
    record { together = tt; mux = ground arith; idle = λ e. (ground arith, refl) }
detached-Ensures decoder a (s, err e) v h = λ p. cc

pub reset_output-Ensures :
    (s : ServiceOutput) (b : MediaBinding) (a : Answers)
    → IsService s
    → Ensures IsService (reset_output s b a)
unfolding reset_output
reset_output-Ensures s b a v =
    let sent = send_command-Sent s false a v.mux in
    if_both (Ensures IsService) (is_some_and s.binding (λ current. not (same_binding current b)))
      (error-Ensures IsService s different_generation)
      (detached-Ensures s.decoder a (send_command s false a) sent.sent_mux
        (λ p. sent.switched_off p refl))

Together-decoder :
    (new old : List Bytes) (b : Option MediaBinding) (v : Option MediaStreamValidator)
    → Together (some old) b v
    → Together (some new) b v
Together-decoder new old none none t = t
Together-decoder new old none (some v) t = t
Together-decoder new old (some b) none t = t
Together-decoder new old (some b) (some v) t = t

Together-validator :
    (w v : MediaStreamValidator) (d : Option (List Bytes)) (b : Option MediaBinding)
    → w.binding ≡ v.binding
    → Together d b (some v)
    → Together d b (some w)
Together-validator w v none none same t = t
Together-validator w v none (some b) same t = t
Together-validator w v (some payloads) none same t = t
Together-validator w v (some payloads) (some b) same t = same ∙ t

decode-Ensures :
    (s : ServiceOutput) (decoder : Option (List Bytes)) (payload : Bytes) (writes : Bool)
    → s.decoder ≡ decoder
    → IsService s
    → Ensures IsService (decode s decoder payload writes)
decode-Ensures s none payload writes e v = error-Ensures IsService s unbound
decode-Ensures s (some payloads) payload false e v = error-Ensures IsService s write_failed
decode-Ensures s (some payloads) payload true e v = λ p. record {
  together =
      Together-decoder (payload ∷ payloads) payloads s.binding s.validator
        (subst (λ (d : Option (List Bytes)). Together d s.binding s.validator) e v.together);
  mux = v.mux;
  idle = v.idle;
}

write_record-Ensures :
    (s : ServiceOutput) (r : MediaRecord) (a : Answers)
    → IsService s
    → Ensures IsService (write_record s r a)
unfolding write_record
write_record-Ensures s r a v =
    guarded-Ensures IsService s (check_health s a) _
      (decode-Ensures s s.decoder r.payload a.writes refl v)

command-Continues :
    (s : ServiceOutput) (c : OutputControlCommand) (a : Answers)
    → IsService s
    → Continues IsService (command s c a)
unfolding command
command-Continues s (bind b) a v =
    continued-Continues IsService (bind_output s b a) (bind_output-Ensures s b a v)
command-Continues s (reset b) a v =
    continued-Continues IsService (reset_output s b a) (reset_output-Ensures s b a v)
command-Continues s shutdown a v = λ p. cc

binding-committed :
    (v : MediaStreamValidator) (kind : MediaRecordKind) (sequence time : ℕ)
    → (committed v kind sequence time).binding ≡ v.binding
binding-committed v h264_access_unit sequence time = refl
binding-committed v stop sequence time = refl

binding-finish_record :
    (v : MediaStreamValidator) (pending : ValidatedMediaHeader) (payload : Bytes)
    → (finish_record v pending payload).0.binding ≡ v.binding
unfolding finish_record
binding-finish_record v pending payload =
    ground (arith, binding-committed v pending.kind pending.sequence pending.presentation_time_us)

-- The validator moves on, for the same binding.
revalidated :
    (s : ServiceOutput) (v w : MediaStreamValidator)
    → s.validator ≡ some v
    → w.binding ≡ v.binding
    → IsService s
    → IsService (record s { validator = some w })
revalidated s v w e same h = record {
  together =
      Together-validator w v s.decoder s.binding same
        (subst (λ (x : Option MediaStreamValidator). Together s.decoder s.binding x) e h.together);
  mux = h.mux;
  idle = h.idle;
}

stop_output-Ensures :
    (s : ServiceOutput) (b : Option MediaBinding) (a : Answers)
    → IsService s
    → Ensures IsService (stop_output s b a)
stop_output-Ensures s none a v = error-Ensures IsService s stop_unbound
stop_output-Ensures s (some b) a v = reset_output-Ensures s b a v

finished-Continues :
    (s : ServiceOutput) (a : Answers) (done : MediaStreamValidator × Result MediaError MediaRecord)
    → IsService (record s { validator = some done.0 })
    → Continues IsService (finished s a done)
finished-Continues s a (w, ok r) v = continued-Continues IsService _ (
    if_both (Ensures IsService) (is_stop r.kind)
      (stop_output-Ensures (record s { validator = some w }) s.binding a v)
      (write_record-Ensures (record s { validator = some w }) r a v))
finished-Continues s a (w, err e) v = λ p. cc

received_media-Continues :
    (s : ServiceOutput) (validator : Option MediaStreamValidator) (header payload : Bytes)
    (a : Answers)
    → s.validator ≡ validator
    → IsService s
    → Continues IsService (received_media s validator header payload a)
unfolding received_media
received_media-Continues s none header payload a e h = λ p. cc
received_media-Continues s (some v) header payload a e h = go (validate_header v header)
  where
    go :
        (checked : Result MediaError ValidatedMediaHeader)
        → Continues IsService (elim checked [
          | ok pending ↦ finished s a (finish_record v pending payload)
          | err e ↦ (s, returned (err (refused e)))
        ])
    go (ok pending) = finished-Continues s a (finish_record v pending payload) (
        revalidated s v (finish_record v pending payload).0 e
          (binding-finish_record v pending payload) h)
    go (err e) = λ p. cc

handle-Continues :
    (s : ServiceOutput) (i : Received) (a : Answers)
    → IsService s
    → Continues IsService (handle s i a)
unfolding handle
handle-Continues s (input (ok (some (control c)))) a v = command-Continues s c a v
handle-Continues s (input (ok (some (media header payload)))) a v =
    received_media-Continues s s.validator header payload a refl v
handle-Continues s (input (ok none)) a v = λ p. cc
handle-Continues s (input (err e)) a v = λ p. cc
handle-Continues s timeout a v = λ p. v
handle-Continues s disconnected a v = λ p. cc

-- A round that does not end the loop keeps the invariant.
pub service_round-IsService :
    (s : ServiceOutput) (i : Received) (a : Answers)
    → IsService s
    → (service_round s i a).1 ≡ running
    → IsService (service_round s i a).0
unfolding service_round
service_round-IsService s i a v = go (check_health s a)
  where
    go :
        (health : Outcome)
        → Continues IsService (elim health [ ok _ ↦ handle s i a | err e ↦ (s, returned (err e)) ])
    go (ok _) = handle-Continues s i a v
    go (err e) = λ p. cc

pub spawn_service-IsService : (f : VideoFormat) (now : ℕ) → IsService (spawn_service f now)
unfolding spawn_service spawn
spawn_service-IsService f now = record {
  together = tt;
  mux = spawn-IsMux f now;
  idle = λ e. (record { off = refl; nothing = refl }, refl);
}

-- From a state that is well on, for everything that it receives and all that happens meanwhile, a
-- service that is still running has a decoder, a binding and a validator for this binding, or none of
-- the three; its queue holds at most two frames and is set to the frame size of the format; and while
-- it is unbound its mux is off and holds no frame.
pub serve-IsService :
    (s : ServiceOutput) (ms : List Move)
    → IsService s
    → (serve s ms).1 ≡ running
    → IsService (serve s ms).0
unfolding serve
serve-IsService s [] v = λ p. v
serve-IsService s (meanwhile h ∷ ms) v = serve-IsService (happen s h) ms (happen-IsService s h v)
serve-IsService s (received i a ∷ ms) v =
    go (service_round s i a).1 (service_round-IsService s i a v)
      (serve-IsService (service_round s i a).0 ms)
  where
    go :
        (status : Status)
        → (status ≡ running → IsService (service_round s i a).0)
        → (IsService (service_round s i a).0
            → Continues IsService (serve (service_round s i a).0 ms))
        → Continues IsService (elim status [
          | running ↦ serve (service_round s i a).0 ms
          | returned outcome ↦ ((service_round s i a).0, returned outcome)
        ])
    go running one rest = rest (one refl)
    go (returned outcome) one rest = λ p. cc
