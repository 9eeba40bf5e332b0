-- ===== src/Output/Service/Accepts.antt =====
-- crates/omacam-output/src/service.rs: rounds in which nothing outside fails.
use mathlib.Core.Path.{subst}
use omalens.Prelude.{
  reject_if, ◌≡◌, refl, ap, ◌∙◌, Bool, true, false, not, ◌&&◌, Option, none, some, List, [], ◌∷◌,
  Bytes, ok, err, All, arith, is_some, is_some_and, if◌then◌else◌,
}
use omalens.Media.Wire.{MediaBinding, IsBinding, same_binding, same_binding_iff}
use omalens.Media.Stream.{committed, MediaRecord, MediaStreamValidator, is_stop, validate_header}
use omalens.Media.Stream.Layout.{plain_header}
use omalens.Media.Stream.Header.{validate_header_iff}
use omalens.Media.Stream.RoundTrip.{IsNext, header-Accepts, finish_record_ok, pending_of}
use omalens.Output.Input.{media}
use omalens.Output.Mux.{RawMux, step, round, tick, refreshed}
use omalens.Output.Service.{
  mux_stopped, bind_requires_reset, decoder_unavailable, different_generation, ServiceOutput,
  Outcome, Done, Answers, Happening, decoded, ticked, happen, happen_all, cleared_queue,
  check_health, guarded, commanded, send_command, bound, bind_output, detached, reset_output,
  decode, write_record,
}
use omalens.Output.Service.Loop.{
  Received, input, running, continued, finished, received_media, handle, service_round,
}
use omalens.Output.Service.Steps.{pump_both, happen_all-Follows}

abbrev pub Succeeds : Happening → Type 0
Succeeds (decoded frame) = Unit {0}
Succeeds (ticked now write_ok) = write_ok ≡ true

-- Both children run, the mux answers and its writes succeed, the decoder starts, takes a write and is
-- reaped.
pub record IsSound (a : Answers) : Type 0 where
  pub pipeline_ok : a.pipeline_runs ≡ true
  pub decoder_ok : a.decoder_runs ≡ true
  pub spawn_ok : a.decoder_spawns ≡ true
  pub answer_ok : a.acknowledged ≡ true
  pub stop_ok : a.decoder_stops ≡ true
  pub write_ok : a.writes ≡ true
  pub early_ok : All Succeeds a.early
  pub late_ok : All Succeeds a.late

Runs : ServiceOutput → Type 0
Runs s = s.raw_mux.running ≡ true

happen-running :
    (s : ServiceOutput) (h : Happening)
    → Succeeds h
    → s.raw_mux.running ≡ true
    → (happen s h).raw_mux.running ≡ true
unfolding happen step round tick refreshed
happen-running s (decoded frame) k r = pump_both (λ (m : RawMux). m.running ≡ true) s.decoder r r
happen-running s (ticked now true) k r = ground arith
happen-running s (ticked now false) k r = cc

happen_all-running :
    (s : ServiceOutput) (hs : List Happening)
    → All Succeeds hs
    → s.raw_mux.running ≡ true
    → (happen_all s hs).raw_mux.running ≡ true
unfolding happen_all
happen_all-running s [] k r = r
happen_all-running s (h ∷ hs) k r =
    happen_all-running (happen s h) hs k.1 (happen-running s h k.0 r)

-- A step that succeeded, with the mux running on.
pub record Succeeded (binding : Option MediaBinding) (d : Done) : Type 0 where
  pub no_error : d.1 ≡ ok tt
  pub then_bound : d.0.binding ≡ binding
  pub then_running : d.0.raw_mux.running ≡ true

taken_ok :
    (before t : ServiceOutput) (active up taken : Bool)
    → up ≡ true
    → taken ≡ true
    → t.raw_mux.running ≡ true
    → Succeeded t.binding
        (guarded before (reject_if (not up) mux_stopped) (commanded t active taken))
taken_ok before t active true true u k r = record {
  no_error = refl;
  then_bound = refl;
  then_running = r;
}
taken_ok before t active true false u k r = cc
taken_ok before t active false taken u k r = cc

bind_ok :
    (s : ServiceOutput) (b : MediaBinding) (old : Option MediaBinding) (health : Outcome)
    (spawns : Bool) (d : Done)
    → old ≡ none
    → health ≡ ok tt
    → spawns ≡ true
    → Succeeded none d
    → Succeeded (some b) (
        if is_some old
        then (s, err bind_requires_reset)
        else guarded s health
            (if spawns then bound s.decoder b d else (s, err decoder_unavailable)))
bind_ok s b none (ok _) true (t, ok _) o h k v = record {
  no_error = refl;
  then_bound = refl;
  then_running = v.then_running;
}
bind_ok s b none (ok _) true (t, err _) o h k v = absurd (cc (v.no_error))
bind_ok s b none (ok _) false d o h k v = cc
bind_ok s b none (err _) spawns d o h k v = cc
bind_ok s b (some _) health spawns d o h k v = cc

module _ (a : Answers) (sound : IsSound a) where
  check_health_ok : (s : ServiceOutput) → s.raw_mux.running ≡ true → check_health s a ≡ ok tt
  unfolding check_health
  check_health_ok s r = ground arith

  -- A command is taken, and the mux runs on.
  send_command_ok :
      (s : ServiceOutput) (active : Bool)
      → s.raw_mux.running ≡ true
      → Succeeded s.binding (send_command s active a)
  unfolding send_command
  send_command_ok s active r =
      let clean : (cleared_queue s).raw_mux.running ≡ true = unfold cleared_queue in r in
      let later = happen_all-running (cleared_queue s) a.early sound.early_ok clean in
      let same : (happen_all (cleared_queue s) a.early).binding ≡ s.binding =
        (happen_all-Follows (cleared_queue s) a.early).binding_kept
        ∙ (unfold cleared_queue in refl) in
      subst (λ (x : Option MediaBinding). Succeeded x (send_command s active a)) same
        (taken_ok (cleared_queue s) (happen_all (cleared_queue s) a.early) active s.raw_mux.running
          (a.acknowledged && (happen_all (cleared_queue s) a.early).raw_mux.running) r
          (ground (arith, sound.answer_ok, later)) later)

  pub bind_accepted :
      (s : ServiceOutput) (b : MediaBinding)
      → s.binding ≡ none
      → s.raw_mux.running ≡ true
      → Succeeded (some b) (bind_output s b a)
  unfolding bind_output
  bind_accepted s b e r =
      let sent = send_command_ok (record s { decoder = some [] }) true r in
      bind_ok s b s.binding (check_health s a) a.decoder_spawns
        (send_command (record s { decoder = some [] }) true a) e (check_health_ok s r)
        sound.spawn_ok
        (subst
          (λ (x : Option MediaBinding).
            Succeeded x (send_command (record s { decoder = some [] }) true a))
          e sent)

  detached_ok :
      (decoder : Option (List Bytes)) (binding : Option MediaBinding) (d : Done)
      → Succeeded binding d
      → Succeeded none (detached decoder a d)
  unfolding cleared_queue
  detached_ok decoder binding (s, ok _) v = record {
    no_error = ground (arith, sound.stop_ok);
    then_bound = refl;
    then_running = happen_all-running s a.late sound.late_ok v.then_running;
  }
  detached_ok decoder binding (s, err e) v = absurd (cc (v.no_error))

  reset_ok :
      (s : ServiceOutput) (b : MediaBinding) (current : Option MediaBinding) (d : Done)
      → current ≡ some b
      → Succeeded none d
      → Succeeded none (
          if is_some_and current (λ c. not (same_binding c b))
          then (s, err different_generation)
          else d)
  reset_ok s b none d e v = v
  reset_ok s b (some c) d e v = ground (arith, same_binding_iff c b)

  pub reset_accepted :
      (s : ServiceOutput) (b : MediaBinding)
      → s.binding ≡ some b
      → s.raw_mux.running ≡ true
      → Succeeded none (reset_output s b a)
  unfolding reset_output
  reset_accepted s b e r =
      reset_ok s b s.binding (detached s.decoder a (send_command s false a)) e
        (detached_ok s.decoder s.binding (send_command s false a) (send_command_ok s false r))

  write_record_accepted :
      (s : ServiceOutput) (r : MediaRecord) (payloads : List Bytes)
      → s.decoder ≡ some payloads
      → s.raw_mux.running ≡ true
      → write_record s r a ≡ (record s { decoder = some (r.payload ∷ payloads) }, ok tt)
  unfolding write_record
  write_record_accepted s r payloads de run = rw (check_health_ok s run) (
      ap (λ (x : Option (List Bytes)). decode s x r.payload a.writes) de
      ∙ ap (decode s (some payloads) r.payload) sound.write_ok)

  -- A round starts with a check that succeeds.
  pub round_accepted :
      (s : ServiceOutput) (i : Received)
      → s.raw_mux.running ≡ true
      → service_round s i a ≡ handle s i a
  unfolding service_round
  round_accepted s i run = rw (check_health_ok s run, service_round)

  finished_accepted :
      (s : ServiceOutput) (w : MediaStreamValidator) (r : MediaRecord) (payloads : List Bytes)
      → s.decoder ≡ some payloads
      → s.raw_mux.running ≡ true
      → is_stop r.kind ≡ false
      → finished s a (w, ok r)
        ≡ (record s { validator = some w; decoder = some (r.payload ∷ payloads) }, running)
  finished_accepted s w r payloads de run k =
      rw k
        (ap continued (write_record_accepted (record s { validator = some w }) r payloads de run))

  -- An access unit that may follow reaches the decoder, and the validator moves on.
  pub media_accepted :
      (s : ServiceOutput) (v : MediaStreamValidator) (payloads : List Bytes) (r : MediaRecord)
      → s.validator ≡ some v
      → s.decoder ≡ some payloads
      → s.raw_mux.running ≡ true
      → IsBinding v.binding
      → IsNext v r
      → is_stop r.kind ≡ false
      → service_round s (input (ok (some (media (plain_header v.binding r) r.payload)))) a ≡ (
        record s {
          validator = some (committed v r.kind r.sequence r.presentation_time_us);
          decoder = some (r.payload ∷ payloads);
        },
        running,
      )
  unfolding handle received_media
  media_accepted s v payloads r ve de run w n k =
      let header = plain_header v.binding r in
      let next : MediaStreamValidator = committed v r.kind r.sequence r.presentation_time_us in
      let valid : validate_header v header ≡ ok (pending_of r) =
        (validate_header_iff v header (pending_of r)).1 (header-Accepts v r w n) in
      round_accepted s (input (ok (some (media header r.payload)))) run
      ∙ ap (λ (x : Option MediaStreamValidator). received_media s x header r.payload a) ve
      ∙ rw (valid, received_media)
          (ap (finished s a) (finish_record_ok v r w n)
            ∙ finished_accepted s next r payloads de run k)
