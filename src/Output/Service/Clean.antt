-- ===== src/Output/Service/Clean.antt =====
-- crates/omacam-output/src/service.rs: no step brings a frame to the raw pipeline but those that the
-- decoder yields.
use omalens.Prelude.{
  Bool, true, false, not, Option, none, some, List, [], ◌∷◌, Bytes, Result, ok, err, All, if_both,
  if◌then◌else◌, is_some, is_some_and, ◌&&◌,
}
use omalens.Media.Wire.{MediaBinding, same_binding}
use omalens.Media.Output.{OutputControlCommand, bind, reset, shutdown}
use omalens.Media.Stream.{
  MediaError, MediaRecord, MediaStreamValidator, ValidatedMediaHeader, validate_header,
  finish_record, is_stop,
}
use omalens.Output.Config.{VideoFormat}
use omalens.Output.Input.{control, media}
use omalens.Output.Mux.{timed_out, step}
use omalens.Output.Mux.Frames.{
  NeutralOr, IfSome, Holds, pushed-Holds, ticked-Holds, ticked-NeutralOr, switched-Holds,
}
use omalens.Output.Service.{
  ServiceOutput, Outcome, Done, Answers, Happening, decoded, ticked, happen, happen_all, logged,
  cleared_queue, guarded, commanded, send_command, bound, bind_output, detached, reset_output,
  decode, write_record, check_health, mux_health, refused,
}
use omalens.Output.Service.Loop.{
  Received, input, timeout, disconnected, Status, running, returned, Round, continued, command,
  stop_output, finished, received_media, handle, service_round, Move, meanwhile, received, serve,
}
use omalens.Output.Service.Steps.{pump_both}

module _ (P : Bytes → Type 0) where
  -- The frames that the decoder yields have the property.
  abbrev pub Yields : Happening → Type 0
  Yields (decoded frame) = P frame
  Yields (ticked now write_ok) = Unit {0}

  abbrev pub Allows : Answers → Type 0
  Allows a = All Yields a.early × All Yields a.late

  abbrev pub Supplies : Move → Type 0
  Supplies (meanwhile h) = Yields h
  Supplies (received i a) = Allows a

  -- The frames that the mux holds have it, and those written are neutral or have it.
  pub record IsClean (s : ServiceOutput) : Type 0 where
    pub held : Holds P s.raw_mux
    pub written : All (NeutralOr s.format P) s.raw_pipeline

  All-logged :
      (f : VideoFormat) (o : Option Bytes) (frames : List Bytes)
      → IfSome (NeutralOr f P) o
      → All (NeutralOr f P) frames
      → All (NeutralOr f P) (logged o frames)
  All-logged f none frames h k = k
  All-logged f (some frame) frames h k = (h, k)

  happen-IsClean : (s : ServiceOutput) (h : Happening) → Yields h → IsClean s → IsClean (happen s h)
  unfolding happen
  happen-IsClean s (decoded frame) p c = record {
    held = pump_both (Holds P) s.decoder c.held (pushed-Holds P s.format s.raw_mux frame p c.held);
    written = c.written;
  }
  happen-IsClean s (ticked now write_ok) p c = record {
    held = ticked-Holds P s.format s.raw_mux now write_ok c.held;
    written =
        All-logged s.format (step s.format s.raw_mux (timed_out now write_ok)).1 s.raw_pipeline
          (ticked-NeutralOr P s.format s.raw_mux now write_ok c.held) c.written;
  }

  happen_all-IsClean :
      (s : ServiceOutput) (hs : List Happening)
      → All Yields hs
      → IsClean s
      → IsClean (happen_all s hs)
  unfolding happen_all
  happen_all-IsClean s [] p c = c
  happen_all-IsClean s (h ∷ hs) p c =
      happen_all-IsClean (happen s h) hs p.1 (happen-IsClean s h p.0 c)

  guarded-IsClean :
      (s : ServiceOutput) (o : Outcome) (next : Done)
      → IsClean s
      → IsClean next.0
      → IsClean (guarded s o next).0
  guarded-IsClean s (ok _) next c d = d
  guarded-IsClean s (err e) next c d = c

  cleared_queue-IsClean : (s : ServiceOutput) → IsClean s → IsClean (cleared_queue s)
  unfolding cleared_queue
  cleared_queue-IsClean s c = record {
    held = record { queued = tt; shown = c.held.shown };
    written = c.written;
  }

  commanded-IsClean :
      (s : ServiceOutput) (active taken : Bool) → IsClean s → IsClean (commanded s active taken).0
  commanded-IsClean s active true c = record {
    held = switched-Holds P s.raw_mux active;
    written = c.written;
  }
  commanded-IsClean s active false c = c

  send_command-IsClean :
      (s : ServiceOutput) (active : Bool) (a : Answers)
      → All Yields a.early
      → IsClean s
      → IsClean (send_command s active a).0
  unfolding send_command
  send_command-IsClean s active a p c =
      let cleared = cleared_queue-IsClean s c in
      let t : ServiceOutput = happen_all (cleared_queue s) a.early in
      guarded-IsClean (cleared_queue s) (mux_health s.raw_mux)
        (commanded t active (a.acknowledged && t.raw_mux.running)) cleared
        (commanded-IsClean t active (a.acknowledged && t.raw_mux.running)
          (happen_all-IsClean (cleared_queue s) a.early p cleared))

  bound-IsClean :
      (old : Option (List Bytes)) (b : MediaBinding) (d : Done)
      → IsClean d.0
      → IsClean (bound old b d).0
  bound-IsClean old b (s, ok _) c = record { held = c.held; written = c.written }
  bound-IsClean old b (s, err e) c = record { held = c.held; written = c.written }

  abbrev Clean : Done → Type 0
  Clean d = IsClean d.0

  abbrev CleanRound : Round → Type 0
  CleanRound r = IsClean r.0

  bind_output-IsClean :
      (s : ServiceOutput) (b : MediaBinding) (a : Answers)
      → Allows a
      → IsClean s
      → Clean (bind_output s b a)
  unfolding bind_output
  bind_output-IsClean s b a p c =
      let sent : Done = send_command (record s { decoder = some [] }) true a in
      let fresh : IsClean (record s { decoder = some [] }) = record {
        held = c.held;
        written = c.written;
      } in
      if_both Clean (is_some s.binding) c (
        guarded-IsClean s (check_health s a) _ c (
          if_both Clean a.decoder_spawns
            (bound-IsClean s.decoder b sent
              (send_command-IsClean (record s { decoder = some [] }) true a p.0 fresh))
            c))

  detached-IsClean :
      (decoder : Option (List Bytes)) (a : Answers) (d : Done)
      → All Yields a.late
      → Clean d
      → Clean (detached decoder a d)
  unfolding cleared_queue
  detached-IsClean decoder a (s, deactivated) p c =
      let later = happen_all-IsClean s a.late p c in
      record { held = record { queued = tt; shown = later.held.shown }; written = later.written }

  reset_output-IsClean :
      (s : ServiceOutput) (b : MediaBinding) (a : Answers)
      → Allows a
      → IsClean s
      → Clean (reset_output s b a)
  unfolding reset_output
  reset_output-IsClean s b a p c =
      if_both Clean (is_some_and s.binding (λ current. not (same_binding current b))) c (
        detached-IsClean s.decoder a (send_command s false a) p.1
          (send_command-IsClean s false a p.0 c))

  decode-IsClean :
      (s : ServiceOutput) (decoder : Option (List Bytes)) (payload : Bytes) (writes : Bool)
      → IsClean s
      → Clean (decode s decoder payload writes)
  decode-IsClean s none payload writes c = c
  decode-IsClean s (some payloads) payload true c = record { held = c.held; written = c.written }
  decode-IsClean s (some payloads) payload false c = c

  write_record-IsClean :
      (s : ServiceOutput) (r : MediaRecord) (a : Answers) → IsClean s → Clean (write_record s r a)
  unfolding write_record
  write_record-IsClean s r a c =
      guarded-IsClean s (check_health s a) (decode s s.decoder r.payload a.writes) c
        (decode-IsClean s s.decoder r.payload a.writes c)

  continued-IsClean : (d : Done) → Clean d → IsClean (continued d).0
  continued-IsClean (s, ok _) c = c
  continued-IsClean (s, err e) c = c

  command-IsClean :
      (s : ServiceOutput) (c : OutputControlCommand) (a : Answers)
      → Allows a
      → IsClean s
      → IsClean (command s c a).0
  unfolding command
  command-IsClean s (bind b) a p c =
      continued-IsClean (bind_output s b a) (bind_output-IsClean s b a p c)
  command-IsClean s (reset b) a p c =
      continued-IsClean (reset_output s b a) (reset_output-IsClean s b a p c)
  command-IsClean s shutdown a p c = c

  stop_output-IsClean :
      (s : ServiceOutput) (b : Option MediaBinding) (a : Answers)
      → Allows a
      → IsClean s
      → Clean (stop_output s b a)
  stop_output-IsClean s none a p c = c
  stop_output-IsClean s (some b) a p c = reset_output-IsClean s b a p c

  finished-IsClean :
      (s : ServiceOutput) (a : Answers)
      (done : MediaStreamValidator × Result MediaError MediaRecord)
      → Allows a
      → IsClean s
      → IsClean (finished s a done).0
  finished-IsClean s a (w, ok r) p c =
      let t : ServiceOutput = record s { validator = some w } in
      let clean : IsClean t = record { held = c.held; written = c.written } in
      continued-IsClean (if is_stop r.kind then stop_output t s.binding a else write_record t r a) (
        if_both Clean (is_stop r.kind) (stop_output-IsClean t s.binding a p clean)
          (write_record-IsClean t r a clean))
  finished-IsClean s a (w, err e) p c = record { held = c.held; written = c.written }

  received_media-IsClean :
      (s : ServiceOutput) (validator : Option MediaStreamValidator) (header payload : Bytes)
      (a : Answers)
      → Allows a
      → IsClean s
      → IsClean (received_media s validator header payload a).0
  unfolding received_media
  received_media-IsClean s none header payload a p c = c
  received_media-IsClean s (some v) header payload a p c = go (validate_header v header)
    where
      go :
          (checked : Result MediaError ValidatedMediaHeader)
          → CleanRound (elim checked [
            | ok pending ↦ finished s a (finish_record v pending payload)
            | err e ↦ (s, returned (err (refused e)))
          ])
      go (ok pending) = finished-IsClean s a (finish_record v pending payload) p c
      go (err e) = c

  handle-IsClean :
      (s : ServiceOutput) (i : Received) (a : Answers)
      → Allows a
      → IsClean s
      → IsClean (handle s i a).0
  unfolding handle
  handle-IsClean s (input (ok (some (control d)))) a p c = command-IsClean s d a p c
  handle-IsClean s (input (ok (some (media header payload)))) a p c =
      received_media-IsClean s s.validator header payload a p c
  handle-IsClean s (input (ok none)) a p c = c
  handle-IsClean s (input (err e)) a p c = c
  handle-IsClean s timeout a p c = c
  handle-IsClean s disconnected a p c = c

  service_round-IsClean :
      (s : ServiceOutput) (i : Received) (a : Answers)
      → Allows a
      → IsClean s
      → IsClean (service_round s i a).0
  unfolding service_round
  service_round-IsClean s i a p c = go (check_health s a)
    where
      go :
          (health : Outcome)
          → CleanRound (elim health [ ok _ ↦ handle s i a | err e ↦ (s, returned (err e)) ])
      go (ok _) = handle-IsClean s i a p c
      go (err e) = c

  pub serve-IsClean :
      (s : ServiceOutput) (ms : List Move) → All Supplies ms → IsClean s → IsClean (serve s ms).0
  unfolding serve
  serve-IsClean s [] p c = c
  serve-IsClean s (meanwhile h ∷ ms) p c =
      serve-IsClean (happen s h) ms p.1 (happen-IsClean s h p.0 c)
  serve-IsClean s (received i a ∷ ms) p c =
      let one = service_round-IsClean s i a p.0 c in
      go (service_round s i a).1 one (serve-IsClean (service_round s i a).0 ms p.1 one)
    where
      go :
          (status : Status)
          → IsClean (service_round s i a).0
          → IsClean (serve (service_round s i a).0 ms).0
          → CleanRound (elim status [
            | running ↦ serve (service_round s i a).0 ms
            | returned outcome ↦ ((service_round s i a).0, returned outcome)
          ])
      go running one rest = rest
      go (returned outcome) one rest = one
