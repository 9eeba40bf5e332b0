-- ===== src/Output/Service.antt =====
-- crates/omacam-output/src/service.rs: the service that keeps the raw pipeline, and a decoder for each
-- generation. Other processes, and what happens meanwhile, are answers that each call is given. The
-- frames written to the raw pipeline, and the payloads written to the decoder, are kept with them,
-- the latest first. Errors are data; where the source joins two messages, the first is kept.
pub mod Loop
pub mod Steps
pub mod Invariant
pub mod Rounds
pub mod Clean
pub mod Isolation
pub mod Accepts
use omalens.Prelude.{
  ℕ, Bool, true, false, not, ◌&&◌, Option, none, some, List, [], ◌∷◌, Bytes, Result, ok, err,
  if◌then◌else◌, is_some, is_some_and, reject_if, ◌>>◌,
}
use omalens.Media.Wire.{MediaBinding, same_binding}
use omalens.Media.Output.{OutputControlCommand, bind, reset, shutdown}
use omalens.Media.Stream.{
  MediaError, MediaRecord, MediaRecordKind, h264_access_unit, stop, MediaStreamValidator,
  ValidatedMediaHeader, validate_header, finish_record, new,
}
use omalens.Output.Config.{VideoFormat}
use omalens.Output.Mux.{RawMux, RawFrameQueue, clear, pushed, timed_out, step, spawn, switched}
use omalens.Output.Input.{ServiceInput, InputError, control, media}

pub record ServiceOutput : Type 0 where
  pub raw_pipeline : List Bytes
  pub raw_mux : RawMux
  pub decoder : Option (List Bytes)
  pub binding : Option MediaBinding
  pub validator : Option MediaStreamValidator
  pub format : VideoFormat

pub data ServiceError : Type 0 where
  mux_stopped pipeline_exited decoder_exited decoder_unavailable decoder_cleanup : ServiceError
  mux_timed_out bind_requires_reset different_generation unbound stop_unbound : ServiceError
  write_failed reader_stopped : ServiceError
  refused : MediaError → ServiceError
  unread : InputError → ServiceError

abbrev pub Outcome : Type 0
Outcome = Result ServiceError (Unit {0})

-- What the decoder's pump and the mux's clock do between the steps of the service.
pub data Happening : Type 0 where
  decoded : Bytes → Happening
  ticked : (now : ℕ) (write_ok : Bool) → Happening

-- What a call meets: the state of the two children, whether a decoder starts, whether the mux answers
-- in two seconds, whether the decoder is reaped and takes a write, whether the mux
-- answers to Shutdown, whether the pipeline is reaped; and what happens before the mux
-- takes a command, and until the decoder is stopped.
pub record Answers : Type 0 where
  pub pipeline_runs : Bool
  pub decoder_runs : Bool
  pub decoder_spawns : Bool
  pub acknowledged : Bool
  pub decoder_stops : Bool
  pub writes : Bool
  pub closes : Bool
  pub pipeline_stops : Bool
  pub early : List Happening
  pub late : List Happening

unfoldable pub spawn_service : VideoFormat → (now : ℕ) → ServiceOutput
spawn_service f now = record {
  raw_pipeline = [];
  raw_mux = spawn f now;
  decoder = none;
  binding = none;
  validator = none;
  format = f;
}

-- A frame arrives only from a decoder.
abbrev pub pump : Option (List Bytes) → RawMux → RawMux → RawMux
pump none before after = before
pump (some _) before after = after

abbrev pub logged : Option Bytes → List Bytes → List Bytes
logged none frames = frames
logged (some frame) frames = frame ∷ frames

unfoldable pub happen : ServiceOutput → Happening → ServiceOutput
happen s (decoded frame) = record s {
  raw_mux = pump s.decoder s.raw_mux (step s.format s.raw_mux (pushed frame)).0;
}
happen s (ticked now write_ok) = record s {
  raw_mux = (step s.format s.raw_mux (timed_out now write_ok)).0;
  raw_pipeline = logged (step s.format s.raw_mux (timed_out now write_ok)).1 s.raw_pipeline;
}

unfoldable pub happen_all : ServiceOutput → List Happening → ServiceOutput
happen_all s [] = s
happen_all s (h ∷ hs) = happen_all (happen s h) hs

-- `RawMux::check_health`: an error is kept by a thread that then has ended.
abbrev pub mux_health : RawMux → Outcome
mux_health m = reject_if (not m.running) mux_stopped

unfoldable pub check_health : ServiceOutput → Answers → Outcome
check_health s a = do
  mux_health s.raw_mux
  reject_if (not a.pipeline_runs) pipeline_exited
  reject_if (is_some s.decoder && not a.decoder_runs) decoder_exited

abbrev pub Done : Type 0
Done = ServiceOutput × Outcome

-- `?` after a call that does not change the state.
abbrev pub guarded : ServiceOutput → Outcome → Done → Done
guarded s (ok _) next = next
guarded s (err e) next = (s, err e)

-- `RawMux::activate` and `deactivate`: the queue is cleared, the command is sent, and the answer is
-- awaited; the thread may end before it takes the command.
abbrev pub commanded : ServiceOutput → (active taken : Bool) → Done
commanded s active true = (record s { raw_mux = switched s.raw_mux active }, ok tt)
commanded s active false = (s, err mux_timed_out)

unfoldable pub cleared_queue : ServiceOutput → ServiceOutput
cleared_queue s = record s { raw_mux = record s.raw_mux { queue = clear s.raw_mux.queue } }

unfoldable pub send_command : ServiceOutput → (active : Bool) → Answers → Done
send_command s active a =
    let t = happen_all (cleared_queue s) a.early in
    guarded (cleared_queue s) (mux_health s.raw_mux)
      (commanded t active (a.acknowledged && t.raw_mux.running))

-- The end of `bind`; on an error the new decoder is stopped.
abbrev pub bound : Option (List Bytes) → MediaBinding → Done → Done
bound old b (s, ok _) =
    (record s { decoder = some []; binding = some b; validator = some (new b) }, ok tt)
bound old b (s, err e) = (record s { decoder = old }, err e)

unfoldable pub bind_output : ServiceOutput → MediaBinding → Answers → Done
bind_output s b a =
    if is_some s.binding
    then (s, err bind_requires_reset)
    else guarded s (check_health s a) (
        if a.decoder_spawns
        then bound s.decoder b (send_command (record s { decoder = some [] }) true a)
        else (s, err decoder_unavailable))

abbrev pub unbound_output : ServiceOutput → ServiceOutput
unbound_output s = record (cleared_queue s) { decoder = none; binding = none; validator = none }

-- The first error of two.
abbrev pub first_error : Outcome → Outcome → Outcome
first_error (err e) next = err e
first_error (ok _) next = next

-- The end of `reset`, after the mux was told.
abbrev pub detached : Option (List Bytes) → Answers → Done → Done
detached decoder a (s, deactivated) = (
  unbound_output (happen_all s a.late),
  first_error deactivated (reject_if (is_some decoder && not a.decoder_stops) decoder_cleanup),
)

unfoldable pub reset_output : ServiceOutput → MediaBinding → Answers → Done
reset_output s b a =
    if is_some_and s.binding (λ current. not (same_binding current b))
    then (s, err different_generation)
    else detached s.decoder a (send_command s false a)

-- `DecoderProcess::write`, to the decoder that is bound.
abbrev pub decode : ServiceOutput → Option (List Bytes) → Bytes → (writes : Bool) → Done
decode s none payload writes = (s, err unbound)
decode s (some payloads) payload true = (record s { decoder = some (payload ∷ payloads) }, ok tt)
decode s (some payloads) payload false = (s, err write_failed)

unfoldable pub write_record : ServiceOutput → MediaRecord → Answers → Done
write_record s r a = guarded s (check_health s a) (decode s s.decoder r.payload a.writes)
