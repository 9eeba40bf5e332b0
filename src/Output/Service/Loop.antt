-- ===== src/Output/Service/Loop.antt =====
-- crates/omacam-output/src/service.rs: `run`, which takes what the reading thread sends, and
-- `shutdown`.
use omalens.Prelude.{
  Bool, true, false, not, Option, none, some, List, [], ◌∷◌, Bytes, Result, ok, err, if◌then◌else◌,
  reject_if,
}
use omalens.Media.Wire.{MediaBinding}
use omalens.Media.Output.{OutputControlCommand, bind, reset, shutdown}
use omalens.Media.Stream.{
  MediaError, MediaRecord, MediaStreamValidator, is_stop, validate_header, finish_record,
}
use omalens.Output.Mux.{Event, round}
use omalens.Output.Input.{ServiceInput, InputError, control, media}
use omalens.Output.Service.{
  ServiceOutput, unbound, stop_unbound, refused, unread, reader_stopped, mux_timed_out,
  pipeline_exited, Outcome, Done, Answers, Happening, happen, check_health, bind_output,
  reset_output, write_record, first_error,
}

-- What `recv_timeout` returns.
pub data Received : Type 0 where
  input : Result InputError (Option ServiceInput) → Received
  timeout disconnected : Received

pub data Status : Type 0 where
  running : Status
  returned : Outcome → Status

abbrev pub Round : Type 0
Round = ServiceOutput × Status

abbrev pub continued : Done → Round
continued (s, ok _) = (s, running)
continued (s, err e) = (s, returned (err e))

unfoldable pub command : ServiceOutput → OutputControlCommand → Answers → Round
command s (bind b) a = continued (bind_output s b a)
command s (reset b) a = continued (reset_output s b a)
command s shutdown a = (s, returned (ok tt))

abbrev pub stop_output : ServiceOutput → Option MediaBinding → Answers → Done
stop_output s none a = (s, err stop_unbound)
stop_output s (some b) a = reset_output s b a

-- After `finish_record`.
abbrev pub finished :
    ServiceOutput → Answers → MediaStreamValidator × Result MediaError MediaRecord → Round
finished s a (v, ok r) =
    let t = record s { validator = some v } in
    continued (if is_stop r.kind then stop_output t s.binding a else write_record t r a)
finished s a (v, err e) = (record s { validator = some v }, returned (err (refused e)))

unfoldable pub received_media :
    ServiceOutput → Option MediaStreamValidator → (header payload : Bytes) → Answers → Round
received_media s none header payload a = (s, returned (err unbound))
received_media s (some v) header payload a = elim (validate_header v header) [
  | ok pending ↦ finished s a (finish_record v pending payload)
  | err e ↦ (s, returned (err (refused e)))
]

unfoldable pub handle : ServiceOutput → Received → Answers → Round
handle s (input (ok (some (control c)))) a = command s c a
handle s (input (ok (some (media header payload)))) a =
    received_media s s.validator header payload a
handle s (input (ok none)) a = (s, returned (ok tt))
handle s (input (err e)) a = (s, returned (err (unread e)))
handle s timeout a = (s, running)
handle s disconnected a = (s, returned (err reader_stopped))

-- A round of the loop.
unfoldable pub service_round : ServiceOutput → Received → Answers → Round
service_round s i a = elim (check_health s a) [
  | ok _ ↦ handle s i a
  | err e ↦ (s, returned (err e))
]

pub data Move : Type 0 where
  meanwhile : Happening → Move
  received : Received → Answers → Move

-- The loop, until it returns.
unfoldable pub serve : ServiceOutput → List Move → Round
serve s [] = (s, running)
serve s (meanwhile h ∷ ms) = serve (happen s h) ms
serve s (received i a ∷ ms) = elim (service_round s i a).1 [
  | running ↦ serve (service_round s i a).0 ms
  | returned outcome ↦ ((service_round s i a).0, returned outcome)
]

abbrev pub reset_bound : ServiceOutput → Option MediaBinding → Answers → Done
reset_bound s none a = (s, ok tt)
reset_bound s (some b) a = reset_output s b a

-- The mux's part of `shutdown`.
abbrev pub mux_closed : ServiceOutput → (running closes : Bool) → Done
mux_closed s false closes = (s, ok tt)
mux_closed s true true = (record s { raw_mux = (round s.format s.raw_mux Event.shutdown).0 }, ok tt)
mux_closed s true false = (s, err mux_timed_out)

abbrev pub ended : Answers → Outcome → Done → Done
ended a was (s, mux_result) =
    (s, first_error was (first_error mux_result (reject_if (not a.pipeline_stops) pipeline_exited)))

unfoldable pub shutdown_service : ServiceOutput → Answers → Done
shutdown_service s a =
    let (t, was) = reset_bound s s.binding a in
    ended a was (mux_closed t t.raw_mux.running a.closes)
