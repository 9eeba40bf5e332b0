-- ===== src/Tests/Output.antt =====
-- A small output: frames of 2 by 2 pixels, a generation that is bound, decoded and reset.
use omalens.Media.Wire.{same_binding}
use omalens.Prelude.{
  ℕ, ◌+◌, ◌-◌, ◌*◌, ◌≤◌, ◌≡◌, refl, true, false, ◌&&◌, Option, none, some, List, [], ◌∷◌, ◌++◌, map,
  arith, Bytes, bytes_eq, codes, leb, length, ok, err, All,
}
use omalens.Media.Output.{bind, write_output_control}
use omalens.Media.Stream.Reading.{byte}
use omalens.Output.Config.{
  VideoFormat, v4l2, pipe_wire, parse_backend, parse, parse_numbers, frame_bytes, frame_interval,
  black_i420_frame,
}
use omalens.Output.Config.Bounds.{parse-bounds}
use omalens.Output.Mux.{
  chosen, Event, pushed, activate, timed_out, spawn, written, step, round, tick, refreshed,
  take_latest, push, make_room,
}
use omalens.Output.Mux.Display.{written_display}
use omalens.Output.Mux.Refinement.{display, spawn-IsMux, written-written_display}
use omalens.Output.Mux.Frames.{NeutralOr}
use omalens.Output.Input.{control, read_service_input}
use omalens.Output.Input.RoundTrip.{read_service_input-write_output_control}
use omalens.Output.Forward.{Forwarded, forward_media, forward_media_ends}
use omalens.Output.Cli.{extract_backend_option, backend_flag, backend_missing, backend_twice}
use omalens.Output.Cli.Backend.{extract_backend_option_lem}
use omalens.Output.Service.{
  ServiceOutput, Answers, decoded, ticked, spawn_service, bind_output, reset_output, send_command,
  check_health, cleared_queue, happen, happen_all,
}
use omalens.Output.Service.Loop.{
  input, running, Move, meanwhile, received, serve, service_round, handle, command,
}
use omalens.Output.Service.Invariant.{IsService}
use omalens.Output.Service.Rounds.{spawn_service-IsService, serve-IsService}
use omalens.Output.Service.Isolation.{from_now_on, reset_isolates}
use omalens.Tests.Media.{binding, binding-IsBinding, fresh}

abbrev digits : ℕ → Bytes → Option ℕ
digits n [] = some n
digits n (b ∷ bs) = elim (leb b'0' b && leb b b'9') [
  | true ↦ digits (n * 10 + (b - b'0')) bs
  | false ↦ none
]

abbrev vga : VideoFormat
vga = record { width = 640; height = 480; fps = 30 }

abbrev vga_args : List Bytes
vga_args =
    codes "--width" ∷ codes "640" ∷ codes "--height" ∷ codes "480" ∷ codes "--fps" ∷ codes "30" ∷ []

vga_parsed : parse (digits 0) vga_args ≡ ok vga
unfolding parse parse_numbers bytes_eq
vga_parsed = refl

parse-bounds_example :
    (115_200 ≤ frame_bytes vga)
    × (frame_bytes vga ≤ 12_441_600)
    × (frame_bytes vga * 2 ≡ 640 * 480 * 3)
    × (16_666_666 ≤ frame_interval vga)
    × (frame_interval vga ≤ 66_666_666)
    × (length (black_i420_frame vga) ≡ frame_bytes vga)
parse-bounds_example = parse-bounds (digits 0) vga_args vga vga_parsed

abbrev pub tiny : VideoFormat
tiny = record { width = 2; height = 2; fps = 30 }

abbrev frame : Bytes
frame = 1 ∷ 2 ∷ 3 ∷ 4 ∷ 5 ∷ 6 ∷ []

abbrev events : List Event
events = activate ∷ pushed frame ∷ timed_out 5 true ∷ []

written-written_display_example :
    written tiny (spawn tiny 0) events ≡ written_display tiny (display (spawn tiny 0)) events
written-written_display_example =
    written-written_display tiny (spawn tiny 0) events (spawn-IsMux tiny 0)

written_frame : written tiny (spawn tiny 0) events ≡ frame ∷ []
unfolding written step round tick spawn refreshed take_latest push make_room frame_bytes chosen
written_frame = refl

read_service_input-write_output_control_example :
    read_service_input (map byte (write_output_control (bind binding)) ++ byte 1 ∷ [])
    ≡ (ok (some (control (bind binding))), byte 1 ∷ [])
read_service_input-write_output_control_example =
    read_service_input-write_output_control (bind binding) (byte 1 ∷ [])
      (binding-IsBinding, ground arith)

forward_media_ends_example :
    (result : Forwarded) × (forward_media (λ payload. true) 3 fresh (byte 79 ∷ byte 77 ∷ [])
      ≡ some result)
forward_media_ends_example =
    forward_media_ends (λ payload. true) 3 fresh (byte 79 ∷ byte 77 ∷ []) (omega arith)

pipewire_named : parse_backend (codes "pipewire") ≡ ok pipe_wire
unfolding parse_backend bytes_eq
pipewire_named = refl

v4l2_named : parse_backend (codes "v4l2") ≡ ok v4l2
unfolding parse_backend bytes_eq
v4l2_named = refl

extract_backend_option_lem_example :
    let probe = codes "--probe" in
    (extract_backend_option (probe ∷ backend_flag ∷ codes "pipewire" ∷ []) (codes "v4l2")
      ≡ ok (probe ∷ [], pipe_wire))
    × (extract_backend_option (probe ∷ []) (codes "v4l2") ≡ ok (probe ∷ [], v4l2))
    × (extract_backend_option (probe ∷ backend_flag ∷ []) (codes "v4l2") ≡ err backend_missing)
    × ((rest : List Bytes)
        → extract_backend_option
            (probe ∷ backend_flag ∷ codes "pipewire" ∷ backend_flag ∷ rest)
            (codes "v4l2")
          ≡ err backend_twice)
unfolding bytes_eq
extract_backend_option_lem_example =
    extract_backend_option_lem (codes "--probe" ∷ []) [] (codes "pipewire") (codes "v4l2") pipe_wire
      v4l2 (refl, tt) tt pipewire_named v4l2_named

abbrev pub answers : Answers
answers = record {
  pipeline_runs = true;
  decoder_runs = true;
  decoder_spawns = true;
  acknowledged = true;
  decoder_stops = true;
  writes = true;
  closes = true;
  pipeline_stops = true;
  early = [];
  late = decoded frame ∷ [];
}

abbrev bound_moves : List Move
bound_moves =
    received (input (ok (some (control (bind binding))))) answers
    ∷ meanwhile (decoded frame)
    ∷ meanwhile (ticked 3 true)
    ∷ []

bound_runs : (serve (spawn_service tiny 0) bound_moves).1 ≡ running
unfolding serve service_round handle command bind_output send_command check_health cleared_queue
    happen_all happen spawn_service spawn step round tick
bound_runs = refl

serve-IsService_example : IsService (serve (spawn_service tiny 0) bound_moves).0
serve-IsService_example =
    serve-IsService (spawn_service tiny 0) bound_moves (spawn_service-IsService tiny 0) bound_runs

abbrev bound_service : ServiceOutput
bound_service = (serve (spawn_service tiny 0) bound_moves).0

bound_service-IsService : IsService bound_service
bound_service-IsService =
    serve-IsService (spawn_service tiny 0) bound_moves (spawn_service-IsService tiny 0) bound_runs

reset_done : (reset_output bound_service binding answers).1 ≡ ok tt
unfolding reset_output serve service_round handle command bind_output send_command check_health
    cleared_queue happen_all happen spawn_service spawn step round tick same_binding bytes_eq
    refreshed take_latest push frame_bytes make_room
reset_done = refl

abbrev IsFrame : Bytes → Type 0
IsFrame x = x ≡ frame

reset_isolates_example :
    let t = from_now_on IsFrame (reset_output bound_service binding answers).0 in
    All (NeutralOr (serve t bound_moves).0.format IsFrame) (serve t bound_moves).0.raw_pipeline
reset_isolates_example =
    reset_isolates IsFrame bound_service binding answers bound_moves bound_service-IsService
      reset_done ((tt, (refl, tt)), (refl, (tt, tt)))
