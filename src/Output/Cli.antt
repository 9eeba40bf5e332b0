-- ===== src/Output/Cli.antt =====
-- crates/omacam-output/src/cli.rs: the command line, up to the work that it selects. Text is its bytes,
-- and `str::parse` at usize and u64 are parameters.
pub mod Backend
use mathlib.Core.List.{append-nil}
use omalens.Prelude.{
  ℕ, ◌≡◌, refl, ap, sym, ◌∙◌, Bool, true, false, not, ◌&&◌, ◌||◌, Option, none, some, List, [], ◌∷◌,
  ◌++◌, Bytes, codes, bytes_eq, bytes_eq_refl, is_some, if◌then◌else◌, Result, ok, err, ◌>>=◌,
  ok_or, arith, All,
}
use omalens.Media.Wire.{MediaBinding}
use omalens.Media.Stream.{MediaError}
use omalens.Media.Hex.{peer_from_hex, connection_from_hex, session_from_hex}
use omalens.Output.Config.{
  OutputBackend, v4l2, pipe_wire, ConfigError, VideoFormat, parse_backend, parse,
}

pub data CliError : Type 0 where
  backend_twice backend_missing : CliError
  invalid_backend : ConfigError → CliError

-- What is left of the arguments, and the backend that was named.
abbrev pub Extracted : Type 0
Extracted = Result CliError (List Bytes × Option OutputBackend)

abbrev pub kept_argument : Bytes → Extracted → Extracted
kept_argument arg (ok (rest, selected)) = ok (arg ∷ rest, selected)
kept_argument arg (err e) = err e

abbrev pub selecting : Result ConfigError OutputBackend → (OutputBackend → Extracted) → Extracted
selecting (ok backend) next = next backend
selecting (err e) next = err (invalid_backend e)

abbrev pub backend_flag : Bytes
backend_flag = codes "--backend"

-- The loop; the index goes forward by one or by two.
unfoldable pub extract : List Bytes → (selected : Option OutputBackend) → Extracted
extract [] selected = ok ([], selected)
extract (arg ∷ []) selected =
    if bytes_eq arg backend_flag
    then (if is_some selected then err backend_twice else err backend_missing)
    else ok (arg ∷ [], selected)
extract (arg ∷ value ∷ rest) selected = elim (bytes_eq arg backend_flag) [
  | true ↦ elim (is_some selected) [
    | true ↦ err backend_twice
    | false ↦ selecting (parse_backend value) (λ backend. extract rest (some backend))
  ]
  | false ↦ kept_argument arg (extract (value ∷ rest) selected)
]

abbrev pub or_default : Option OutputBackend → OutputBackend → OutputBackend
or_default none default = default
or_default (some backend) default = backend

-- The argument of `unwrap_or` is computed, and may fail, whether it is needed or not.
abbrev pub with_default :
    Extracted → Result ConfigError OutputBackend → Result CliError (List Bytes × OutputBackend)
with_default (err e) default = err e
with_default (ok (rest, selected)) (ok default) = ok (rest, or_default selected default)
with_default (ok (rest, selected)) (err e) = err (invalid_backend e)

unfoldable pub extract_backend_option :
    List Bytes → (environment : Bytes) → Result CliError (List Bytes × OutputBackend)
extract_backend_option args environment =
    with_default (extract args none) (parse_backend environment)

-- `args[len - 2] == "--preview-socket"`.
unfoldable pub split_preview_option : List Bytes → List Bytes × Option Bytes
split_preview_option [] = ([], none)
split_preview_option (x ∷ []) = (x ∷ [], none)
split_preview_option (flag ∷ path ∷ []) =
    if bytes_eq flag (codes "--preview-socket") then ([], some path) else (flag ∷ path ∷ [], none)
split_preview_option (x ∷ y ∷ z ∷ rest) =
    let (args, preview) = split_preview_option (y ∷ z ∷ rest) in (x ∷ args, preview)

pub data BindingError : Type 0 where
  identifier : MediaError → BindingError
  generation_not_integer : BindingError

abbrev pub identified {ℓ} : {A : Type ℓ} → Result MediaError A → Result BindingError A
identified (ok a) = ok a
identified (err e) = err (identifier e)

-- What the command line selects, or why it is refused with exit code 2.
pub data Action : Type 0 where
  probe : OutputBackend → Action
  help : Action
  write_device : (device : Bytes) → Option MediaBinding → (preview : Option Bytes) → Action
  serve_device : (device : Bytes) → (preview : Option Bytes) → VideoFormat → OutputBackend → Action
  service_only usage : Action
  invalid_format : ConfigError → Action
  invalid_binding : BindingError → Action

abbrev pub is_pipe_wire : OutputBackend → Bool
is_pipe_wire pipe_wire = true
is_pipe_wire v4l2 = false

abbrev pub serving :
    (device : Bytes)
    → (preview : Option Bytes) → OutputBackend
    → Result ConfigError VideoFormat
    → Action
serving device preview backend (ok format) = serve_device device preview format backend
serving device preview backend (err e) = invalid_format e

abbrev pub writing :
    (device : Bytes) → (preview : Option Bytes) → Result BindingError MediaBinding → Action
writing device preview (ok b) = write_device device (some b) preview
writing device preview (err e) = invalid_binding e

module _ (parse_usize parse_u64 : Bytes → Option ℕ) where
  unfoldable pub parse_media_binding :
      (peer connection session generation : Bytes) → Result BindingError MediaBinding
  parse_media_binding peer connection session generation = do
    peer_identity ← identified (peer_from_hex peer)
    control_connection_id ← identified (connection_from_hex connection)
    media_session_id ← identified (session_from_hex session)
    number ← ok_or (parse_u64 generation) generation_not_integer
    ok (record {
      peer_identity = peer_identity;
      control_connection_id = control_connection_id;
      media_session_id = media_session_id;
      generation = number;
    })

  -- The arm of the eleven arguments, and the last one.
  abbrev pub framed : List Bytes → OutputBackend → (preview : Option Bytes) → Action
  framed
        (flag ∷ device ∷ media ∷ peer_flag ∷ peer ∷ connection_flag ∷ connection ∷ session_flag
          ∷ session ∷ generation_flag ∷ generation ∷ [])
        backend preview =
      if bytes_eq flag (codes "--device")
        && (bytes_eq media (codes "--framed-h264-stdin")
            && (bytes_eq peer_flag (codes "--peer")
                && (bytes_eq connection_flag (codes "--connection")
                    && (bytes_eq session_flag (codes "--session")
                        && bytes_eq generation_flag (codes "--generation")))))
      then (if is_pipe_wire backend
          then service_only
          else writing device preview (parse_media_binding peer connection session generation))
      else usage
  framed _ backend preview = usage

  abbrev pub served :
      Bytes → List Bytes → OutputBackend → (preview : Option Bytes) → Action → Action
  served first format backend preview other =
      if bytes_eq first (codes "--service-stdin") && is_pipe_wire backend
      then serving [] preview backend (parse parse_usize format)
      else other

  -- The `match` on the arguments that are left.
  unfoldable pub dispatch : List Bytes → OutputBackend → (preview : Option Bytes) → Action
  dispatch [] backend preview = usage
  dispatch (flag ∷ []) backend preview =
      if bytes_eq flag (codes "--probe")
      then probe backend
      else if bytes_eq flag (codes "--help") || bytes_eq flag (codes "-h")
      then help
      else served flag [] backend preview usage
  dispatch (flag ∷ device ∷ []) backend preview =
      if bytes_eq flag (codes "--device")
      then (if is_pipe_wire backend then service_only else write_device device none preview)
      else served flag (device ∷ []) backend preview usage
  dispatch (flag ∷ device ∷ third ∷ rest) backend preview =
      if bytes_eq flag (codes "--device") && bytes_eq third (codes "--service-stdin")
      then serving device preview backend (parse parse_usize rest)
      else served flag (device ∷ third ∷ rest) backend preview
          (framed (flag ∷ device ∷ third ∷ rest) backend preview)

  abbrev pub selected_action : Result CliError (List Bytes × OutputBackend) → Result CliError Action
  selected_action (ok (args, backend)) =
      ok (dispatch (split_preview_option args).0 backend (split_preview_option args).1)
  selected_action (err e) = err e

  unfoldable pub command_line : List Bytes → (environment : Bytes) → Result CliError Action
  command_line args environment = selected_action (extract_backend_option args environment)
