-- ===== src/Worker.antt =====
-- crates/omacam-daemon/src/capture/output_worker.rs: the daemon's end of the pipe to the output
-- process. The pipe is the list of the bytes written to it. How the child is found, and how many bytes
-- a write takes before it fails, are answers that each call is given.
pub mod Pipe
pub mod Agreement
use omalens.Prelude.{
  ◌&&◌, ℕ, Bool, true, false, not, Option, none, some, List, [], ◌++◌, Bytes, Result, ok, err,
  if◌then◌else◌, is_some, is_some_and, take,
}
use omalens.Media.Wire.{MediaBinding, same_binding}
use omalens.Media.Output.{OutputControlCommand, bind, reset, shutdown, write_output_control}
use omalens.Media.Stream.{MediaError, MediaRecord, is_stop}
use omalens.Media.Stream as Stream

pub data WorkerError : Type 0 where
  exited uninspected requires_reset different_generation input_closed stale not_access_unit :
      WorkerError
  write_failed : WorkerError
  unwritable : MediaError → WorkerError

pub record OutputWorker : Type 0 where
  pub input : Option Bytes
  pub current_binding : Option MediaBinding
  pub failure : Option WorkerError

-- `Child::try_wait`.
pub data ChildState : Type 0 where
  child_runs child_exited child_unknown : ChildState

-- `fails_after` is the number of bytes that a failing write takes.
pub record Meets : Type 0 where
  pub child : ChildState
  pub fails_after : Option ℕ

abbrev pub Outcome : Type 0
Outcome = Result WorkerError (Unit {0})

abbrev pub Done : Type 0
Done = OutputWorker × Outcome

-- The end of `spawn_service_with_format`.
unfoldable pub spawned : OutputWorker
spawned = record { input = some []; current_binding = none; failure = none }

abbrev pub failed : OutputWorker → WorkerError → Done
failed w e = (record w { input = none; failure = some e }, err e)

abbrev pub inspected : OutputWorker → ChildState → Done
inspected w child_runs = (w, ok tt)
inspected w child_exited = failed w exited
inspected w child_unknown = failed w uninspected

unfoldable pub check_health : OutputWorker → Meets → Done
check_health w m = elim w.failure [ some e ↦ (w, err e) | none ↦ inspected w m.child ]

-- A step after another that succeeded.
abbrev pub and_then : Done → (OutputWorker → Done) → Done
and_then (w, ok _) next = next w
and_then (w, err e) next = (w, err e)

abbrev pub put : OutputWorker → (written : Bytes) → Option ℕ → Bytes → Done
put w written none bytes = (record w { input = some (written ++ bytes) }, ok tt)
put w written (some n) bytes =
    (record w { input = some (written ++ take n bytes) }, err write_failed)

-- A write to the pipe and its flush.
unfoldable pub send : OutputWorker → Meets → Bytes → Done
send w m bytes = elim w.input [
  | none ↦ (w, err input_closed)
  | some written ↦ put w written m.fails_after bytes
]

abbrev pub rebound : Option MediaBinding → Done → Done
rebound b (w, ok _) = (record w { current_binding = b }, ok tt)
rebound b (w, err e) = (w, err e)

unfoldable pub bind_worker : OutputWorker → MediaBinding → Meets → Done
bind_worker w b m =
    if is_some w.current_binding
    then (w, err requires_reset)
    else and_then (check_health w m)
        (λ v. rebound (some b) (send v m (write_output_control (bind b))))

unfoldable pub reset_worker : OutputWorker → MediaBinding → Meets → Done
reset_worker w b m =
    if is_some_and w.current_binding (λ current. not (same_binding current b))
    then (w, err different_generation)
    else and_then (check_health w m) (λ v.
      rebound none (
        if is_some v.current_binding
        then send v m (write_output_control (reset b))
        else (v, ok tt)))

abbrev pub sent_record : OutputWorker → Meets → Result MediaError Bytes → Done
sent_record w m (ok bytes) = send w m bytes
sent_record w m (err e) = (w, err (unwritable e))

-- `self.current_binding != Some(binding)`.
abbrev pub is_bound_to : Option MediaBinding → MediaBinding → Bool
is_bound_to current b = is_some_and current (λ c. same_binding c b)

-- A closed pipe is found before the record is checked.
unfoldable pub write_worker : OutputWorker → MediaBinding → MediaRecord → Meets → Done
write_worker w b r m = and_then (check_health w m) (λ v.
    if not (is_bound_to v.current_binding b)
    then (v, err stale)
    else if is_stop r.kind
    then (v, err not_access_unit)
    else if not (is_some v.input)
    then (v, err input_closed)
    else sent_record v m (Stream.write_record b r))

-- Errors of the last write are ignored, and the pipe is closed.
unfoldable pub shutdown_worker : OutputWorker → Meets → OutputWorker × Option Bytes
shutdown_worker w m =
    let last =
      if is_some w.input && not (is_some w.failure)
      then (send w m (write_output_control shutdown)).0.input
      else w.input in
    (record w { input = none }, last)
