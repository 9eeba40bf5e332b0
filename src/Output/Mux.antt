-- ===== src/Output/Mux.antt =====
-- crates/omacam-output/src/mux.rs: the queue of decoded frames and the thread that writes one frame
-- for each tick. The queue is shared: another thread may push or clear between two rounds of the
-- loop, so a history is a list of events. Times are in nanoseconds.
pub mod Display
pub mod Refinement
pub mod Frames
use omalens.Prelude.{
  ℕ, ◌+◌, ◌-◌, ◌*◌, ◌<◌, Bool, true, false, not, ◌&&◌, Option, none, some, List, [], ◌∷◌, ◌++◌,
  Bytes, ◌==◌, leb, ltb, length, is_some_and, if◌then◌else◌,
}
use omalens.Output.Config.{
  VideoFormat, raw_frame_queue_capacity, stale_frame_limit, frame_bytes, frame_interval,
  black_i420_frame,
}

pub record RawFrameQueue : Type 0 where
  pub frames : List Bytes
  pub frame_bytes : ℕ

-- `while frames.len() >= RAW_FRAME_QUEUE_CAPACITY { frames.pop_front(); }`.
unfoldable pub make_room : List Bytes → List Bytes
make_room [] = []
make_room (x ∷ xs) = elim (leb raw_frame_queue_capacity (length (x ∷ xs))) [
  | true ↦ make_room xs
  | false ↦ x ∷ xs
]

unfoldable pub push : RawFrameQueue → Bytes → RawFrameQueue
push q frame =
    if not (length frame == q.frame_bytes)
    then q
    else record q { frames = make_room q.frames ++ frame ∷ [] }

abbrev pub clear : RawFrameQueue → RawFrameQueue
clear q = record q { frames = [] }

-- `pop_back` of a deque.
abbrev pub last : List Bytes → Option Bytes
last [] = none
last (x ∷ []) = some x
last (x ∷ y ∷ ys) = last (y ∷ ys)

unfoldable pub take_latest : RawFrameQueue → RawFrameQueue × Option Bytes
take_latest q = (clear q, last q.frames)

-- The queue, the variables of `run_raw_mux`, and what is left of the thread when it returned.
pub record RawMux : Type 0 where
  pub queue : RawFrameQueue
  pub active : Bool
  pub last_frame : Option Bytes
  pub last_frame_at : Option ℕ
  pub next_tick : ℕ
  pub running : Bool
  pub failed : Bool

unfoldable pub spawn : VideoFormat → (now : ℕ) → RawMux
spawn f now = record {
  queue = record { frames = []; frame_bytes = frame_bytes f };
  active = false;
  last_frame = none;
  last_frame_at = none;
  next_tick = now;
  running = true;
  failed = false;
}

-- What happens between two rounds of the loop, and what `recv_timeout` returns in a round.
-- `timed_out` carries the time and whether the frame could be written.
pub data Event : Type 0 where
  pushed : Bytes → Event
  cleared activate deactivate shutdown disconnected : Event
  timed_out : (now : ℕ) (write_ok : Bool) → Event

-- `if active && let Some(frame) = frames.take_latest()`.
unfoldable pub refreshed : RawMux → (now : ℕ) → RawMux
refreshed m now = elim m.active [
  | false ↦ m
  | true ↦
      let (q, latest) = take_latest m.queue in
      elim latest [
        | none ↦ record m { queue = q }
        | some frame ↦ record m { queue = q; last_frame = some frame; last_frame_at = some now }
      ]
]

-- 400 ms, in nanoseconds.
abbrev pub is_fresh : (now at : ℕ) → Bool
is_fresh now at = ltb (now - at) (stale_frame_limit * 1_000_000)

abbrev pub frame_or : Option Bytes → Bytes → Bytes
frame_or none neutral = neutral
frame_or (some frame) neutral = frame

unfoldable pub chosen : VideoFormat → RawMux → (now : ℕ) → Bytes
chosen f m now =
    if m.active && is_some_and m.last_frame_at (λ at. is_fresh now at)
    then frame_or m.last_frame (black_i420_frame f)
    else black_i420_frame f

-- The arm of a timeout. A failed write ends the thread.
unfoldable pub tick : VideoFormat → RawMux → (now : ℕ) (write_ok : Bool) → RawMux × Option Bytes
tick f m now true = (
  record (refreshed m now) { next_tick = now + frame_interval f },
  some (chosen f (refreshed m now) now),
)
tick f m now false = (record (refreshed m now) { running = false; failed = true }, none)

-- The arms of Activate and Deactivate.
abbrev pub switched : RawMux → Bool → RawMux
switched m active = record m {
  queue = clear m.queue;
  active = active;
  last_frame = none;
  last_frame_at = none;
}

-- A round of the loop, and the frame that it wrote.
unfoldable pub round : VideoFormat → RawMux → Event → RawMux × Option Bytes
round f m (pushed frame) = (m, none)
round f m cleared = (m, none)
round f m activate = (switched m true, none)
round f m deactivate = (switched m false, none)
round f m shutdown = (record m { queue = clear m.queue; running = false }, none)
round f m disconnected = (record m { running = false }, none)
round f m (timed_out now write_ok) = tick f m now write_ok

-- The queue may be used when the thread has ended.
unfoldable pub step : VideoFormat → RawMux → Event → RawMux × Option Bytes
step f m (pushed frame) = (record m { queue = push m.queue frame }, none)
step f m cleared = (record m { queue = clear m.queue }, none)
step f m e = if m.running then round f m e else (m, none)

-- The frames written in a history.
abbrev pub written_then : Option Bytes → List Bytes → List Bytes
written_then none frames = frames
written_then (some frame) frames = frame ∷ frames

unfoldable pub written : VideoFormat → RawMux → List Event → List Bytes
written f m [] = []
written f m (e ∷ es) = written_then (step f m e).1 (written f (step f m e).0 es)

unfoldable pub run : VideoFormat → RawMux → List Event → RawMux
run f m [] = m
run f m (e ∷ es) = run f (step f m e).0 es
