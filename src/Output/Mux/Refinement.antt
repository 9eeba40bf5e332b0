-- ===== src/Output/Mux/Refinement.antt =====
-- crates/omacam-output/src/mux.rs against `Display`.
use omalens.Prelude.{
  ℕ, ◌≤◌, ◌≡◌, refl, sym, ap, ◌∙◌, Bool, true, false, Option, none, some, List, [], ◌∷◌, ◌++◌,
  arith, Bytes, length, if◌then◌else◌, is_some, ◌⊎◌, inl, inr, length-append,
}
use omalens.Output.Config.{VideoFormat, frame_bytes, black_i420_frame}
use omalens.Output.Mux.{
  RawMux, Event, pushed, cleared, activate, deactivate, shutdown, disconnected, timed_out,
  make_room, push, last, take_latest, refreshed, chosen, tick, round, step, written, spawn,
  written_then, switched,
}
use omalens.Output.Mux.Display.{
  Display, show, visible, refreshed_display, step_display, round_display, written_display,
}

-- Frame and time are kept together, and the queue holds at most two frames of the format's size.
pub record IsMux (f : VideoFormat) (m : RawMux) : Type 0 where
  pub together : is_some m.last_frame ≡ is_some m.last_frame_at
  pub bounded : length m.queue.frames ≤ 2
  pub sized : m.queue.frame_bytes ≡ frame_bytes f

abbrev pair : Option Bytes → Option ℕ → Option (Bytes × ℕ)
pair (some frame) (some at) = some (frame, at)
pair _ _ = none

-- What a mux shows.
abbrev pub display : RawMux → Display
display m = record {
  active = m.active;
  latest = last m.queue.frames;
  shown = pair m.last_frame m.last_frame_at;
  running = m.running;
}

length-make_room : (xs : List Bytes) → length (make_room xs) ≤ 1
unfolding make_room
length-make_room [] = omega arith
length-make_room (x ∷ xs) = ground (arith, length-make_room xs)

last-append : (xs : List Bytes) (x : Bytes) → last (xs ++ x ∷ []) ≡ some x
last-append [] x = refl
last-append (y ∷ []) x = refl
last-append (y ∷ z ∷ ys) x = last-append (z ∷ ys) x

pub spawn-IsMux : (f : VideoFormat) (now : ℕ) → IsMux f (spawn f now)
unfolding spawn
spawn-IsMux f now = record { together = refl; bounded = omega arith; sized = refl }

module _ (f : VideoFormat) where
  pub switched-IsMux : (m : RawMux) (active : Bool) → IsMux f m → IsMux f (switched m active)
  switched-IsMux m active v = ground arith

  pub step-IsMux : (m : RawMux) (e : Event) → IsMux f m → IsMux f (step f m e).0
  unfolding step round tick refreshed take_latest push
  step-IsMux m (pushed frame) v = ground (
    arith,
    length-make_room m.queue.frames,
    length-append (make_room m.queue.frames) (frame ∷ []),
  )
  step-IsMux m cleared v = ground arith
  step-IsMux m activate v = ground arith
  step-IsMux m deactivate v = ground arith
  step-IsMux m shutdown v = ground arith
  step-IsMux m disconnected v = ground arith
  step-IsMux m (timed_out now true) v = ground arith
  step-IsMux m (timed_out now false) v = ground arith

  refreshed-display :
      (m : RawMux) (now : ℕ) → display (refreshed m now) ≡ refreshed_display (display m) now
  unfolding refreshed take_latest
  refreshed-display m now = ground arith

  refreshed-together :
      (m : RawMux) (now : ℕ)
      → is_some m.last_frame ≡ is_some m.last_frame_at
      → is_some (refreshed m now).last_frame ≡ is_some (refreshed m now).last_frame_at
  unfolding refreshed take_latest
  refreshed-together m now h = ground arith

  refreshed-running : (m : RawMux) (now : ℕ) → (refreshed m now).running ≡ m.running
  unfolding refreshed take_latest
  refreshed-running m now = ground arith

  chosen-visible :
      (m : RawMux) (now : ℕ)
      → is_some m.last_frame ≡ is_some m.last_frame_at
      → chosen f m now ≡ (if m.active then visible f (display m).shown now else black_i420_frame f)
  unfolding chosen
  chosen-visible m now h = ground arith

  tick-display :
      (m : RawMux) (now : ℕ)
      → is_some m.last_frame ≡ is_some m.last_frame_at
      → (display (tick f m now true).0 ≡ (show f (refreshed_display (display m) now) now true).0)
        × ((tick f m now true).1 ≡ (show f (refreshed_display (display m) now) now true).1)
  unfolding tick
  tick-display m now h =
      let same = refreshed-display m now in
      (
        same,
        ap some (
            chosen-visible (refreshed m now) now (refreshed-together m now h)
            ∙ ap (λ (d : Display). if d.active then visible f d.shown now else black_i420_frame f)
                same),
      )

  -- A step of the mux is the same step of what it shows, with the same frame written.
  step-display :
      (m : RawMux) (e : Event)
      → IsMux f m
      → (display (step f m e).0 ≡ (step_display f (display m) e).0)
        × ((step f m e).1 ≡ (step_display f (display m) e).1)
  unfolding step round tick refreshed take_latest push step_display round_display
  step-display m (pushed frame) v = ground (arith, last-append (make_room m.queue.frames) frame)
  step-display m cleared v = ground arith
  step-display m activate v = ground arith
  step-display m deactivate v = ground arith
  step-display m shutdown v = ground arith
  step-display m disconnected v = ground arith
  step-display m (timed_out now true) v = go m.running
    where
      go :
          (b : Bool)
          → (display (if b then tick f m now true else (m, none)).0
              ≡ (if b
                  then show f (refreshed_display (display m) now) now true
                  else (display m, none)).0)
            × ((if b then tick f m now true else (m, none)).1
                ≡ (if b
                    then show f (refreshed_display (display m) now) now true
                    else (display m, none)).1)
      go true = tick-display m now v.together
      go false = (refl, refl)
  step-display m (timed_out now false) v = ground arith

  -- For every history of pushes, clears, commands and ticks, the frames that the mux writes, with its
  -- queue of two frames that drops the oldest, are those of the display that keeps only the latest
  -- frame.
  pub written-written_display :
      (m : RawMux) (es : List Event) → IsMux f m → written f m es ≡ written_display f (display m) es
  unfolding written written_display
  written-written_display m [] v = refl
  written-written_display m (e ∷ es) v =
      let (next, out) = step-display m e v in
      let rest = written-written_display (step f m e).0 es (step-IsMux m e v) in
      rw (out, rest, next)

  switched-display :
      (c d : Display) (e : Event)
      → c.running ≡ true
      → d.running ≡ true
      → (e ≡ activate) ⊎ (e ≡ deactivate)
      → step_display f c e ≡ step_display f d e
  unfolding step_display round_display
  switched-display c d e rc rd (inl s) = rw s (simp (rc, rd))
  switched-display c d e rc rd (inr s) = rw s (simp (rc, rd))

  -- After a switch to active or to inactive, what a running mux writes does not depend on anything
  -- that was pushed, shown or switched before it: two muxes of one format write the same frames from
  -- then on.
  switch_forgets :
      (m n : RawMux) (e : Event) (es : List Event)
      → IsMux f m
      → IsMux f n
      → m.running ≡ true
      → n.running ≡ true
      → (e ≡ activate) ⊎ (e ≡ deactivate)
      → written f m (e ∷ es) ≡ written f n (e ∷ es)
  unfolding written_display
  switch_forgets m n e es v w rm rn sw =
      written-written_display m (e ∷ es) v
      ∙ (ap (λ (x : Display × Option Bytes). written_then x.1 (written_display f x.0 es))
            (switched-display (display m) (display n) e rm rn sw)
          ∙ sym (written-written_display n (e ∷ es) w))
