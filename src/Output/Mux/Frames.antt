-- ===== src/Output/Mux/Frames.antt =====
-- crates/omacam-output/src/mux.rs: the frames that a mux holds, and those that it writes.
use omalens.Prelude.{
  ◌==◌, not, ◌&&◌, leb, length, is_some_and, if_both, ℕ, ◌≡◌, refl, ◌⊎◌, inl, inr, Bool, true,
  false, Option, none, some, List, [], ◌∷◌, ◌++◌, Bytes, All,
}
use omalens.Output.Config.{raw_frame_queue_capacity, VideoFormat, black_i420_frame}
use omalens.Output.Mux.{
  clear, RawMux, RawFrameQueue, pushed, timed_out, make_room, push, last, take_latest, refreshed,
  chosen, frame_or, tick, round, step, switched, is_fresh,
}

-- A frame that is neutral or has the property.
abbrev pub NeutralOr : VideoFormat → (Bytes → Type 0) → Bytes → Type 0
NeutralOr f P frame = (frame ≡ black_i420_frame f) ⊎ P frame

abbrev pub IfSome : (Bytes → Type 0) → Option Bytes → Type 0
IfSome P none = Unit {0}
IfSome P (some frame) = P frame

-- Every frame that the mux holds has the property.
pub record Holds (P : Bytes → Type 0) (m : RawMux) : Type 0 where
  pub queued : All P m.queue.frames
  pub shown : IfSome P m.last_frame

module _ (P : Bytes → Type 0) where
  All-make_room : (xs : List Bytes) → All P xs → All P (make_room xs)
  unfolding make_room
  All-make_room [] h = tt
  All-make_room (x ∷ xs) h =
      elim (leb raw_frame_queue_capacity (length (x ∷ xs)))
        as (λ full. All P (elim full [ true ↦ make_room xs | false ↦ x ∷ xs ])) [
          | true ↦ All-make_room xs h.1
          | false ↦ h
        ]

  All-append : (xs : List Bytes) (y : Bytes) → All P xs → P y → All P (xs ++ y ∷ [])
  All-append [] y h k = (k, tt)
  All-append (x ∷ xs) y h k = (h.0, All-append xs y h.1 k)

  last-IfSome : (xs : List Bytes) → All P xs → IfSome P (last xs)
  last-IfSome [] h = tt
  last-IfSome (x ∷ []) h = h.0
  last-IfSome (x ∷ y ∷ ys) h = last-IfSome (y ∷ ys) h.1

  module _ (f : VideoFormat) where
    pub pushed-Holds :
        (m : RawMux) (frame : Bytes) → P frame → Holds P m → Holds P (step f m (pushed frame)).0
    unfolding step push
    pushed-Holds m frame p h =
        if_both (λ (q : RawFrameQueue). Holds P (record m { queue = q }))
          (not (length frame == m.queue.frame_bytes)) h
          (record {
            queued =
                All-append (make_room m.queue.frames) frame (All-make_room m.queue.frames h.queued)
                  p;
            shown = h.shown;
          })

    refreshed-Holds : (m : RawMux) (now : ℕ) → Holds P m → Holds P (refreshed m now)
    unfolding refreshed take_latest
    refreshed-Holds m now h =
        go m.active (last m.queue.frames) (last-IfSome m.queue.frames h.queued)
      where
        go :
            (b : Bool) (o : Option Bytes)
            → IfSome P o
            → Holds P (elim b [
              | false ↦ m
              | true ↦ elim o [
                | none ↦ record m { queue = clear m.queue }
                | some frame ↦ record m {
                  queue = clear m.queue;
                  last_frame = some frame;
                  last_frame_at = some now;
                }
              ]
            ])
        go false o k = h
        go true none k = record { queued = tt; shown = h.shown }
        go true (some frame) k = record { queued = tt; shown = k }

    frame_or-NeutralOr :
        (o : Option Bytes) → IfSome P o → NeutralOr f P (frame_or o (black_i420_frame f))
    frame_or-NeutralOr none h = inl refl
    frame_or-NeutralOr (some frame) h = inr h

    chosen-NeutralOr : (m : RawMux) (now : ℕ) → Holds P m → NeutralOr f P (chosen f m now)
    unfolding chosen
    chosen-NeutralOr m now h =
        if_both (NeutralOr f P) (m.active && is_some_and m.last_frame_at (λ at. is_fresh now at))
          (frame_or-NeutralOr m.last_frame h.shown) (inl refl)

    pub ticked-Holds :
        (m : RawMux) (now : ℕ) (ok : Bool) → Holds P m → Holds P (step f m (timed_out now ok)).0
    unfolding step round tick
    ticked-Holds m now true h =
        let after = refreshed-Holds m now h in
        if_both (λ (r : RawMux × Option Bytes). Holds P r.0) m.running
          (record { queued = after.queued; shown = after.shown }) h
    ticked-Holds m now false h =
        let after = refreshed-Holds m now h in
        if_both (λ (r : RawMux × Option Bytes). Holds P r.0) m.running
          (record { queued = after.queued; shown = after.shown }) h

    pub ticked-NeutralOr :
        (m : RawMux) (now : ℕ) (ok : Bool)
        → Holds P m
        → IfSome (NeutralOr f P) (step f m (timed_out now ok)).1
    unfolding step round tick
    ticked-NeutralOr m now true h =
        if_both (λ (r : RawMux × Option Bytes). IfSome (NeutralOr f P) r.1) m.running
          (chosen-NeutralOr (refreshed m now) now (refreshed-Holds m now h)) tt
    ticked-NeutralOr m now false h =
        if_both (λ (r : RawMux × Option Bytes). IfSome (NeutralOr f P) r.1) m.running tt tt

  pub switched-Holds : (m : RawMux) (active : Bool) → Holds P (switched m active)
  switched-Holds m active = record { queued = tt; shown = tt }
