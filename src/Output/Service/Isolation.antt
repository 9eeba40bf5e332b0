-- ===== src/Output/Service/Isolation.antt =====
-- crates/omacam-output/src/service.rs: which frames can reach the raw pipeline.
use mathlib.Core.Path.{subst}
use omalens.Prelude.{
  ◌≡◌, refl, sym, false, not, Option, none, List, [], Bytes, ok, All, if_both, is_some_and,
}
use omalens.Media.Wire.{MediaBinding, same_binding}
use omalens.Output.Mux.Frames.{NeutralOr, IfSome, Holds}
use omalens.Output.Service.{
  different_generation, ServiceOutput, Done, Answers, cleared_queue, send_command, detached,
  reset_output,
}
use omalens.Output.Service.Loop.{Move, serve}
use omalens.Output.Service.Invariant.{Ensures, error-Ensures, IsService}
use omalens.Output.Service.Rounds.{reset_output-Ensures}
use omalens.Output.Service.Clean.{Supplies, serve-IsClean}

abbrev IsUnbound : ServiceOutput → Type 0
IsUnbound s = s.binding ≡ none

abbrev Unbinds : Done → Type 0
Unbinds d = Ensures IsUnbound d

module _ (P : Bytes → Type 0) where
  -- The service with what was written so far left out.
  abbrev pub from_now_on : ServiceOutput → ServiceOutput
  from_now_on s = record s { raw_pipeline = [] }

  unbound_isolates :
      (s : ServiceOutput) (ms : List Move)
      → IsService s
      → s.binding ≡ none
      → All (Supplies P) ms
      → All
          (NeutralOr (serve (from_now_on s) ms).0.format P)
          (serve (from_now_on s) ms).0.raw_pipeline
  unbound_isolates s ms v e p =
      let (off, empty) = v.idle e in
      let held : Holds P s.raw_mux = record {
        queued = subst (All P) (sym empty) tt;
        shown = subst (IfSome P) (sym off.nothing) tt;
      } in
      (serve-IsClean P (from_now_on s) ms p (record { held = held; written = tt })).written

  detached-unbound :
      (decoder : Option (List Bytes)) (a : Answers) (d : Done)
      → (detached decoder a d).0.binding ≡ none
  unfolding cleared_queue
  detached-unbound decoder a (s, o) = refl

  reset_output-unbound :
      (s : ServiceOutput) (b : MediaBinding) (a : Answers) → Unbinds (reset_output s b a)
  unfolding reset_output
  reset_output-unbound s b a =
      if_both Unbinds (is_some_and s.binding (λ current. not (same_binding current b)))
        (error-Ensures IsUnbound s different_generation)
        (λ p. detached-unbound s.decoder a (send_command s false a))

  -- Let a reset of a running service go well, and let anything follow: other bindings, media, errors,
  -- ticks, frames that a decoder pushes. If every frame that is decoded after the reset has the property
  -- P, then every frame written to the raw pipeline after it is the neutral one or has P. So no frame
  -- of an earlier generation is shown again.
  pub reset_isolates :
      (s : ServiceOutput) (b : MediaBinding) (a : Answers) (ms : List Move)
      → IsService s
      → (reset_output s b a).1 ≡ ok tt
      → All (Supplies P) ms
      → let t = from_now_on (reset_output s b a).0 in
        All (NeutralOr (serve t ms).0.format P) (serve t ms).0.raw_pipeline
  reset_isolates s b a ms v done p =
      unbound_isolates (reset_output s b a).0 ms (reset_output-Ensures s b a v done)
        (reset_output-unbound s b a done) p
