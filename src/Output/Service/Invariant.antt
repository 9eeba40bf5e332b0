-- ===== src/Output/Service/Invariant.antt =====
-- crates/omacam-output/src/service.rs: what holds between two rounds of the service.
use omalens.Prelude.{
  ◌≡◌, refl, sym, ◌∙◌, true, false, Option, none, some, List, [], Bytes, ok, err, arith,
}
use omalens.Media.Wire.{MediaBinding}
use omalens.Media.Stream.{MediaStreamValidator}
use omalens.Output.Mux.{RawMux, step, round, tick, refreshed}
use omalens.Output.Mux.Refinement.{IsMux}
use omalens.Output.Service.{
  ServiceError, ServiceOutput, Outcome, Done, Happening, decoded, ticked, happen, guarded,
}
use omalens.Output.Service.Loop.{running, continued, Round}
use omalens.Output.Service.Steps.{IsOff, happen-Follows, happen-IsMux}

-- The decoder, the binding and the validator are there together, the validator for the binding.
abbrev pub Together :
    Option (List Bytes) → Option MediaBinding → Option MediaStreamValidator → Type 0
Together none none none = Unit {0}
Together (some payloads) (some b) (some v) = v.binding ≡ b
Together _ _ _ = ⊥

pub record IsService (s : ServiceOutput) : Type 0 where
  pub together : Together s.decoder s.binding s.validator
  pub mux : IsMux s.format s.raw_mux
  pub idle : s.binding ≡ none → IsOff s.raw_mux × (s.raw_mux.queue.frames ≡ [])

Together-none :
    (d : Option (List Bytes)) (b : Option MediaBinding) (v : Option MediaStreamValidator)
    → Together d b v
    → b ≡ none
    → d ≡ none
Together-none none b v t e = refl
Together-none (some payloads) none none t e = absurd t
Together-none (some payloads) none (some v) t e = absurd t
Together-none (some payloads) (some b) v t e = cc

IsIdle : RawMux → Type 0
IsIdle m = IsOff m × (m.queue.frames ≡ [])

happen-IsIdle :
    (s : ServiceOutput) (h : Happening)
    → s.decoder ≡ none
    → IsIdle s.raw_mux
    → IsIdle (happen s h).raw_mux
unfolding happen step round tick refreshed IsIdle
happen-IsIdle s (decoded frame) d v = rw d v
happen-IsIdle s (ticked now true) d v = ground arith
happen-IsIdle s (ticked now false) d v = ground arith

pub happen-IsService : (s : ServiceOutput) (h : Happening) → IsService s → IsService (happen s h)
unfolding IsIdle
happen-IsService s h v =
    let same = happen-Follows s h in
    record {
      together = rw (same.decoder_kept, same.binding_kept, same.validator_kept) v.together;
      mux = happen-IsMux s h v.mux;
      idle = λ e.
          let unbound = sym same.binding_kept ∙ e in
          happen-IsIdle s h (Together-none s.decoder s.binding s.validator v.together unbound)
            (v.idle unbound);
    }

-- If there is no error, the state has the property.
abbrev pub Ensures : (ServiceOutput → Type 0) → Done → Type 0
Ensures Q d = d.1 ≡ ok tt → Q d.0

abbrev pub Continues : (ServiceOutput → Type 0) → Round → Type 0
Continues Q r = r.1 ≡ running → Q r.0

module _ (Q : ServiceOutput → Type 0) where
  pub error-Ensures : (s : ServiceOutput) (e : ServiceError) → Ensures Q (s, err e)
  error-Ensures s e = λ p. cc

  pub guarded-Ensures :
      (s : ServiceOutput) (o : Outcome) (next : Done)
      → Ensures Q next
      → Ensures Q (guarded s o next)
  guarded-Ensures s (ok _) next h = h
  guarded-Ensures s (err e) next h = λ p. cc

  pub continued-Continues : (d : Done) → Ensures Q d → Continues Q (continued d)
  continued-Continues (s, ok _) h = λ p. h refl
  continued-Continues (s, err e) h = λ p. cc
