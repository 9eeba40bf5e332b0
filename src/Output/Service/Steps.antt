-- ===== src/Output/Service/Steps.antt =====
-- crates/omacam-output/src/service.rs: what the steps of an operation leave as it was.
use omalens.Prelude.{
  ◌&&◌, ◌≡◌, refl, ◌∙◌, Bool, true, false, Option, none, some, List, [], ◌∷◌, Bytes, ok, err, arith,
}
use omalens.Output.Mux.{RawMux, pushed, timed_out, step, round, tick, refreshed}
use omalens.Output.Mux.Refinement.{IsMux, step-IsMux, switched-IsMux}
use omalens.Output.Service.{
  ServiceOutput, Outcome, Answers, Done, Happening, decoded, ticked, happen, happen_all,
  cleared_queue, pump, send_command, mux_health, commanded, guarded,
}

-- The mux is switched off and shows nothing.
pub record IsOff (m : RawMux) : Type 0 where
  pub off : m.active ≡ false
  pub nothing : m.last_frame ≡ none

-- What happens between the steps leaves all but the mux and the pipeline as it was.
pub record Follows (s t : ServiceOutput) : Type 0 where
  pub decoder_kept : t.decoder ≡ s.decoder
  pub binding_kept : t.binding ≡ s.binding
  pub validator_kept : t.validator ≡ s.validator
  pub format_kept : t.format ≡ s.format

pub happen-Follows : (s : ServiceOutput) (h : Happening) → Follows s (happen s h)
unfolding happen
happen-Follows s (decoded frame) = record {
  decoder_kept = refl;
  binding_kept = refl;
  validator_kept = refl;
  format_kept = refl;
}
happen-Follows s (ticked now write_ok) = record {
  decoder_kept = refl;
  binding_kept = refl;
  validator_kept = refl;
  format_kept = refl;
}

pub happen_all-Follows : (s : ServiceOutput) (hs : List Happening) → Follows s (happen_all s hs)
unfolding happen_all
happen_all-Follows s [] = record {
  decoder_kept = refl;
  binding_kept = refl;
  validator_kept = refl;
  format_kept = refl;
}
happen_all-Follows s (h ∷ hs) =
    let first = happen-Follows s h in
    let rest = happen_all-Follows (happen s h) hs in
    record {
      decoder_kept = rest.decoder_kept ∙ first.decoder_kept;
      binding_kept = rest.binding_kept ∙ first.binding_kept;
      validator_kept = rest.validator_kept ∙ first.validator_kept;
      format_kept = rest.format_kept ∙ first.format_kept;
    }

pub pump_both {κ} :
    (Q : RawMux → Type κ) (d : Option (List Bytes)) {m n : RawMux} → Q m → Q n → Q (pump d m n)
pump_both Q none p q = p
pump_both Q (some _) p q = q

pub happen-IsMux :
    (s : ServiceOutput) (h : Happening)
    → IsMux s.format s.raw_mux
    → IsMux (happen s h).format (happen s h).raw_mux
unfolding happen
happen-IsMux s (decoded frame) v =
    pump_both (IsMux s.format) s.decoder v (step-IsMux s.format s.raw_mux (pushed frame) v)
happen-IsMux s (ticked now write_ok) v = step-IsMux s.format s.raw_mux (timed_out now write_ok) v

pub happen_all-IsMux :
    (s : ServiceOutput) (hs : List Happening)
    → IsMux s.format s.raw_mux
    → IsMux (happen_all s hs).format (happen_all s hs).raw_mux
unfolding happen_all
happen_all-IsMux s [] v = v
happen_all-IsMux s (h ∷ hs) v = happen_all-IsMux (happen s h) hs (happen-IsMux s h v)

happen-IsOff : (s : ServiceOutput) (h : Happening) → IsOff s.raw_mux → IsOff (happen s h).raw_mux
unfolding happen step round tick refreshed
happen-IsOff s (decoded frame) v = ground arith
happen-IsOff s (ticked now true) v = ground arith
happen-IsOff s (ticked now false) v = ground arith

pub happen_all-IsOff :
    (s : ServiceOutput) (hs : List Happening) → IsOff s.raw_mux → IsOff (happen_all s hs).raw_mux
unfolding happen_all
happen_all-IsOff s [] v = v
happen_all-IsOff s (h ∷ hs) v = happen_all-IsOff (happen s h) hs (happen-IsOff s h v)

-- What a command does to the state, whether it is taken or not.
pub record Sent (s : ServiceOutput) (active : Bool) (d : Done) : Type 0 where
  pub kept : Follows s d.0
  pub sent_mux : IsMux d.0.format d.0.raw_mux
  pub switched_off : d.1 ≡ ok tt → active ≡ false → IsOff d.0.raw_mux

commanded-Sent :
    (s t : ServiceOutput) (active taken : Bool)
    → Follows s t
    → IsMux t.format t.raw_mux
    → Sent s active (commanded t active taken)
commanded-Sent s t active true k v = record {
  kept = record {
    decoder_kept = k.decoder_kept;
    binding_kept = k.binding_kept;
    validator_kept = k.validator_kept;
    format_kept = k.format_kept;
  };
  sent_mux = switched-IsMux t.format t.raw_mux active v;
  switched_off = λ p e. record { off = e; nothing = refl };
}
commanded-Sent s t active false k v = record { kept = k; sent_mux = v; switched_off = λ p. cc }

guarded-Sent :
    (s : ServiceOutput) (active : Bool) (o : Outcome) (before : ServiceOutput) (next : Done)
    → Follows s before
    → IsMux before.format before.raw_mux
    → Sent s active next
    → Sent s active (guarded before o next)
guarded-Sent s active (ok _) before next k v h = h
guarded-Sent s active (err e) before next k v h = record {
  kept = k;
  sent_mux = v;
  switched_off = λ p. cc;
}

pub send_command-Sent :
    (s : ServiceOutput) (active : Bool) (a : Answers)
    → IsMux s.format s.raw_mux
    → Sent s active (send_command s active a)
unfolding send_command
send_command-Sent s active a v =
    let quiet : IsMux (cleared_queue s).format (cleared_queue s).raw_mux =
      unfold cleared_queue in ground arith in
    let clean : Follows s (cleared_queue s) =
      unfold cleared_queue in
      record {
        decoder_kept = refl;
        binding_kept = refl;
        validator_kept = refl;
        format_kept = refl;
      } in
    let later = happen_all-Follows (cleared_queue s) a.early in
    let kept : Follows s (happen_all (cleared_queue s) a.early) = record {
      decoder_kept = later.decoder_kept ∙ clean.decoder_kept;
      binding_kept = later.binding_kept ∙ clean.binding_kept;
      validator_kept = later.validator_kept ∙ clean.validator_kept;
      format_kept = later.format_kept ∙ clean.format_kept;
    } in
    guarded-Sent s active (mux_health s.raw_mux) (cleared_queue s) _ clean quiet (
      commanded-Sent s (happen_all (cleared_queue s) a.early) active
        (a.acknowledged && (happen_all (cleared_queue s) a.early).raw_mux.running) kept
        (happen_all-IsMux (cleared_queue s) a.early quiet))
