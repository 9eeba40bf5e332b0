-- ===== src/Worker/Agreement.antt =====
-- crates/omacam-daemon/src/capture/output_worker.rs against crates/omacam-output/src/service.rs: the two
-- ends of the pipe.
use mathlib.Core.Path.{subst}
use mathlib.Core.List.{append-nil}
use omalens.Media.Stream.Header.{Fits}
use omalens.Prelude.{
  ℕ, u64_mod, ◌≡◌, ◌<◌, ◌≤◌, refl, ap, sym, ◌∙◌, true, false, not, Option, none, some, List, [],
  ◌∷◌, ◌++◌, map, Bytes, Result, ok, err, arith, is_some_and, length,
}
use omalens.Media.Wire.{MediaBinding, IsBinding, same_binding, same_binding_iff}
use omalens.Media.Output.{OutputControlCommand, bind, reset, IsCommand, write_output_control}
use omalens.Media.Stream.{
  MediaRecordKind, h264_access_unit, stop, MediaRecord, MediaStreamValidator, is_stop,
}
use omalens.Media.Stream.Layout.{plain_header}
use omalens.Media.Stream.RoundTrip.{IsNext, write_record_ok, sequence_fits}
use omalens.Media.Stream.Reading.{Reader, byte}
use omalens.Output.Input.{InputError, ServiceInput, control, media, read_service_input}
use omalens.Output.Input.RoundTrip.{
  read_service_input-write_output_control, read_service_input-plain_header,
}
use omalens.Output.Service.{Done, ServiceOutput, Answers, bind_output, reset_output}
use omalens.Output.Service.Loop.{Round, input, running, continued, command, handle, service_round}
use omalens.Output.Service.Invariant.{Together, IsService}
use omalens.Output.Service.Rounds.{service_round-IsService}
use omalens.Output.Service.Accepts.{
  IsSound, Succeeded, bind_accepted, reset_accepted, round_accepted, media_accepted,
}
use omalens.Worker.{
  Done as WorkerDone, OutputWorker, Meets, bind_worker, reset_worker, write_worker,
}
use omalens.Worker.Pipe.{
  Appends, Wrote, reset_bytes, bind_worker-Wrote, reset_worker-Wrote, write_worker-Wrote,
  write_worker_bound,
}

-- The service takes what stands on the pipe, if anything does.
unfoldable pub deliver : ServiceOutput → Bytes → Answers → Round
deliver s [] a = (s, running)
deliver s (x ∷ xs) a = service_round s (input (read_service_input (map byte (x ∷ xs))).0) a

-- Both ends have the same binding, and the service is well.
pub record Agrees (w : OutputWorker) (s : ServiceOutput) : Type 0 where
  pub same : s.binding ≡ w.current_binding
  pub service : IsService s
  pub up : s.raw_mux.running ≡ true

read_alone :
    (bytes : Bytes) (i : Result InputError (Option ServiceInput))
    → read_service_input (map byte bytes ++ []) ≡ (i, [])
    → (read_service_input (map byte bytes)).0 ≡ i
read_alone bytes i e =
    ap (λ (x : Result InputError (Option ServiceInput) × Reader). x.0)
      (rw (append-nil (map byte bytes)) at e)

deliver_control :
    (s : ServiceOutput) (c : OutputControlCommand) (a : Answers)
    → IsCommand c
    → deliver s (write_output_control c) a ≡ service_round s (input (ok (some (control c)))) a
unfolding deliver write_output_control
deliver_control s c a v =
    ap (λ (x : Result InputError (Option ServiceInput)). service_round s (input x) a)
      (read_alone (write_output_control c) (ok (some (control c)))
        (read_service_input-write_output_control c [] v))

deliver_media :
    (s : ServiceOutput) (b : MediaBinding) (r : MediaRecord) (a : Answers)
    → IsBinding b
    → r.sequence < u64_mod
    → r.presentation_time_us < u64_mod
    → length r.payload ≤ 1_048_576
    → deliver s (plain_header b r ++ r.payload) a
      ≡ service_round s (input (ok (some (media (plain_header b r) r.payload)))) a
unfolding deliver plain_header
deliver_media s b r a w seq time size =
    ap (λ (x : Result InputError (Option ServiceInput)). service_round s (input x) a)
      (read_alone (plain_header b r ++ r.payload) (ok (some (media (plain_header b r) r.payload)))
        (read_service_input-plain_header b r w seq time size []))

-- What an operation that succeeds does at both ends: these bytes are on the pipe, the service takes
-- them without an error, and both ends have the same binding.
pub record Passes (w : OutputWorker) (s : ServiceOutput) (bytes : Bytes) (after : OutputWorker)
    (a : Answers) : Type 0 where
  pub on_pipe : Appends w.input bytes after.input
  pub taken : (deliver s bytes a).1 ≡ running
  pub agreed : Agrees after (deliver s bytes a).0

continued_ok :
    (b : Option MediaBinding) (d : Done)
    → Succeeded b d
    → ((continued d).1 ≡ running)
      × ((continued d).0.binding ≡ b)
      × ((continued d).0.raw_mux.running ≡ true)
continued_ok b (s, ok _) v = (refl, v.then_bound, v.then_running)
continued_ok b (s, err e) v = absurd (cc (v.no_error))

access_unit_bound :
    (k : MediaRecordKind) (size time : ℕ) (last : Option ℕ)
    → is_stop k ≡ false
    → Fits k size time last
    → size ≤ 1_048_576
access_unit_bound stop size time last k f = cc
access_unit_bound h264_access_unit size time none k f = omega arith
access_unit_bound h264_access_unit size time (some l) k f = omega arith

module _ (w : OutputWorker) (s : ServiceOutput) (m : Meets) (a : Answers) (h : Agrees w s)
    (sound : IsSound a) where
  -- A command that the service takes well.
  control_Passes :
      (c : OutputControlCommand) (b : Option MediaBinding) (d : Done) (after : OutputWorker)
      → IsCommand c
      → command s c a ≡ continued d
      → Succeeded b d
      → Appends w.input (write_output_control c) after.input
      → after.current_binding ≡ b
      → Passes w s (write_output_control c) after a
  unfolding handle
  control_Passes c b d after v e good on_pipe current =
      let whole =
        deliver_control s c a v
        ∙ round_accepted a sound s (input (ok (some (control c)))) h.up
        ∙ e in
      let (runs, bound, up) = continued_ok b d good in
      let taken : (deliver s (write_output_control c) a).1 ≡ running =
        ap (λ (r : Round). r.1) whole ∙ runs in
      record {
        on_pipe = on_pipe;
        taken = taken;
        agreed = record {
          same = ap (λ (r : Round). r.0.binding) whole ∙ bound ∙ sym current;
          service = deliver-IsService taken;
          up = ap (λ (r : Round). r.0.raw_mux.running) whole ∙ up;
        };
      }
    where
      deliver-IsService :
          (deliver s (write_output_control c) a).1 ≡ running
          → IsService (deliver s (write_output_control c) a).0
      deliver-IsService =
          subst (λ (r : Round). r.1 ≡ running → IsService r.0) (sym (deliver_control s c a v))
            (service_round-IsService s (input (ok (some (control c)))) a h.service)

  bind_Passes :
      (b : MediaBinding)
      → IsCommand (bind b)
      → (bind_worker w b m).1 ≡ ok tt
      → Passes w s (write_output_control (bind b)) (bind_worker w b m).0 a
  unfolding command
  bind_Passes b v done =
      let (unbound, wrote) = bind_worker-Wrote w b m done in
      control_Passes (bind b) (some b) (bind_output s b a) (bind_worker w b m).0 v refl
        (bind_accepted a sound s b (h.same ∙ unbound) h.up) wrote.appends wrote.bound

  reset_Passes :
      (b : MediaBinding)
      → IsCommand (reset b)
      → (reset_worker w b m).1 ≡ ok tt
      → Passes w s (reset_bytes w.current_binding b) (reset_worker w b m).0 a
  unfolding command deliver
  reset_Passes b v done =
      let (same, wrote) = reset_worker-Wrote w b m done in go w.current_binding refl same wrote
    where
      go :
          (c : Option MediaBinding)
          → w.current_binding ≡ c
          → is_some_and c (λ current. not (same_binding current b)) ≡ false
          → Wrote w (reset_bytes c b) none (reset_worker w b m)
          → Passes w s (reset_bytes c b) (reset_worker w b m).0 a
      go none e same wrote = record {
        on_pipe = wrote.appends;
        taken = refl;
        agreed = record { same = h.same ∙ e ∙ sym wrote.bound; service = h.service; up = h.up };
      }
      go (some c) e same wrote =
          let equal : c ≡ b = ground (arith, same_binding_iff c b) in
          control_Passes (reset b) none (reset_output s b a) (reset_worker w b m).0 v refl
            (reset_accepted a sound s b (h.same ∙ e ∙ ap some equal) h.up) wrote.appends wrote.bound

  -- The service's decoder takes the payload of a record.
  write_Passes :
      (v : MediaStreamValidator) (payloads : List Bytes) (r : MediaRecord)
      → s.validator ≡ some v
      → s.decoder ≡ some payloads
      → IsBinding v.binding
      → IsNext v r
      → (write_worker w v.binding r m).1 ≡ ok tt
      → Passes w s (plain_header v.binding r ++ r.payload) (write_worker w v.binding r m).0 a
        × ((deliver s (plain_header v.binding r ++ r.payload) a).0.decoder
            ≡ some (r.payload ∷ payloads))
  write_Passes v payloads r ve de b n done =
      let bytes : Bytes = plain_header v.binding r ++ r.payload in
      let (bound, access, wrote) =
        write_worker-Wrote w v.binding m r bytes (write_record_ok v r b n) done in
      let delivered = deliver_media s v.binding r a b (sequence_fits v r b n) n.time_fits (
        access_unit_bound r.kind (length r.payload) r.presentation_time_us
          v.last_presentation_time_us access n.fits) in
      let whole = delivered ∙ media_accepted a sound s v payloads r ve de h.up b n access in
      let taken : (deliver s bytes a).1 ≡ running = ap (λ (x : Round). x.1) whole in
      (
        record {
          on_pipe = wrote.appends;
          taken = taken;
          agreed = record {
            same = ap (λ (x : Round). x.0.binding) whole ∙ h.same ∙ sym wrote.bound;
            service =
                subst (λ (x : Round). x.1 ≡ running → IsService x.0) (sym delivered)
                  (service_round-IsService s
                    (input (ok (some (media (plain_header v.binding r) r.payload)))) a h.service)
                  taken;
            up = ap (λ (x : Round). x.0.raw_mux.running) whole ∙ h.up;
          };
        },
        ap (λ (x : Round). x.0.decoder) whole,
      )

-- The operations of the worker that write.
pub data Operation : Type 0 where
  bind_to reset_from : MediaBinding → Operation
  write_to : MediaBinding → MediaRecord → Operation

unfoldable pub operate : OutputWorker → Operation → Meets → WorkerDone
operate w (bind_to b) m = bind_worker w b m
operate w (reset_from b) m = reset_worker w b m
operate w (write_to b r) m = write_worker w b r m

-- The bytes of an operation.
unfoldable pub message : OutputWorker → Operation → Bytes
message w (bind_to b) = write_output_control (bind b)
message w (reset_from b) = reset_bytes w.current_binding b
message w (write_to b r) = plain_header b r ++ r.payload

-- Bindings are well-formed and have a generation, and a record may follow in the service's stream.
abbrev pub IsSendable : ServiceOutput → Operation → Type 0
IsSendable s (bind_to b) = IsCommand (bind b)
IsSendable s (reset_from b) = IsCommand (reset b)
IsSendable s (write_to b r) =
    IsBinding b × ((v : MediaStreamValidator) → s.validator ≡ some v → IsNext v r)

-- A record that was written has reached the decoder.
abbrev pub Reaches : Operation → Option (List Bytes) → Option (List Bytes) → Type 0
Reaches (bind_to b) before after = Unit {0}
Reaches (reset_from b) before after = Unit {0}
Reaches (write_to b r) before after =
    (payloads : List Bytes) × (before ≡ some payloads) × (after ≡ some (r.payload ∷ payloads))

Together-some :
    (d : Option (List Bytes)) (c : Option MediaBinding) (v : Option MediaStreamValidator)
    (b : MediaBinding)
    → Together d c v
    → c ≡ some b
    → (payloads : List Bytes) × (x : MediaStreamValidator) × (d ≡ some payloads)
      × (v ≡ some x)
      × (x.binding ≡ b)
Together-some (some payloads) (some c) (some v) b t e = (payloads, v, refl, refl, cc)
Together-some none none none b t e = absurd (cc e)
Together-some none none (some v) b t e = absurd t
Together-some none (some c) v b t e = absurd t
Together-some (some payloads) none v b t e = absurd (cc e)
Together-some (some payloads) (some c) none b t e = absurd t

-- Let the worker and the service have the same binding, let nothing outside the program fail, and let
-- an operation be sendable: a binding that is named has the right shape and, in a bind or a reset, a
-- generation that is not 0, and a record may follow in the service's stream. If the operation succeeds
-- at the worker, what it wrote is read from the pipe by the service and taken without an error, both
-- ends have the same binding again, and the payload of a record has reached the decoder.
pub operate-Agrees :
    (w : OutputWorker) (s : ServiceOutput) (x : Operation) (m : Meets) (a : Answers)
    → Agrees w s
    → IsSound a
    → IsSendable s x
    → (operate w x m).1 ≡ ok tt
    → Passes w s (message w x) (operate w x m).0 a
      × Reaches x s.decoder (deliver s (message w x) a).0.decoder
unfolding operate message
operate-Agrees w s (bind_to b) m a h sound v done = (bind_Passes w s m a h sound b v done, tt)
operate-Agrees w s (reset_from b) m a h sound v done = (reset_Passes w s m a h sound b v done, tt)
operate-Agrees w s (write_to b r) m a h sound v done =
    let (payloads, x, de, ve, same) =
      Together-some s.decoder s.binding s.validator b h.service.together
        (h.same ∙ write_worker_bound w b m r done) in
    let goal : MediaBinding → Type 0 = λ c.
      Passes w s (plain_header c r ++ r.payload) (write_worker w c r m).0 a
      × ((deliver s (plain_header c r ++ r.payload) a).0.decoder ≡ some (r.payload ∷ payloads)) in
    let (passes, reached) = subst goal same (
      write_Passes w s m a h sound x payloads r ve de (subst IsBinding (sym same) v.0) (v.1 x ve)
        (subst (λ (c : MediaBinding). (write_worker w c r m).1 ≡ ok tt) (sym same) done)) in
    (passes, (payloads, de, reached))
