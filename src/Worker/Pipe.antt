-- ===== src/Worker/Pipe.antt =====
-- crates/omacam-daemon/src/capture/output_worker.rs: what an operation that succeeds leaves on the pipe.
use mathlib.Core.Path.{subst}
use omalens.Prelude.{
  ◌≡◌, refl, ap, sym, ◌∙◌, Bool, true, false, not, Option, none, some, [], ◌++◌, Bytes, ok, err,
  if◌then◌else◌, is_some, is_some_and, ◌⊎◌, inl, inr, arith, ℕ,
}
use omalens.Media.Wire.{MediaBinding, same_binding, same_binding_iff}
use omalens.Media.Output.{bind, reset, write_output_control}
use omalens.Media.Stream.{MediaError, MediaRecord, is_stop}
use omalens.Media.Stream as Stream
use omalens.Worker.{
  OutputWorker, WorkerError, Meets, ChildState, child_runs, child_exited, child_unknown, Done,
  check_health, inspected, and_then, put, send, rebound, bind_worker, reset_worker, write_worker,
  sent_record, is_bound_to, requires_reset, different_generation, stale, not_access_unit,
  input_closed,
}

-- The bytes on the pipe before and after: nothing was written, or these bytes at its end.
abbrev pub Appends : Option Bytes → Bytes → Option Bytes → Type 0
Appends before bytes after =
    ((bytes ≡ []) × (after ≡ before))
    ⊎ ((written : Bytes) × (before ≡ some written) × (after ≡ some (written ++ bytes)))

-- An operation that succeeded: what it wrote, and the binding after it.
pub record Wrote (w : OutputWorker) (bytes : Bytes) (current : Option MediaBinding) (d : Done)
    : Type 0 where
  pub appends : Appends w.input bytes d.0.input
  pub bound : d.0.current_binding ≡ current

check_health_same :
    (w : OutputWorker) (m : Meets) → (check_health w m).1 ≡ ok tt → (check_health w m).0 ≡ w
unfolding check_health
check_health_same w m = go w.failure m.child
  where
    go :
        (f : Option WorkerError) (c : ChildState)
        → (elim f as (λ x. Done) [ some e ↦ (w, err e) | none ↦ inspected w c ]).1 ≡ ok tt
        → (elim f as (λ x. Done) [ some e ↦ (w, err e) | none ↦ inspected w c ]).0 ≡ w
    go (some e) c h = refl
    go none child_runs h = refl
    go none child_exited h = cc
    go none child_unknown h = cc

and_then_ok :
    (d : Done) (next : OutputWorker → Done)
    → (and_then d next).1 ≡ ok tt
    → (d.1 ≡ ok tt) × (and_then d next ≡ next d.0)
and_then_ok (w, ok _) next h = (refl, refl)
and_then_ok (w, err e) next h = cc

-- A step after the check of the child is a step of the same worker.
checked :
    (w : OutputWorker) (m : Meets) (next : OutputWorker → Done)
    → (and_then (check_health w m) next).1 ≡ ok tt
    → and_then (check_health w m) next ≡ next w
checked w m next h =
    let (fine, e) = and_then_ok (check_health w m) next h in
    e ∙ ap next (check_health_same w m fine)

send-Wrote :
    (w : OutputWorker) (m : Meets) (bytes : Bytes)
    → (send w m bytes).1 ≡ ok tt
    → Wrote w bytes w.current_binding (send w m bytes)
unfolding send
send-Wrote w m bytes = go w.input m.fails_after refl
  where
    go :
        (i : Option Bytes) (f : Option ℕ)
        → w.input ≡ i
        → (elim i as (λ x. Done) [
          | none ↦ (w, err input_closed)
          | some written ↦ put w written f bytes
        ]).1
          ≡ ok tt
        → Wrote w bytes w.current_binding (elim i as (λ x. Done) [
          | none ↦ (w, err input_closed)
          | some written ↦ put w written f bytes
        ])
    go none f e h = absurd (cc h)
    go (some written) none e h = record { appends = inr (written, e, refl); bound = refl }
    go (some written) (some n) e h = absurd (cc h)

rebound-Wrote :
    (w : OutputWorker) (bytes : Bytes) (old b : Option MediaBinding) (d : Done)
    → (d.1 ≡ ok tt → Wrote w bytes old d)
    → (rebound b d).1 ≡ ok tt
    → Wrote w bytes b (rebound b d)
rebound-Wrote w bytes old b (v, ok _) k h = record { appends = (k refl).appends; bound = refl }
rebound-Wrote w bytes old b (v, err e) k h = absurd (cc h)

-- A guard that was passed.
passed :
    (g : Bool) (e : WorkerError) (w : OutputWorker) (d : Done)
    → (if g then (w, err e) else d).1 ≡ ok tt
    → (g ≡ false) × ((if g then (w, err e) else d) ≡ d)
passed true e w d h = absurd (cc h)
passed false e w d h = (refl, refl)

is_some-none : {A : Type 0} (o : Option A) → is_some o ≡ false → o ≡ none
is_some-none none h = refl
is_some-none (some x) h = cc

-- The bytes that an operation writes when it succeeds.
abbrev pub reset_bytes : Option MediaBinding → MediaBinding → Bytes
reset_bytes none b = []
reset_bytes (some current) b = write_output_control (reset b)

module _ (w : OutputWorker) (b : MediaBinding) (m : Meets) where
  pub bind_worker-Wrote :
      (bind_worker w b m).1 ≡ ok tt
      → (w.current_binding ≡ none)
        × Wrote w (write_output_control (bind b)) (some b) (bind_worker w b m)
  unfolding bind_worker
  bind_worker-Wrote h =
      let send_it : OutputWorker → Done =
        λ v. rebound (some b) (send v m (write_output_control (bind b))) in
      let (unbound, first) =
        passed (is_some w.current_binding) requires_reset w (and_then (check_health w m) send_it)
          h in
      let all = first ∙ checked w m send_it (subst (λ (d : Done). d.1 ≡ ok tt) first h) in
      (
        is_some-none w.current_binding unbound,
        subst (Wrote w (write_output_control (bind b)) (some b)) (sym all) (
            rebound-Wrote w (write_output_control (bind b)) w.current_binding (some b)
              (send w m (write_output_control (bind b)))
              (send-Wrote w m (write_output_control (bind b)))
              (subst (λ (d : Done). d.1 ≡ ok tt) all h)),
      )

  pub reset_worker-Wrote :
      (reset_worker w b m).1 ≡ ok tt
      → (is_some_and w.current_binding (λ current. not (same_binding current b)) ≡ false)
        × Wrote w (reset_bytes w.current_binding b) none (reset_worker w b m)
  unfolding reset_worker
  reset_worker-Wrote h =
      let send_it : OutputWorker → Done = λ v. rebound none (
        if is_some v.current_binding
        then send v m (write_output_control (reset b))
        else (v, ok tt)) in
      let other = is_some_and w.current_binding (λ current. not (same_binding current b)) in
      let (same, first) =
        passed other different_generation w (and_then (check_health w m) send_it) h in
      let all = first ∙ checked w m send_it (subst (λ (d : Done). d.1 ≡ ok tt) first h) in
      (
        same,
        subst (Wrote w (reset_bytes w.current_binding b) none) (sym all) (
            rebound-Wrote w (reset_bytes w.current_binding b) w.current_binding none
              (if is_some w.current_binding
                then send w m (write_output_control (reset b))
                else (w, ok tt))
              (quiet w.current_binding refl) (subst (λ (d : Done). d.1 ≡ ok tt) all h)),
      )
    where
      quiet :
          (c : Option MediaBinding)
          → w.current_binding ≡ c
          → (if is_some c then send w m (write_output_control (reset b)) else (w, ok tt)).1 ≡ ok tt
          → Wrote w
              (reset_bytes c b)
              w.current_binding
              (if is_some c then send w m (write_output_control (reset b)) else (w, ok tt))
      quiet none e p = record { appends = inl (refl, refl); bound = refl }
      quiet (some c) e p = send-Wrote w m (write_output_control (reset b)) p

  bound_to : (c : Option MediaBinding) → not (is_bound_to c b) ≡ false → c ≡ some b
  bound_to none e = cc
  bound_to (some c) e = ground (arith, same_binding_iff c b)

  -- The checks of a write were passed.
  write_worker_passed :
      (r : MediaRecord)
      → (write_worker w b r m).1 ≡ ok tt
      → (w.current_binding ≡ some b)
        × (is_stop r.kind ≡ false)
        × (write_worker w b r m ≡ sent_record w m (Stream.write_record b r))
  unfolding write_worker
  write_worker_passed r h =
      let sent : OutputWorker → Done = λ v. sent_record v m (Stream.write_record b r) in
      let open_pipe : OutputWorker → Done =
        λ v. if not (is_some v.input) then (v, err input_closed) else sent v in
      let unit : OutputWorker → Done =
        λ v. if is_stop r.kind then (v, err not_access_unit) else open_pipe v in
      let bound : OutputWorker → Done =
        λ v. if not (is_bound_to v.current_binding b) then (v, err stale) else unit v in
      let all = checked w m bound h in
      let (is_bound, one) =
        passed (not (is_bound_to w.current_binding b)) stale w (unit w)
          (subst (λ (d : Done). d.1 ≡ ok tt) all h) in
      let (access, two) =
        passed (is_stop r.kind) not_access_unit w (open_pipe w)
          (subst (λ (d : Done). d.1 ≡ ok tt) (all ∙ one) h) in
      let (pipe, three) =
        passed (not (is_some w.input)) input_closed w (sent w)
          (subst (λ (d : Done). d.1 ≡ ok tt) (all ∙ one ∙ two) h) in
      (bound_to w.current_binding is_bound, access, all ∙ one ∙ two ∙ three)

  pub write_worker_bound :
      (r : MediaRecord) → (write_worker w b r m).1 ≡ ok tt → w.current_binding ≡ some b
  write_worker_bound r h = (write_worker_passed r h).0

  pub write_worker-Wrote :
      (r : MediaRecord) (bytes : Bytes)
      → Stream.write_record b r ≡ ok bytes
      → (write_worker w b r m).1 ≡ ok tt
      → (w.current_binding ≡ some b)
        × (is_stop r.kind ≡ false)
        × Wrote w bytes w.current_binding (write_worker w b r m)
  write_worker-Wrote r bytes written h =
      let (bound, access, all) = write_worker_passed r h in
      let done = all ∙ ap (sent_record w m) written in
      (
        bound,
        access,
        subst (Wrote w bytes w.current_binding) (sym done)
            (send-Wrote w m bytes (subst (λ (d : Done). d.1 ≡ ok tt) done h)),
      )
