-- ===== src/Output/Cli/Backend.antt =====
-- crates/omacam-output/src/cli.rs: the option that selects the backend.
use omalens.Prelude.{
  ◌≡◌, refl, ap, ◌∙◌, false, Option, none, some, List, [], ◌∷◌, ◌++◌, Bytes, bytes_eq,
  bytes_eq_refl, ok, err, arith,
}
use omalens.Output.Config.{OutputBackend, parse_backend}
use omalens.Output.Cli.{
  CliError, Extracted, backend_twice, backend_missing, backend_flag, kept_argument, extract,
  with_default, extract_backend_option,
}

-- No argument is the flag.
abbrev pub IsFree : List Bytes → Type 0
IsFree [] = Unit {0}
IsFree (x ∷ xs) = (bytes_eq x backend_flag ≡ false) × IsFree xs

IsFree-append : (xs ys : List Bytes) → IsFree xs → IsFree ys → IsFree (xs ++ ys)
IsFree-append [] ys h k = k
IsFree-append (x ∷ xs) ys h k = (h.0, IsFree-append xs ys h.1 k)

extract_free :
    (args : List Bytes) (selected : Option OutputBackend)
    → IsFree args
    → extract args selected ≡ ok (args, selected)
unfolding extract
extract_free [] selected h = refl
extract_free (x ∷ []) selected h = ground arith
extract_free (x ∷ y ∷ rest) selected h = ground (arith, extract_free (y ∷ rest) selected)

abbrev prefixed : List Bytes → Extracted → Extracted
prefixed [] e = e
prefixed (x ∷ xs) e = kept_argument x (prefixed xs e)

extract_prefix :
    (before rest : List Bytes) (y : Bytes) (selected : Option OutputBackend)
    → IsFree before
    → extract (before ++ y ∷ rest) selected ≡ prefixed before (extract (y ∷ rest) selected)
unfolding extract
extract_prefix [] rest y selected h = refl
extract_prefix (x ∷ []) rest y selected h = ground (arith, extract_prefix [] rest y selected)
extract_prefix (x ∷ z ∷ before) rest y selected h =
    ground (arith, extract_prefix (z ∷ before) rest y selected)

prefixed_ok :
    (before rest : List Bytes) (selected : Option OutputBackend)
    → prefixed before (ok (rest, selected)) ≡ ok (before ++ rest, selected)
prefixed_ok [] rest selected = refl
prefixed_ok (x ∷ before) rest selected = rw (prefixed_ok before rest selected)

prefixed_err : (before : List Bytes) (e : CliError) → prefixed before (err e) ≡ err e
prefixed_err [] e = refl
prefixed_err (x ∷ before) e = rw (prefixed_err before e)

extract_option :
    (after : List Bytes) (value : Bytes) (backend : OutputBackend)
    → parse_backend value ≡ ok backend
    → extract (backend_flag ∷ value ∷ after) none ≡ extract after (some backend)
unfolding extract
extract_option after value backend p = rw (bytes_eq_refl backend_flag, p, extract) refl

-- The flag again.
extract_twice :
    (rest : List Bytes) (backend : OutputBackend)
    → extract (backend_flag ∷ rest) (some backend) ≡ err backend_twice
unfolding extract
extract_twice [] backend = rw (bytes_eq_refl backend_flag) refl
extract_twice (x ∷ rest) backend = rw (bytes_eq_refl backend_flag, extract) refl

extract_missing : extract (backend_flag ∷ []) none ≡ err backend_missing
unfolding extract
extract_missing = rw (bytes_eq_refl backend_flag) refl

module _ (before after : List Bytes) (value environment : Bytes) (backend other : OutputBackend)
    (h : IsFree before) (k : IsFree after) (p : parse_backend value ≡ ok backend)
    (q : parse_backend environment ≡ ok other) where
  option_chosen :
      extract_backend_option (before ++ backend_flag ∷ value ∷ after) environment
      ≡ ok (before ++ after, backend)
  unfolding extract_backend_option
  option_chosen =
      let whole : extract (before ++ backend_flag ∷ value ∷ after) none
          ≡ ok (before ++ after, some backend) =
        extract_prefix before (value ∷ after) backend_flag none h
        ∙ ap (prefixed before)
            (extract_option after value backend p ∙ extract_free after (some backend) k)
        ∙ prefixed_ok before after (some backend) in
      rw (whole, q) refl

  environment_chosen :
      extract_backend_option (before ++ after) environment ≡ ok (before ++ after, other)
  unfolding extract_backend_option
  environment_chosen =
      rw (extract_free (before ++ after) none (IsFree-append before after h k), q) refl

  missing_refused :
      extract_backend_option (before ++ backend_flag ∷ []) environment ≡ err backend_missing
  unfolding extract_backend_option
  missing_refused =
      ap (λ (e : Extracted). with_default e (parse_backend environment))
        (extract_prefix before [] backend_flag none h
          ∙ ap (prefixed before) extract_missing
          ∙ prefixed_err before backend_missing)

  twice_refused :
      (rest : List Bytes)
      → extract_backend_option
          (before ++ backend_flag ∷ value ∷ (after ++ backend_flag ∷ rest))
          environment
        ≡ err backend_twice
  unfolding extract_backend_option
  twice_refused rest =
      ap (λ (e : Extracted). with_default e (parse_backend environment))
        (extract_prefix before (value ∷ (after ++ backend_flag ∷ rest)) backend_flag none h
          ∙ ap (prefixed before) (
              extract_option (after ++ backend_flag ∷ rest) value backend p
              ∙ extract_prefix after rest backend_flag (some backend) k
              ∙ ap (prefixed after) (extract_twice rest backend)
              ∙ prefixed_err after backend_twice)
          ∙ prefixed_err before backend_twice)

-- Let the environment name a backend, and let no other argument be the option. Wherever the option
-- stands with a value that names a backend, both are taken out and this backend is chosen over that of
-- the environment; without the option the environment's is chosen and the arguments stay. The option
-- without a value, at the end, is refused, and so is the option given twice, whatever follows.
pub extract_backend_option_lem :
    (before after : List Bytes) (value environment : Bytes) (backend other : OutputBackend)
    → IsFree before
    → IsFree after
    → parse_backend value ≡ ok backend
    → parse_backend environment ≡ ok other
    → (extract_backend_option (before ++ backend_flag ∷ value ∷ after) environment
        ≡ ok (before ++ after, backend))
      × (extract_backend_option (before ++ after) environment ≡ ok (before ++ after, other))
      × (extract_backend_option (before ++ backend_flag ∷ []) environment ≡ err backend_missing)
      × ((rest : List Bytes)
          → extract_backend_option
              (before ++ backend_flag ∷ value ∷ (after ++ backend_flag ∷ rest))
              environment
            ≡ err backend_twice)
extract_backend_option_lem before after value environment backend other h k p q = (
  option_chosen before after value environment backend other h k p q,
  environment_chosen before after value environment backend other h k p q,
  missing_refused before after value environment backend other h k p q,
  twice_refused before after value environment backend other h k p q,
)
