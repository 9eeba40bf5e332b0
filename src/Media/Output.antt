-- ===== src/Media/Output.antt =====
-- crates/omacam-core/src/media.rs: the fixed-size commands of the output worker, `Bind`, `Reset`
-- and `Shutdown`. A writer is the list of the bytes written to it, and takes all of them.
use mathlib.Core.List.{append-nil}
use omalens.Prelude.{
  drop_all, ap, Bool, ◌∙◌, take-append-drop, sym, length-drop, bytes_eq_iff, length-take, drop,
  AreBytes, length, true, ℕ, ◌≡◌, ◌≢◌, refl, not, ◌||◌, [], ◌∷◌, ◌++◌, arith, Bytes, bytes_eq, ◌==◌,
  if◌then◌else◌, Result, ok, err, ◌>>◌, reject_if, all, replicate,
}
use omalens.Media.Fields.{
  drop-add, header_start, read_binding-IsBinding, binding_bytes-read_binding,
  read_binding-binding_bytes,
}
use omalens.Media.Wire.{
  MediaBinding, IsBinding, binding_bytes, slice, byte_at, read_binding, media_protocol_version,
  output_control_magic,
}

pub data OutputControlCommand : Type 0 where
  bind reset : MediaBinding → OutputControlCommand
  shutdown : OutputControlCommand

pub data OutputControlError : Type 0 where
  invalid_magic unsupported_version invalid_kind invalid_flags invalid_binding : OutputControlError

abbrev pub control_kind : OutputControlCommand → ℕ
control_kind (bind _) = 1
control_kind (reset _) = 2
control_kind shutdown = 3

-- Bytes 12 to 84: the binding, or the zeroes that the header starts as.
abbrev pub control_region : OutputControlCommand → Bytes
control_region (bind b) = binding_bytes b []
control_region (reset b) = binding_bytes b []
control_region shutdown = replicate 72 0

unfoldable pub write_output_control : OutputControlCommand → Bytes
write_output_control c =
    output_control_magic ++ media_protocol_version ∷ control_kind c ∷ 0 ∷ 0 ∷ control_region c

-- The `match` on the kind; `blank` says that bytes 12 to 84 are all zero.
parse_arm : ℕ → MediaBinding → Bool → Result OutputControlError OutputControlCommand
parse_arm kind b blank =
    if kind == 1 || kind == 2
    then if b.generation == 0
      then err invalid_binding
      else if kind == 1
      then ok (bind b)
      else ok (reset b)
    else if kind == 3
    then if blank then ok shutdown else err invalid_binding
    else err invalid_kind

parse_kind : ℕ → Bytes → Result OutputControlError OutputControlCommand
unfolding parse_arm
parse_kind kind header =
    parse_arm kind (read_binding header) (all (slice 12 84 header) (λ byte. byte == 0))

unfoldable pub parse_output_control : Bytes → Result OutputControlError OutputControlCommand
unfolding parse_kind
parse_output_control header = do
  reject_if (not (bytes_eq (slice 0 8 header) output_control_magic)) invalid_magic
  reject_if (not (byte_at header 8 == media_protocol_version)) unsupported_version
  reject_if (not (byte_at header 10 == 0) || not (byte_at header 11 == 0)) invalid_flags
  parse_kind (byte_at header 9) header

-- A command that the daemon may send: its binding has the types' shape and a generation.
abbrev pub IsCommand : OutputControlCommand → Type 0
IsCommand (bind b) = IsBinding b × (b.generation ≢ 0)
IsCommand (reset b) = IsBinding b × (b.generation ≢ 0)
IsCommand shutdown = Unit {0}

-- A command comes back from its header as it was.
pub parse-write_output_control :
    (c : OutputControlCommand) → IsCommand c → parse_output_control (write_output_control c) ≡ ok c
unfolding parse_output_control write_output_control bytes_eq slice byte_at
parse-write_output_control (bind b) v =
    rw (read_binding-binding_bytes b [] (write_output_control (bind b)) v.0 refl) (ground arith)
parse-write_output_control (reset b) v =
    rw (read_binding-binding_bytes b [] (write_output_control (reset b)) v.0 refl) (ground arith)
parse-write_output_control shutdown v = refl

all_zero : (xs : Bytes) → all xs (λ byte. byte == 0) ≡ true → xs ≡ replicate (length xs) 0
all_zero [] h = refl
all_zero (x ∷ xs) h = ground (arith, all_zero xs)

-- Which arm made a command.
abbrev MadeBy : ℕ → MediaBinding → Bool → OutputControlCommand → Type 0
MadeBy kind b blank (bind c) = (kind ≡ 1) × (b ≡ c) × (c.generation ≢ 0)
MadeBy kind b blank (reset c) = (kind ≡ 2) × (b ≡ c) × (c.generation ≢ 0)
MadeBy kind b blank shutdown = (kind ≡ 3) × (blank ≡ true)

parse_arm-MadeBy :
    (kind : ℕ) (b : MediaBinding) (blank : Bool) (c : OutputControlCommand)
    → parse_arm kind b blank ≡ ok c
    → MadeBy kind b blank c
unfolding parse_arm
parse_arm-MadeBy kind b blank (bind c) h = ground arith
parse_arm-MadeBy kind b blank (reset c) h = ground arith
parse_arm-MadeBy kind b blank shutdown h = ground arith

parse_output_control-eq-ok :
    (header : Bytes) (c : OutputControlCommand)
    → parse_output_control header ≡ ok c
    → (slice 0 8 header ≡ output_control_magic)
      × (byte_at header 8 ≡ 1)
      × (byte_at header 10 ≡ 0)
      × (byte_at header 11 ≡ 0)
      × (parse_kind (byte_at header 9) header ≡ ok c)
unfolding parse_output_control
parse_output_control-eq-ok header c h =
    ground (arith, bytes_eq_iff (slice 0 8 header) output_control_magic)

module _ (header : Bytes) (bytes : AreBytes header) (size : length header ≡ 84) where
  region_of_binding : drop 12 header ≡ binding_bytes (read_binding header) []
  region_of_binding =
      rw (← drop_all 84 header size) (binding_bytes-read_binding header bytes (omega arith))

  region_of_zero :
      all (slice 12 84 header) (λ byte. byte == 0) ≡ true → drop 12 header ≡ replicate 72 0
  unfolding slice
  region_of_zero h =
      let whole : length (slice 12 84 header) ≡ 72 =
        omega (arith, length-take 72 (drop 12 header), length-drop 12 header) in
      let rest : drop 84 header ≡ [] = drop_all 84 header size in
      sym (take-append-drop 72 (drop 12 header))
      ∙ (rw (← drop-add 12 72 header, rest, append-nil)
          (all_zero (slice 12 84 header) h ∙ ap (λ n. replicate n 0) whole))

  MadeBy-region :
      (kind : ℕ) (c : OutputControlCommand)
      → MadeBy kind (read_binding header) (all (slice 12 84 header) (λ byte. byte == 0)) c
      → (kind ≡ control_kind c) × (drop 12 header ≡ control_region c) × IsCommand c
  MadeBy-region kind (bind b) (k, e, g) = (
    k,
    rw e at region_of_binding,
    (rw e at (read_binding-IsBinding header bytes (omega arith)), g),
  )
  MadeBy-region kind (reset b) (k, e, g) = (
    k,
    rw e at region_of_binding,
    (rw e at (read_binding-IsBinding header bytes (omega arith)), g),
  )
  MadeBy-region kind shutdown (k, z) = (k, region_of_zero z, tt)

  -- A header of the fixed size that is accepted as a command is the one that is written for that
  -- command, byte for byte, and a command other than Shutdown has a binding of the right shape
  -- whose generation is not 0: no two headers mean the same command.
  pub write-parse_output_control :
      (c : OutputControlCommand)
      → parse_output_control header ≡ ok c
      → (write_output_control c ≡ header) × IsCommand c
  unfolding write_output_control parse_kind
  write-parse_output_control c h =
      let (magic, version, ten, eleven, made) = parse_output_control-eq-ok header c h in
      let (kind, region, valid) =
        MadeBy-region (byte_at header 9) c (parse_arm-MadeBy (byte_at header 9) _ _ c made) in
      let start = header_start header bytes (omega arith) in
      (sym (start ∙ λ i. magic i ++ version i ∷ kind i ∷ ten i ∷ eleven i ∷ region i), valid)
