-- ===== src/Transcript.antt =====
-- Length-prefixed fields, as `append_field` of crates/omacam-core/src/pairing.rs, control.rs and
-- browser.rs writes them: the field behind its length as a big-endian u32.
use omalens.Prelude.{
  Bool-cases, inl, inr, ◌>>=◌, >>=-eq-ok, ◌<◌, ◌^◌, ◌≡◌, refl, ap, sym, ◌∙◌, List, [], ◌∷◌, ◌++◌,
  arith, Bytes, length, take, drop, take-append, drop-append, Result, ok, err, to_be_bytes,
  from_be_bytes, from_be_bytes-to_be_bytes, length-to_be_bytes, ltb, if◌then◌else◌, lt→ltb,
}
use mathlib.Core.List.{append_assoc, append-nil}

unfoldable pub framed : Bytes → Bytes
framed field = to_be_bytes 4 (length field) ++ field

-- `target` behind which the field was put, or the error where its length is no u32.
unfoldable pub append_field : {E : Type 0} → E → Bytes → Bytes → Result E Bytes
append_field too_long target field =
    if ltb (length field) (2 ^ 32) then ok (target ++ framed field) else err too_long

pub append_field_ok :
    {E : Type 0} (too_long : E) (target field : Bytes)
    → length field < 2 ^ 32
    → append_field too_long target field ≡ ok (target ++ framed field)
unfolding append_field
append_field_ok too_long target field h = rw (lt→ltb (length field) (2 ^ 32) h)

-- A framed field can be told apart from what follows it.
pub framed-injective :
    (a b x y : Bytes)
    → length a < 2 ^ 32
    → length b < 2 ^ 32
    → framed a ++ x ≡ framed b ++ y
    → (a ≡ b) × (x ≡ y)
unfolding framed
framed-injective a b x y ha hb e =
    let heads : to_be_bytes 4 (length a) ++ (a ++ x) ≡ to_be_bytes 4 (length b) ++ (b ++ y) =
      sym (append_assoc (to_be_bytes 4 (length a)) a x)
      ∙ (e ∙ append_assoc (to_be_bytes 4 (length b)) b y) in
    let prefix : to_be_bytes 4 (length a) ≡ to_be_bytes 4 (length b) =
      sym (take-append 4 (to_be_bytes 4 (length a)) (a ++ x) (length-to_be_bytes 4 (length a)))
      ∙ (ap (take 4) heads
          ∙ take-append 4 (to_be_bytes 4 (length b)) (b ++ y) (length-to_be_bytes 4 (length b))) in
    let same : length a ≡ length b =
      sym (from_be_bytes-to_be_bytes 4 (length a) ha)
      ∙ (ap from_be_bytes prefix ∙ from_be_bytes-to_be_bytes 4 (length b) hb) in
    let rests : a ++ x ≡ b ++ y =
      sym (drop-append 4 (to_be_bytes 4 (length a)) (a ++ x) (length-to_be_bytes 4 (length a)))
      ∙ (ap (drop 4) heads
          ∙ drop-append 4 (to_be_bytes 4 (length b)) (b ++ y) (length-to_be_bytes 4 (length b))) in
    (
      sym (take-append (length a) a x refl)
          ∙ (ap (take (length a)) rests ∙ take-append (length a) b y (sym same)),
      sym (drop-append (length a) a x refl)
          ∙ (ap (drop (length a)) rests ∙ drop-append (length a) b y (sym same)),
    )

-- Fields one after another.
unfoldable pub append_fields : {E : Type 0} → E → Bytes → List Bytes → Result E Bytes
append_fields too_long target [] = ok target
append_fields too_long target (f ∷ fs) = do
  target' ← append_field too_long target f
  append_fields too_long target' fs

unfoldable pub frames : List Bytes → Bytes
frames [] = []
frames (f ∷ fs) = framed f ++ frames fs

abbrev pub AreShort : List Bytes → Type 0
AreShort [] = Unit {0}
AreShort (f ∷ fs) = (length f < 2 ^ 32) × AreShort fs

append_field-eq-ok :
    {E : Type 0} (too_long : E) (target field : Bytes) {out : Bytes}
    → append_field too_long target field ≡ ok out
    → (length field < 2 ^ 32) × (out ≡ target ++ framed field)
unfolding append_field
append_field-eq-ok too_long target field h = elim (Bool-cases (ltb (length field) (2 ^ 32))) [
  | inl short ↦ (ground arith, ground arith)
  | inr long ↦ absurd (ground arith)
]

pub append_fields-eq-ok :
    {E : Type 0} (too_long : E) (fs : List Bytes) (target out : Bytes)
    → append_fields too_long target fs ≡ ok out
    → (out ≡ target ++ frames fs) × AreShort fs
unfolding append_fields frames
append_fields-eq-ok too_long [] target out h = (rw append-nil (cc), tt)
append_fields-eq-ok too_long (f ∷ fs) target out h =
    let (target', one, rest) =
      >>=-eq-ok (append_field too_long target f) (λ t. append_fields too_long t fs) h in
    let (short, same) = append_field-eq-ok too_long target f one in
    let (all, shorts) = append_fields-eq-ok too_long fs target' out rest in
    (all ∙ rw same (append_assoc target (framed f) (frames fs)), (short, shorts))

pub append_fields_ok :
    {E : Type 0} (too_long : E) (fs : List Bytes) (target : Bytes)
    → AreShort fs
    → append_fields too_long target fs ≡ ok (target ++ frames fs)
unfolding append_fields frames
append_fields_ok too_long [] target h = rw append-nil
append_fields_ok too_long (f ∷ fs) target h = rw (
  append_field_ok too_long target f h.0,
  append_fields_ok too_long fs (target ++ framed f) h.1,
  append_assoc target (framed f) (frames fs),
)

-- As many fields framed in a row can be read back in one way only.
pub frames-injective :
    (fs gs : List Bytes)
    → length fs ≡ length gs
    → AreShort fs
    → AreShort gs
    → frames fs ≡ frames gs
    → fs ≡ gs
unfolding frames
frames-injective [] [] l hf hg e = refl
frames-injective [] (g ∷ gs) l hf hg e = absurd (omega arith)
frames-injective (f ∷ fs) [] l hf hg e = absurd (omega arith)
frames-injective (f ∷ fs) (g ∷ gs) l hf hg e =
    let (one, rest) = framed-injective f g (frames fs) (frames gs) hf.0 hg.0 e in
    let others = frames-injective fs gs (omega arith) hf.1 hg.1 rest in λ i. one i ∷ others i

-- The same behind a common prefix.
pub append_cancel : (p x y : Bytes) → p ++ x ≡ p ++ y → x ≡ y
append_cancel p x y e =
    sym (drop-append (length p) p x refl)
    ∙ (ap (drop (length p)) e ∙ drop-append (length p) p y refl)
