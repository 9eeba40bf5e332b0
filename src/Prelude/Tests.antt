-- ===== src/Prelude/Tests.antt =====
-- Boolean tests, the conditional, results of fallible code, and unsigned 64-bit arithmetic.
use Prim.Native.Nat.{◌<◌, ℕ, ◌+◌, ◌^◌, ◌%◌, compare, Ordering, min}
use mathlib.Core.Path.{◌≡◌, refl}
use mathlib.Core.Logic.{◌↔◌, ◌⊎◌, inl, inr}
use mathlib.Core.Bool.{Bool, true, false, not}
use mathlib.Core.Option.{Option, none, some}
use native.Mathlib.Omega.{arith}

abbrev pub ltb : ℕ → ℕ → Bool
ltb a b = elim (compare a b) [ Ordering.lt ↦ true | _ ↦ false ]

abbrev pub leb : ℕ → ℕ → Bool
leb a b = elim (compare a b) [ Ordering.gt ↦ false | _ ↦ true ]

infix 50 ◌==◌
abbrev pub ◌==◌ : ℕ → ℕ → Bool
a == b = elim (compare a b) [ Ordering.eq ↦ true | _ ↦ false ]

infix 1 if◌then◌else◌
abbrev pub if◌then◌else◌ {ℓ} : {A : Type ℓ} → Bool → A → A → A
if true then x else y = x
if false then x else y = y

pub ==_iff : (a b : ℕ) → ((a == b) ≡ true) ↔ (a ≡ b)
==_iff a b = ground arith

pub Bool-cases : (b : Bool) → (b ≡ true) ⊎ (b ≡ false)
Bool-cases true = inl refl
Bool-cases false = inr refl

pub Option-cases {ℓ} : {A : Type ℓ} (o : Option A) → (o ≡ none) ⊎ ((a : A) × (o ≡ some a))
Option-cases none = inl refl
Option-cases (some a) = inr (a, refl)

abbrev pub is_some {ℓ} : {A : Type ℓ} → Option A → Bool
is_some none = false
is_some (some a) = true

-- `Option::is_some_and` and `Option::is_none_or`.
abbrev pub is_some_and {ℓ} : {A : Type ℓ} → Option A → (A → Bool) → Bool
is_some_and none p = false
is_some_and (some a) p = p a

abbrev pub is_none_or {ℓ} : {A : Type ℓ} → Option A → (A → Bool) → Bool
is_none_or none p = true
is_none_or (some a) p = p a

-- `Result<A, E>`, and the `?` operator: what fails skips the rest.
pub data Result {ℓ} (E : Type 0) (A : Type ℓ) : Type ℓ where
  err : (why : E) → Result E A
  ok : (value : A) → Result E A

infixl 5 ◌>>=◌ ◌>>◌
abbrev pub ◌>>=◌ {ℓ κ} :
    {A : Type ℓ} {E : Type 0} {B : Type κ} → Result E A → (rest : A → Result E B) → Result E B
err why >>= rest = err why
ok value >>= rest = rest value

abbrev pub ◌>>◌ {ℓ} :
    {B : Type ℓ} {E : Type 0} → Result E (Unit {0}) → (rest : Result E B) → Result E B
first >> rest = first >>= λ _. rest

-- `if reject { return Err(e) }`.
abbrev pub reject_if : {E : Type 0} → Bool → E → Result E (Unit {0})
reject_if true e = err e
reject_if false e = ok tt

-- `Option::ok_or` and `Result::map_err`.
abbrev pub ok_or {ℓ} : {E : Type 0} {A : Type ℓ} → Option A → E → Result E A
ok_or none e = err e
ok_or (some a) e = ok a

abbrev pub map_err {ℓ} : {E F : Type 0} {A : Type ℓ} → Result E A → F → Result F A
map_err (ok a) f = ok a
map_err (err e) f = err f

-- u64 arithmetic: `wrapping_add`, `saturating_add` and `checked_add`. `saturating_sub` is `-` on ℕ.
abbrev pub u64_mod : ℕ
u64_mod = 2 ^ 64

abbrev pub u64_max : ℕ
u64_max = 0xffff_ffff_ffff_ffff

abbrev pub wrapping_add : ℕ → ℕ → ℕ
wrapping_add a b = (a + b) % u64_mod

abbrev pub saturating_add : ℕ → ℕ → ℕ
saturating_add a b = min (a + b) u64_max

abbrev pub checked_add : ℕ → ℕ → Option ℕ
checked_add a b = if ltb (a + b) u64_mod then some (a + b) else none

-- Inversion of a successful chain.
pub passed {ℓ} :
    {E : Type 0} {A : Type ℓ} (test : Bool) (e : E) (rest : Result E A) {a : A}
    → (reject_if test e >> rest) ≡ ok a
    → (test ≡ false) × (rest ≡ ok a)
passed true e rest h = cc
passed false e rest h = (refl, h)

pub passed_last :
    {E : Type 0} (test : Bool) (e : E) {u : Unit {0}} → reject_if test e ≡ ok u → test ≡ false
passed_last true e h = cc
passed_last false e h = refl

pub >>=-eq-ok {ℓ κ} :
    {A : Type ℓ} {E : Type 0} {B : Type κ} {out : B} (first : Result E A) (rest : A → Result E B)
    → (first >>= rest) ≡ ok out
    → (value : A) × (first ≡ ok value) × (rest value ≡ ok out)
>>=-eq-ok (err why) rest h = cc
>>=-eq-ok (ok value) rest h = (value, refl, h)

pub ==_refl : (n : ℕ) → (n == n) ≡ true
==_refl n = ground arith

pub not-==_iff : (a b : ℕ) → (not (a == b) ≡ false) ↔ (a ≡ b)
not-==_iff a b = (λ h. ground arith, λ h. ground arith)

-- What holds of both branches.
pub if_both {ℓ κ} :
    {A : Type ℓ} (Q : A → Type κ) (b : Bool) {x y : A} → Q x → Q y → Q (if b then x else y)
if_both Q true p q = p
if_both Q false p q = q

pub lt→ltb : (a b : ℕ) → a < b → ltb a b ≡ true
lt→ltb a b h = ground arith

pub >>=-ok {ℓ} : {E : Type 0} {A : Type ℓ} (m : Result E A) → (m >>= λ a. ok a) ≡ m
>>=-ok (ok a) = refl
>>=-ok (err e) = refl
