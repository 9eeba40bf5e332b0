-- ===== src/Prelude/BigEndian.antt =====
-- `to_be_bytes` and `from_be_bytes` of the unsigned integers, at any width.
use Prim.Native.Nat.{ℕ, zero, suc, ◌+◌, ◌*◌, ◌/◌, ◌%◌, ◌^◌, ◌<◌}
use native.Mathlib.Nat.{pow-suc, zero-add}
use mathlib.Core.Path.{◌≡◌, refl, ◌∙◌}
use mathlib.Core.List.{append_assoc, append-nil, [], ◌∷◌, ◌++◌}
use native.Mathlib.Omega.{arith}
use omalens.Prelude.Lists.{length, length-append, Bytes, AreBytes}

-- The last `k` bytes of `n`, most significant first.
unfoldable pub to_be_bytes : ℕ → ℕ → Bytes
to_be_bytes zero n = []
to_be_bytes (suc k) n = to_be_bytes k (n / 256) ++ n % 256 ∷ []

read_be : ℕ → Bytes → ℕ
read_be acc [] = acc
read_be acc (b ∷ bs) = read_be (acc * 256 + b) bs

unfoldable pub from_be_bytes : Bytes → ℕ
unfolding read_be
from_be_bytes bs = read_be 0 bs

read_be-append : (acc : ℕ) (bs cs : Bytes) → read_be acc (bs ++ cs) ≡ read_be (read_be acc bs) cs
unfolding read_be
read_be-append acc [] cs = refl
read_be-append acc (b ∷ bs) cs = read_be-append (acc * 256 + b) bs cs

pub length-to_be_bytes : (k n : ℕ) → length (to_be_bytes k n) ≡ k
unfolding to_be_bytes
length-to_be_bytes zero n = refl
length-to_be_bytes (suc k) n =
    omega (
      arith,
      length-append (to_be_bytes k (n / 256)) (n % 256 ∷ []),
      length-to_be_bytes k (n / 256),
    )

pub from_be_bytes-to_be_bytes : (k n : ℕ) → n < 256 ^ k → from_be_bytes (to_be_bytes k n) ≡ n
unfolding from_be_bytes to_be_bytes read_be
from_be_bytes-to_be_bytes zero n h = omega arith
from_be_bytes-to_be_bytes (suc k) n h =
    read_be-append 0 (to_be_bytes k (n / 256)) (n % 256 ∷ [])
    ∙ omega (arith, from_be_bytes-to_be_bytes k (n / 256) (omega (arith, pow-suc 256 k)))

to_be_bytes-read_be :
    (bs : Bytes) (j acc : ℕ)
    → AreBytes bs
    → to_be_bytes (length bs + j) (read_be acc bs) ≡ to_be_bytes j acc ++ bs
unfolding to_be_bytes read_be
to_be_bytes-read_be [] j acc h = rw (zero-add, append-nil)
to_be_bytes-read_be (b ∷ bs) j acc h =
    let width : suc (length bs) + j ≡ length bs + suc j = omega arith in
    let digit : (acc * 256 + b) % 256 ≡ b = omega arith in
    let upper : (acc * 256 + b) / 256 ≡ acc = omega arith in
    rw (width, to_be_bytes-read_be bs (suc j) (acc * 256 + b) h.1, digit, upper, append_assoc)

-- Decoding loses nothing: the bytes are those of the number that they stand for.
pub to_be_bytes-from_be_bytes :
    (bs : Bytes) → AreBytes bs → to_be_bytes (length bs) (from_be_bytes bs) ≡ bs
unfolding from_be_bytes to_be_bytes
to_be_bytes-from_be_bytes bs h =
    let width : length bs ≡ length bs + 0 = omega arith in rw width (to_be_bytes-read_be bs 0 0 h)

read_be-lt :
    (bs : Bytes) (acc k : ℕ) → AreBytes bs → acc < 256 ^ k → read_be acc bs < 256 ^ (length bs + k)
unfolding read_be
read_be-lt [] acc k h a = let e : 0 + k ≡ k = omega arith in rw e a
read_be-lt (b ∷ bs) acc k h a =
    let e : suc (length bs) + k ≡ length bs + suc k = omega arith in
    rw e (read_be-lt bs (acc * 256 + b) (suc k) h.1 (omega (arith, pow-suc 256 k)))

pub from_be_bytes-lt : (bs : Bytes) → AreBytes bs → from_be_bytes bs < 256 ^ length bs
unfolding from_be_bytes
from_be_bytes-lt bs h =
    let e : length bs ≡ length bs + 0 = omega arith in rw e (read_be-lt bs 0 0 h (omega arith))
