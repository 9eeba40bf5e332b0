-- ===== src/Media/Hex.antt =====
-- crates/omacam-core/src/media.rs: identifiers as hexadecimal text, for the command line.
use omalens.Prelude.{
  inr, inl, Bool-cases, ==_iff, ℕ, zero, suc, ◌+◌, ◌-◌, ◌*◌, ◌/◌, ◌%◌, ◌<◌, ◌≡◌, refl, true, not,
  ◌&&◌, Option, none, some, [], ◌∷◌, map, arith, Bytes, AreBytes, length, ◌==◌, leb, ltb,
  if◌then◌else◌, Result, ok, ok_or,
}
use omalens.Media.Wire.{PeerIdentity, ControlConnectionId, MediaSessionId}
use omalens.Media.Stream.{
  MediaError, invalid_peer_identity, invalid_connection_id, invalid_session_id,
}

unfoldable pub hex_nibble : ℕ → Option ℕ
hex_nibble value =
    if leb b'0' value && leb value b'9'
    then some (value - b'0')
    else if leb b'a' value && leb value b'f'
    then some (value - b'a' + 10)
    else if leb b'A' value && leb value b'F'
    then some (value - b'A' + 10)
    else none

-- `(high << 4) | low`, of two nibbles.
abbrev pub join : Option ℕ → Option ℕ → Option Bytes → Option Bytes
join (some high) (some low) (some rest) = some ((high * 16 + low) ∷ rest)
join _ _ _ = none

-- The loop over the pairs; a single last byte would be the remainder of `as_chunks`.
unfoldable pub parse_pairs : Bytes → Option Bytes
unfolding hex_nibble
parse_pairs [] = some []
parse_pairs (a ∷ []) = some []
parse_pairs (a ∷ b ∷ rest) = join (hex_nibble a) (hex_nibble b) (parse_pairs rest)

unfoldable pub parse_hex : ℕ → Bytes → Option Bytes
parse_hex n value = if not (length value == n * 2) then none else parse_pairs value

-- A digit of `{byte:02x}`.
hex_digit : ℕ → ℕ
hex_digit n = if ltb n 10 then b'0' + n else b'a' + (n - 10)

pub encode_hex : Bytes → Bytes
unfolding hex_digit
encode_hex [] = []
encode_hex (byte ∷ bytes) = hex_digit (byte / 16) ∷ hex_digit (byte % 16) ∷ encode_hex bytes

-- `MediaSessionId`, `PeerIdentity` and `ControlConnectionId` as text, and back.
pub session_to_hex : MediaSessionId → Bytes
session_to_hex id = encode_hex id

unfoldable pub session_from_hex : Bytes → Result MediaError MediaSessionId
session_from_hex value = ok_or (parse_hex 16 value) invalid_session_id

pub peer_to_hex : PeerIdentity → Bytes
peer_to_hex id = encode_hex id

unfoldable pub peer_from_hex : Bytes → Result MediaError PeerIdentity
peer_from_hex value = ok_or (parse_hex 32 value) invalid_peer_identity

pub connection_to_hex : ControlConnectionId → Bytes
connection_to_hex id = encode_hex id

unfoldable pub connection_from_hex : Bytes → Result MediaError ControlConnectionId
connection_from_hex value = ok_or (parse_hex 16 value) invalid_connection_id

hex_nibble-hex_digit : (n : ℕ) → n < 16 → hex_nibble (hex_digit n) ≡ some n
unfolding hex_nibble hex_digit
hex_nibble-hex_digit n h = ground arith

length-encode_hex : (bs : Bytes) → length (encode_hex bs) ≡ length bs * 2
unfolding encode_hex
length-encode_hex [] = refl
length-encode_hex (b ∷ bs) = omega (arith, length-encode_hex bs)

parse_pairs-encode_hex : (bs : Bytes) → AreBytes bs → parse_pairs (encode_hex bs) ≡ some bs
unfolding parse_pairs encode_hex
parse_pairs-encode_hex [] h = refl
parse_pairs-encode_hex (b ∷ bs) h =
    let whole : b / 16 * 16 + b % 16 ≡ b = omega arith in
    rw (
      hex_nibble-hex_digit (b / 16) (omega arith),
      hex_nibble-hex_digit (b % 16) (omega arith),
      parse_pairs-encode_hex bs h.1,
      whole,
    )

parse_hex-encode_hex :
    (n : ℕ) (bs : Bytes) → AreBytes bs → length bs ≡ n → parse_hex n (encode_hex bs) ≡ some bs
unfolding parse_hex
parse_hex-encode_hex n bs h e =
    let size : (length (encode_hex bs) == n * 2) ≡ true =
      (==_iff _ _).1 (omega (arith, length-encode_hex bs)) in
    rw (size, parse_pairs-encode_hex bs h)

-- Each of the three identifiers, of its fixed length, comes back from its text.
from_hex-to_hex :
    (session peer connection : Bytes)
    → AreBytes session
    → AreBytes peer
    → AreBytes connection
    → length session ≡ 16
    → length peer ≡ 32
    → length connection ≡ 16
    → (session_from_hex (session_to_hex session) ≡ ok session)
      × (peer_from_hex (peer_to_hex peer) ≡ ok peer)
      × (connection_from_hex (connection_to_hex connection) ≡ ok connection)
unfolding session_from_hex session_to_hex peer_from_hex peer_to_hex connection_from_hex
    connection_to_hex
from_hex-to_hex session peer connection s p c ls lp lc = (
  rw (parse_hex-encode_hex 16 session s ls),
  rw (parse_hex-encode_hex 32 peer p lp),
  rw (parse_hex-encode_hex 16 connection c lc),
)

-- ASCII upper case letters to lower case.
abbrev pub to_lower : ℕ → ℕ
to_lower c = if leb b'A' c && leb c b'Z' then c + 32 else c

hex_nibble-eq-some : (c n : ℕ) → hex_nibble c ≡ some n → (n < 16) × (hex_digit n ≡ to_lower c)
unfolding hex_nibble hex_digit
hex_nibble-eq-some c n h = (ground arith, ground arith)

join-eq-some :
    (a b : Option ℕ) (rest : Option Bytes) (bs : Bytes)
    → join a b rest ≡ some bs
    → (high low : ℕ) × (tail : Bytes) × (a ≡ some high)
      × (b ≡ some low)
      × (rest ≡ some tail)
      × (bs ≡ (high * 16 + low) ∷ tail)
join-eq-some none b rest bs h = cc
join-eq-some (some a) none rest bs h = cc
join-eq-some (some a) (some b) none bs h = cc
join-eq-some (some a) (some b) (some rest) bs h = (a, b, rest, refl, refl, refl, cc)

parse_pairs-eq-some :
    (value bs : Bytes) (n : ℕ)
    → length value ≡ n * 2
    → parse_pairs value ≡ some bs
    → (encode_hex bs ≡ map to_lower value) × (length bs ≡ n) × AreBytes bs
unfolding parse_pairs encode_hex
parse_pairs-eq-some [] bs n l h = let e : bs ≡ [] = cc in rw e (refl, omega arith, tt)
parse_pairs-eq-some (a ∷ []) bs n l h = absurd (omega arith)
parse_pairs-eq-some (a ∷ b ∷ rest) bs zero l h = absurd (omega arith)
parse_pairs-eq-some (a ∷ b ∷ rest) bs (suc n) l h =
    let (high, low, tail, ha, hb, ht, e) = join-eq-some _ _ _ bs h in
    let (h16, hd) = hex_nibble-eq-some a high ha in
    let (l16, ld) = hex_nibble-eq-some b low hb in
    let (same, size, bytes) = parse_pairs-eq-some rest tail n (omega arith) ht in
    let upper : (high * 16 + low) / 16 ≡ high = omega arith in
    let lower : (high * 16 + low) % 16 ≡ low = omega arith in
    rw (e, upper, lower, hd, ld, same) (refl, omega arith, (omega arith, bytes))

ok_or-eq-ok {ℓ} :
    {E : Type 0} {A : Type ℓ} (o : Option A) (e : E) {a : A} → ok_or o e ≡ ok a → o ≡ some a
ok_or-eq-ok none e h = cc
ok_or-eq-ok (some a) e h = cc

parse_hex-eq-some :
    (n : ℕ) (value bs : Bytes)
    → parse_hex n value ≡ some bs
    → (encode_hex bs ≡ map to_lower value) × (length value ≡ n * 2) × (length bs ≡ n) × AreBytes bs
unfolding parse_hex
parse_hex-eq-some n value bs h = elim (Bool-cases (length value == n * 2)) [
  | inl right ↦
      let size : length value ≡ n * 2 = (==_iff _ _).0 right in
      let (same, whole, bytes) = parse_pairs-eq-some value bs n size (rw right at h) in
      (same, size, whole, bytes)
  | inr wrong ↦ let e : Option.none ≡ some bs = rw wrong at h in cc
]

-- Text that is accepted as a peer identity, of 32 bytes, is 64 characters long, and prints as its
-- lower case; so it does for the 16 bytes and 32 characters of the other two identifiers.
pub to_hex-from_hex :
    (text text' text'' peer session connection : Bytes)
    → peer_from_hex text ≡ ok peer
    → session_from_hex text' ≡ ok session
    → connection_from_hex text'' ≡ ok connection
    → ((peer_to_hex peer ≡ map to_lower text)
        × (length text ≡ 64)
        × (length peer ≡ 32)
        × AreBytes peer)
      × ((session_to_hex session ≡ map to_lower text')
          × (length text' ≡ 32)
          × (length session ≡ 16)
          × AreBytes session)
      × ((connection_to_hex connection ≡ map to_lower text'')
          × (length text'' ≡ 32)
          × (length connection ≡ 16)
          × AreBytes connection)
unfolding session_from_hex session_to_hex peer_from_hex peer_to_hex connection_from_hex
    connection_to_hex
to_hex-from_hex text text' text'' peer session connection p s c = (
  parse_hex-eq-some 32 text peer (ok_or-eq-ok _ _ p),
  parse_hex-eq-some 16 text' session (ok_or-eq-ok _ _ s),
  parse_hex-eq-some 16 text'' connection (ok_or-eq-ok _ _ c),
)
