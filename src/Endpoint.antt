-- ===== src/Endpoint.antt =====
-- Socket addresses, and the two validators of an advertised endpoint: `validate_endpoint` of
-- crates/omacam-core/src/pairing.rs and of crates/omacam-core/src/browser.rs.
use omalens.Prelude.{ℕ, ◌*◌, ◌/◌, ◌≡◌, refl, Bool, true, false, not, ◌&&◌, ◌||◌, ◌==◌, leb, arith}

pub data IpAddr : Type 0 where
  v4 : (a b c d : ℕ) → IpAddr
  v6 : (s0 s1 s2 s3 s4 s5 s6 s7 : ℕ) → IpAddr

pub record SocketAddr : Type 0 where
  pub ip : IpAddr
  pub port : ℕ

-- `Ipv4Addr::is_private` and the other classes of the standard library.
abbrev pub is_private : (a b : ℕ) → Bool
is_private a b = a == 10 || (a == 172 && (leb 16 b && leb b 31)) || (a == 192 && b == 168)

abbrev pub is_link_local : (a b : ℕ) → Bool
is_link_local a b = a == 169 && b == 254

abbrev pub is_loopback : (a : ℕ) → Bool
is_loopback a = a == 127

abbrev pub is_unspecified : (a b c d : ℕ) → Bool
is_unspecified a b c d = a == 0 && (b == 0 && (c == 0 && d == 0))

abbrev pub is_multicast : (a : ℕ) → Bool
is_multicast a = leb 224 a && leb a 239

abbrev pub is_broadcast : (a b c d : ℕ) → Bool
is_broadcast a b c d = a == 255 && (b == 255 && (c == 255 && d == 255))

-- `segment & 0xfe00 == 0xfc00` and `segment & 0xffc0 == 0xfe80`, of 16 bits.
abbrev pub is_unique_local : ℕ → Bool
is_unique_local s0 = s0 / 512 * 512 == 0xfc00

abbrev pub is_unicast_link_local : ℕ → Bool
is_unicast_link_local s0 = s0 / 64 * 64 == 0xfe80

unfoldable pub all_zero_but_last : (s0 s1 s2 s3 s4 s5 s6 : ℕ) → Bool
all_zero_but_last s0 s1 s2 s3 s4 s5 s6 =
    s0 == 0 && (s1 == 0 && (s2 == 0 && (s3 == 0 && (s4 == 0 && (s5 == 0 && s6 == 0)))))

-- `is_multicast` of IPv6: the first byte is 0xff.
abbrev pub is_multicast_v6 : ℕ → Bool
is_multicast_v6 s0 = s0 / 256 == 0xff

-- pairing.rs
unfoldable pub is_local : IpAddr → Bool
is_local (v4 a b c d) = is_private a b || is_link_local a b
is_local (v6 s0 s1 s2 s3 s4 s5 s6 s7) = is_unique_local s0 || is_unicast_link_local s0

-- The negation of the guard `endpoint.port() == 0 || !is_local`.
unfoldable pub pairing_accepts : SocketAddr → Bool
unfolding is_local
pairing_accepts endpoint = not (endpoint.port == 0 || not (is_local endpoint.ip))

-- browser.rs
unfoldable pub is_usable : IpAddr → Bool
is_usable (v4 a b c d) =
    not (is_loopback a)
    && (not (is_unspecified a b c d)
        && (not (is_multicast a)
            && (not (is_broadcast a b c d) && (is_private a b || is_link_local a b))))
is_usable (v6 s0 s1 s2 s3 s4 s5 s6 s7) =
    not (all_zero_but_last s0 s1 s2 s3 s4 s5 s6 && s7 == 1)
    && (not (all_zero_but_last s0 s1 s2 s3 s4 s5 s6 && s7 == 0)
        && (not (is_multicast_v6 s0) && (is_unique_local s0 || is_unicast_link_local s0)))

unfoldable pub browser_accepts : SocketAddr → Bool
unfolding is_usable
browser_accepts endpoint = not (endpoint.port == 0) && is_usable endpoint.ip

zero-all_zero_but_last :
    (s0 s1 s2 s3 s4 s5 s6 : ℕ) → all_zero_but_last s0 s1 s2 s3 s4 s5 s6 ≡ true → s0 ≡ 0
unfolding all_zero_but_last
zero-all_zero_but_last s0 s1 s2 s3 s4 s5 s6 h = go (s0 == 0) refl h
  where
    go :
        (b : Bool)
        → (s0 == 0) ≡ b
        → (b && (s1 == 0 && (s2 == 0 && (s3 == 0 && (s4 == 0 && (s5 == 0 && s6 == 0)))))) ≡ true
        → s0 ≡ 0
    go true e h = ground arith
    go false e h = cc

is_usable-is_local : (ip : IpAddr) → is_usable ip ≡ is_local ip
unfolding is_usable is_local
is_usable-is_local (v4 a b c d) = ground arith
is_usable-is_local (v6 s0 s1 s2 s3 s4 s5 s6 s7) =
    ground (arith, zero-all_zero_but_last s0 s1 s2 s3 s4 s5 s6)

-- The two validators of an endpoint, which test different classes of addresses, accept the same
-- endpoints.
pairing_accepts-browser_accepts :
    (endpoint : SocketAddr) → pairing_accepts endpoint ≡ browser_accepts endpoint
unfolding pairing_accepts browser_accepts
pairing_accepts-browser_accepts endpoint =
    rw (is_usable-is_local endpoint.ip) (go (endpoint.port == 0) (is_local endpoint.ip))
  where
    go : (none local : Bool) → not (none || not local) ≡ (not none && local)
    go true local = refl
    go false true = refl
    go false false = refl
