-- ===== src/Tests/Fixtures.antt =====
-- Test data: a platform whose base64 changes nothing and whose digest is 32 zeroes.
use omalens.Prelude.{refl, true, some, replicate, codes}
use omalens.Endpoint.{SocketAddr, v4}
use omalens.Platform.{Platform, IsPlatform}

abbrev pub platform : Platform
platform = record {
  base64_encode = λ bytes. bytes;
  base64_decode = λ bytes. some bytes;
  sha256 = λ bytes. replicate 32 0;
  is_public_key_der = λ bytes. true;
  is_signature_der = λ bytes. true;
  verifies = λ key message signature. true;
  chars = λ bytes. bytes;
  is_alphanumeric = λ c. true;
  socket_to_string = λ endpoint. codes "192.168.1.5:8443";
}

pub platform-IsPlatform : IsPlatform platform
platform-IsPlatform = record { decode-encode = λ bytes. refl; length-sha256 = λ bytes. refl }

abbrev pub endpoint : SocketAddr
endpoint = record { ip = v4 192 168 1 5; port = 8443 }
