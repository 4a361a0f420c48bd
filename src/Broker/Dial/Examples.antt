-- ===== src/Broker/Dial/Examples.antt =====
-- Tests of broker/file.go and of Broker.client, and the theorems at inputs: an absolute path begins
-- with a slash, and a connection is its target.
use glider_client_go.Common.{
  ◌≡◌, refl, Bool, true, false, [], ◌∷◌, ◌++◌, Option, none, some, Bytes, lit, ok, err, str_eq,
  ◌==◌,
}
use glider_client_go.Common.Int.{pos}
use glider_client_go.Std.Decimal.{format_int}
use glider_client_go.Broker.Info.{Broker}
use glider_client_go.Broker.Dial.{DialError, Credentials, path, credentials, dial}

abbrev starts_with_slash : Bytes → Bool
starts_with_slash [] = false
starts_with_slash (b ∷ bs) = b == b'/'

abbrev with_slash : Bytes → Bytes → Bytes
with_slash a b = a ++ (b'/' ∷ b)

abbrev home : Option Bytes
home = some (lit "/home")

-- Certificates load from the current directory alone.
abbrev home_loads : Bytes → Bytes → Bool
home_loads file host = str_eq file (lit "/home/ca.crt")

abbrev connects : Bytes → Credentials → Bytes → Option Bytes
connects target creds interceptor = some (interceptor ++ target)

abbrev shard : Broker
shard = record {
  id = lit "a";
  host = lit "h";
  port = pos 443;
  insecure = true;
  cert_path = lit "ca.crt";
}

shard_dialed :
    dial starts_with_slash with_slash home home_loads connects (lit "i ") shard ≡ ok (lit "i h:443")
unfolding dial credentials path str_eq format_int
shard_dialed = refl

no_directory : path starts_with_slash with_slash none (lit "ca.crt") ≡ err DialError.cert_failed
unfolding path
no_directory = refl
