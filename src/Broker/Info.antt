-- ===== src/Broker/Info.antt =====
-- The fields of a broker that the server sends (broker/broker.go, Broker) and its certificate.
use glider_client_go.Common.{Bool, Bytes}
use glider_client_go.Common.Int.{ℤ}

pub record Broker : Type 0 where
  pub id : Bytes
  pub host : Bytes
  pub port : ℤ
  pub insecure : Bool
  pub cert_path : Bytes

-- SetCertPath
unfoldable pub set_cert_path : Broker → Bytes → Broker
set_cert_path b crt = record b { cert_path = crt }
