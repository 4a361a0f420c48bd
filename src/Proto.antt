-- ===== src/Proto.antt =====
-- The fields of a message that the client reads and writes (proto/pubsub.pb.go, Message). A byte
-- slice that may be nil is an `Option`; the timestamp is the nanoseconds of its instant.
use glider_client_go.Common.{Bool, Option, Bytes}
use glider_client_go.Common.Int.{ℤ}

pub record Message : Type 0 where
  pub id : Bytes
  pub name : Bytes
  pub project : Bytes
  pub segment : Bytes
  pub payload : Bytes
  pub sub : Bool
  pub sub_id : Bytes
  pub sub_pod : Bytes
  pub sub_module : Bytes
  pub sub_broker : Bytes
  pub sub_project : Bytes
  pub error : Bytes
  pub context : Option Bytes
  pub timestamp : ℤ
