-- ===== src/Client.antt =====
-- client/client.go: the client's state and the calls that change it. A broker stands for the
-- pointer to it; its connection is modelled in Broker. What another goroutine does between two
-- critical sections is left to the modules below.
pub mod Online
pub mod RoundRobin
pub mod Sending
pub mod Delivery
pub mod Startup
pub mod Publish
pub mod Subscriptions
pub mod Reply
pub mod Replies
pub mod Handshake
pub mod Locks
pub mod Fleet
pub mod Launch
mod Examples
use glider_client_go.Common.{
  ℕ, zero, suc, ◌+◌, ◌-◌, ◌%◌, ◌^◌, Bool, true, false, not, ◌&&◌, ◌||◌, List, [], ◌∷◌, ◌++◌, Option,
  none, some, arith, length, get_elem?, keep, Bytes, lit, str_eq, ltb, ◌==◌, if◌then◌else◌, Result,
  ok, err, ◌>>=◌,
}
use glider_client_go.Common.Maps.{lookup, insert}
use glider_client_go.Broker.Info.{Broker, set_cert_path}
use glider_client_go.Broker.Store.{Store}
use glider_client_go.Broker.Store

pub record Client : Type 0 where
  pub pid : Bytes
  pub certs : List (Bytes × Bytes)
  pub brokers : Store
  -- an atomic uint64
  pub current_send : ℕ
  pub online_brokers : List Broker
  pub online : Bool
  pub reset_process : Bool
  pub overstay_process : Bool

pub data ClientError : Type 0 where
  not_connected : ClientError

-- The loop of `set`: for each entry with another ID it appends `bk`.
unfoldable pub set_loop : Broker → List Broker → List Broker
set_loop bk [] = []
set_loop bk (entry ∷ rest) =
    if not (str_eq entry.id bk.id) then bk ∷ set_loop bk rest else set_loop bk rest

unfoldable pub set : Client → Broker → Client
set c bk = record c {
  online_brokers = set_loop bk c.online_brokers ++ bk ∷ [];
  online = true;
  overstay_process = false;
  current_send = 0;
}

-- The loop of `delete`: the entries with another ID.
abbrev pub without : Bytes → List Broker → List Broker
without id = keep (λ bk. not (str_eq bk.id id))

unfoldable pub delete : Client → Bytes → Client
delete c id =
    let next = without id c.online_brokers in
    record c { online_brokers = next; online = ltb 0 (length next); current_send = 0 }

unfoldable pub connect : Client → Bytes → Client
connect c id = elim (Store.get c.brokers id) [ none ↦ c | some bk ↦ set c bk ]

-- `idx := (c.currentSend.Add(1) - 1) % n` on uint64s, with the new counter.
unfoldable pub next_index : ℕ → ℕ → ℕ × ℕ
next_index current n =
    let added = (current + 1) % 2 ^ 64 in ((added + 2 ^ 64 - 1) % 2 ^ 64 % n, added)

-- An index out of range would panic: `none`.
unfoldable pub next_broker : Client → Option (Result ClientError Broker × Client)
next_broker c =
    let n = length c.online_brokers in
    let picked = next_index c.current_send n in
    if not c.online
    then some (err not_connected, c)
    else if n == 0
    then some (err not_connected, c)
    else elim (get_elem? c.online_brokers picked.0) [
      | none ↦ none
      | some bk ↦ some (ok bk, record c { current_send = picked.1 })
    ]

-- The recursion of `send` on fuel, for brokers that answer by `accepts`. `none`: out of fuel.
unfoldable pub send : ℕ → (Broker → Bool) → Client → Option (Result ClientError (Unit {0}) × Client)
send zero accepts c = none
send (suc fuel) accepts c = elim (next_broker c) [
  | none ↦ none
  | some (err e, c') ↦ some (err e, c')
  | some (ok bk, c') ↦
      let again = send fuel accepts c' in if accepts bk then some (ok tt, c') else again
]

-- The guard of `disconnect`: whether it goes on to the send on the stop channel.
abbrev pub must_signal : Client → Bool
must_signal c = not (c.reset_process && c.online || not c.reset_process)

-- `disconnect`, up to the send on the stop channel: whether it comes to that.
unfoldable pub disconnect : Client → Bytes → Client × Bool
disconnect c id = let c' = delete c id in (c', must_signal c')

-- `reset`: whether a reset goroutine is started.
unfoldable pub reset : Client → Client × Bool
reset c = if c.reset_process then (c, false) else (record c { reset_process = true }, true)

-- The guard of `owerstaying`, and the state in which it calls `Done` and `Start`.
unfoldable pub begin_owerstaying : Client → Client × Bool
begin_owerstaying c =
    if c.reset_process || c.online || c.overstay_process
    then (c, false)
    else (record c { overstay_process = true }, true)

-- The loop of `Start` over the brokers of the response.
unfoldable pub add_brokers : List (Bytes × Bytes) → List Broker → Store → Store
add_brokers certs [] store = store
add_brokers certs (bk ∷ rest) store =
    let bk' : Broker = elim (lookup bk.id certs) [ some crt ↦ set_cert_path bk crt | none ↦ bk ] in
    add_brokers certs rest (Store.set store bk')

-- `Start` after a response: `hostname` is the variable HOSTNAME, `uuid` a new UUID.
unfoldable pub start : Client → List Broker → Bytes → Bytes → Client
start c response hostname uuid = record c {
  pid = if str_eq hostname [] then uuid else hostname;
  brokers = add_brokers c.certs response c.brokers;
  overstay_process = false;
  reset_process = false;
}
