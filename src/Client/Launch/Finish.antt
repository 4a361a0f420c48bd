-- ===== src/Client/Launch/Finish.antt =====
-- Calls on the client while the loop of Start runs, and the end of that loop (client/client.go).
use mathlib.Core.Option
use glider_client_go.Common.{
  length, get_elem?, ◌==◌, ◌≡◌, inl, inr, refl, sym, ◌∙◌, ap, false, List, [], ◌∷◌, Option, none,
  some, Bytes, str_eq, Bool-cases, Option-cases, All, Result,
}
use glider_client_go.Broker.Info.{Broker}
use glider_client_go.Broker.Store
use glider_client_go.Client.{
  Client, ClientError, add_brokers, set, connect, delete, next_index, next_broker,
}
use glider_client_go.Client.Startup.{last_with, assigned, get-add_brokers}
use glider_client_go.Client.Launch.{
  Launch, finished, Step, Steps, sets, starts, connects, deletes, returns, blocks, asks_reset,
  picks, none_yet, then_step,
}

-- A call that changes more than the flag of a reset.
pub data Call : Type 0 where
  connecting deleting : Bytes → Call
  picking : Call

-- The client after a call.
unfoldable pub apply : Call → Client → Client
apply (connecting id) c = connect c id
apply (deleting id) c = delete c id
apply picking c = elim (next_broker c) [ none ↦ c | some (r, d) ↦ d ]

-- After calls, the latest first.
unfoldable pub apply_all : List Call → Client → Client
apply_all [] c = c
apply_all (call ∷ calls) c = apply call (apply_all calls c)

-- The call that a step makes, and those of a run, the latest first.
unfoldable pub with_call : {s t : Launch} → Step s t → List Call → List Call
with_call (sets bk rest p e) calls = calls
with_call (starts id p) calls = calls
with_call (connects id m free) calls = connecting id ∷ calls
with_call (deletes id m free) calls = deleting id ∷ calls
with_call (returns n d quiet) calls = calls
with_call (blocks n d loud none_waits) calls = calls
with_call (asks_reset id m free) calls = calls
with_call (picks r c off e) calls = picking ∷ calls

unfoldable pub calls_of : {s t : Launch} → Steps s t → List Call
calls_of none_yet = []
calls_of (then_step g st) = with_call st (calls_of g)

-- The rest of the loop, at once, and the flags.
unfoldable pub finish : Client → List Broker → Client
finish c rest = finished (record c { brokers = add_brokers c.certs rest c.brokers })

-- None of the brokers has this ID.
abbrev pub AreOther : Bytes → List Broker → Type 0
AreOther id bs = All (λ b. str_eq b.id id ≡ false) bs

last_with-none : (id : Bytes) (bs : List Broker) → AreOther id bs → last_with id bs ≡ none
last_with-none id [] h = refl
last_with-none id (b ∷ bs) h = rw (last_with-none id bs h.1, h.0) refl

get-finish :
    (c : Client) (rest : List Broker) (id : Bytes)
    → AreOther id rest
    → Store.get (finish c rest).brokers id ≡ Store.get c.brokers id
unfolding finish finished
get-finish c rest id h =
    rw (get-add_brokers c.certs rest c.brokers id, last_with-none id rest h, assigned) refl

pub connect_found :
    (c : Client) (id : Bytes) (found : Option Broker)
    → Store.get c.brokers id ≡ found
    → connect c id ≡ elim found [ none ↦ c | some bk ↦ set c bk ]
unfolding connect
connect_found c id found e = rw (e, connect) refl

set-finish :
    (c : Client) (bk : Broker) (rest : List Broker)
    → set (finish c rest) bk ≡ finish (set c bk) rest
unfolding set finish finished
set-finish c bk rest = refl

pub connect-finish :
    (c : Client) (rest : List Broker) (id : Bytes)
    → AreOther id rest
    → connect (finish c rest) id ≡ finish (connect c id) rest
connect-finish c rest id h = elim (Option-cases (Store.get c.brokers id)) [
  | inl e ↦
      connect_found (finish c rest) id none (get-finish c rest id h ∙ e)
      ∙ sym (ap (λ (d : Client). finish d rest) (connect_found c id none e))
  | inr (bk, e) ↦
      connect_found (finish c rest) id (some bk) (get-finish c rest id h ∙ e)
      ∙ (set-finish c bk rest
          ∙ sym (ap (λ (d : Client). finish d rest) (connect_found c id (some bk) e)))
]

pub delete-finish :
    (c : Client) (rest : List Broker) (id : Bytes)
    → delete (finish c rest) id ≡ finish (delete c id) rest
unfolding delete finish finished
delete-finish c rest id = refl

-- What is picked, once a broker or an error is.
pub apply-picking :
    (c d : Client) (r : Result ClientError Broker)
    → next_broker c ≡ some (r, d)
    → apply picking c ≡ d
unfolding apply
apply-picking c d r e = rw (e, apply) refl

-- The answer is the same, and the loop at its end.
pub next_broker-finish :
    (c : Client) (rest : List Broker)
    → next_broker (finish c rest) ≡ Option.map (λ p. (p.0, finish p.1 rest)) (next_broker c)
unfolding next_broker finish finished
next_broker-finish c rest = elim (Bool-cases c.online) [
  | inr off ↦ rw off refl
  | inl on ↦ elim (Bool-cases (length c.online_brokers == 0)) [
    | inl empty ↦ rw (on, empty) refl
    | inr full ↦
        elim (Option-cases
          (get_elem? c.online_brokers (next_index c.current_send (length c.online_brokers)).0)) [
            | inl out ↦ rw (on, full, out) refl
            | inr (bk, there) ↦ rw (on, full, there) refl
          ]
  ]
]
