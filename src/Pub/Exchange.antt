-- ===== src/Pub/Exchange.antt =====
-- The goroutines of one request: pub/pub.go (Sub) waits on an unbuffered channel, to which
-- callback/callback.go (Recv) starts a sender for each response whose lookup finds the request
-- registered, after it has released the lock.
mod Examples
use glider_client_go.Common.{
  ℕ, suc, ◌+◌, ◌≤◌, ◌≡◌, ◌≢◌, ◌⊎◌, inl, inr, Bool, true, false, List, [], ◌∷◌, ◌++◌, Option, none,
  some, length, All, All-append, if◌then◌else◌,
}
use glider_client_go.Proto.{Message}
use glider_client_go.Pub.{Selected, received, cancelled}

module _ {ℓ} (E : Type ℓ) where
  -- The caller of `Sub`, from its registration on; it leaves with what its select took, or with the
  -- error of the send, and has returned once the deferred call is done.
  pub data Caller : Type ℓ where
    sending waiting : Caller
    leaving returned : Selected E → Caller

  pub record Exchange : Type ℓ where
    pub caller : Caller
    pub registered : Bool
    -- the responses whose `Recv` has found the channel and not yet started a goroutine
    pub found : List Message
    -- goroutines in `cb <- msg`
    pub senders : List Message
    -- the responses for which the channel was found
    pub arrived : List Message

module _ {ℓ} {E : Type ℓ} where
  abbrev pub registered_request : Exchange E
  registered_request = record {
    caller = Caller.sending;
    registered = true;
    found = [];
    senders = [];
    arrived = [];
  }

  -- Callback.Recv under its read lock
  unfoldable pub arrive : Message → Exchange E → Exchange E
  arrive msg s =
      if s.registered then record s { found = msg ∷ s.found; arrived = msg ∷ s.arrived } else s

  pub data Step (s : Exchange E) : Exchange E → Type ℓ where
    arrives : (msg : Message) → Step s (arrive msg s)
    -- `go func() { cb <- msg }()`, after the lock.
    spawns :
        (front : List Message) (msg : Message) (back : List Message)
        → s.found ≡ front ++ (msg ∷ back)
        → Step s (record s { found = front ++ back; senders = msg ∷ s.senders })
    sends : s.caller ≡ Caller.sending → Step s (record s { caller = Caller.waiting })
    send_fails :
        (e : E)
        → s.caller ≡ Caller.sending
        → Step s (record s { caller = Caller.leaving (cancelled e) })
    -- Any of the senders meets the select.
    meets :
        (front : List Message) (msg : Message) (back : List Message)
        → s.caller ≡ Caller.waiting
        → s.senders ≡ front ++ (msg ∷ back)
        → Step s (record s { caller = Caller.leaving (received msg); senders = front ++ back })
    context_done :
        (e : E)
        → s.caller ≡ Caller.waiting
        → Step s (record s { caller = Caller.leaving (cancelled e) })
    unregisters :
        (r : Selected E)
        → s.caller ≡ Caller.leaving r
        → Step s (record s { caller = Caller.returned r; registered = false })

  pub data Steps (s : Exchange E) : Exchange E → Type ℓ where
    none_yet : Steps s s
    then_step : {t u : Exchange E} → Steps s t → Step t u → Steps s u

  -- How many responses the caller took.
  abbrev pub taken : Caller E → ℕ
  taken Caller.sending = 0
  taken Caller.waiting = 0
  taken (Caller.leaving (received msg)) = 1
  taken (Caller.leaving (cancelled e)) = 0
  taken (Caller.returned (received msg)) = 1
  taken (Caller.returned (cancelled e)) = 0

  abbrev is_returned : Caller E → Bool
  is_returned (Caller.returned r) = true
  is_returned _ = false

  -- Each response that found the channel has its sender, or will have, or was taken; and a request that has returned is no
  -- longer registered.
  record IsAccounted (s : Exchange E) : Type ℓ where
    count : length s.arrived ≡ length s.found + length s.senders + taken s.caller
    closed : is_returned s.caller ≡ true → s.registered ≡ false

  -- What a request that has returned leaves behind.
  abbrev IsLeft : Exchange E → Exchange E → Type ℓ
  IsLeft s t =
      (t.caller ≡ s.caller)
      × ((late : List Message) × (t.senders ≡ late ++ s.senders))
      × (t.arrived ≡ s.arrived)
