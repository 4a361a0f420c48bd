-- ===== src/Client/Launch/Doubled.antt =====
-- A reset that a broker asks for while the first Start runs (client/client.go): that Start takes no
-- lock, and no reset is under way yet.
use glider_client_go.Common.{
  ◌+◌, ◌≡◌, refl, ◌∙◌, true, false, List, [], ◌∷◌, none, Bytes, str_eq_refl, if◌then◌else◌,
}
use glider_client_go.Broker.Info.{Broker}
use glider_client_go.Client.{Client, must_signal, delete, reset}
use glider_client_go.Client.Launch.{
  Launch, begun, place, finished, among, Steps, sets, starts, asks_reset, none_yet, then_step,
}

-- The loop may come to its end.
record IsEnd (s t : Launch) : Type 0 where
  steps : Steps s t
  all : t.rest ≡ []
  free : t.placed ≡ none
  same : t.resets ≡ s.resets

joined : {s t u : Launch} → Steps s t → Steps t u → Steps s u
joined g none_yet = g
joined g (then_step h st) = then_step (joined g h) st

loop_ends :
    (bs : List Broker) (s : Launch) → s.rest ≡ bs → s.placed ≡ none → (t : Launch) × IsEnd s t
loop_ends [] s e p = (s, record { steps = none_yet; all = e; free = p; same = refl })
loop_ends (bk ∷ bs) s e p =
    let placed = place s bk bs in
    let begun_one = record placed { placed = none; started = bk.id ∷ s.started } in
    let (t, h) = loop_ends bs begun_one refl refl in
    (
      t,
      record {
        steps =
            joined (then_step (then_step none_yet (sets bk bs p e)) (starts bk.id refl)) h.steps;
        all = h.all;
        free = h.free;
        same = h.same;
      },
    )

-- On a `Start` that neither a reset nor `owerstaying` has called, the first broker of the response may ask for a reset while the
-- loop runs. After the loop its goroutine waits, but the flag is clear: a second reset starts another
-- goroutine beside it, and no `disconnect` signals that the reset may be aborted.
pub first_start_doubles :
    (c : Client) (bk : Broker) (rest : List Broker) (hostname uuid : Bytes)
    → c.reset_process ≡ false
    → c.overstay_process ≡ false
    → (t : Launch) × Steps (begun c (bk ∷ rest) hostname uuid) t
      × (t.rest ≡ [])
      × (t.placed ≡ none)
      × (t.resets ≡ 1)
      × ((reset (finished t.client)).1 ≡ true)
      × ((id : Bytes) → must_signal (delete (finished t.client) id) ≡ false)
unfolding begun reset finished delete
first_start_doubles c bk rest hostname uuid f o =
    let s = begun c (bk ∷ rest) hostname uuid in
    let placed = place s bk rest in
    let one = record placed { placed = none; started = bk.id ∷ [] } in
    let asked = record one {
      client = (reset one.client).0;
      resets = one.resets + (if (reset one.client).1 then 1 else 0);
    } in
    let known : among bk.id (bk.id ∷ []) ≡ true = unfold among in rw str_eq_refl refl in
    let g =
      then_step (then_step (then_step none_yet (sets bk rest refl refl)) (starts bk.id refl))
        (asks_reset bk.id known o) in
    let (t, h) = loop_ends rest asked refl refl in
    (t, joined g h.steps, h.all, h.free, h.same ∙ rw f refl, refl, λ id. refl)
