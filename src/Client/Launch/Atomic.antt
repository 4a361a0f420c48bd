-- ===== src/Client/Launch/Atomic.antt =====
-- The loop of Start against the calls that come while it runs (client/client.go).
use mathlib.Core.Option
use glider_client_go.Common.{
  ◌⊎◌, ◌≡◌, inl, inr, true, List, [], ◌∷◌, some, Bytes, str_eq, str_eq_iff, Bool-cases,
}
use glider_client_go.Broker.Info.{Broker}
use glider_client_go.Client.{Client}
use glider_client_go.Client.Launch.{Launch, among}
use glider_client_go.Client.Launch.Finish.{AreOther}

abbrev pub AreDistinct : List Broker → Type 0
AreDistinct [] = Unit {0}
AreDistinct (b ∷ bs) = AreOther b.id bs × AreDistinct bs

-- The IDs that the loop has come to do not come again, and a reset is under way.
record IsGuarded (s : Launch) : Type 0 where
  distinct : AreDistinct s.rest
  started : (id : Bytes) → among id s.started ≡ true → AreOther id s.rest
  placed : (id : Bytes) → s.placed ≡ some id → AreOther id s.rest
  flag : s.client.reset_process ≡ true
  resets : s.resets ≡ 0

pub among_cases :
    (j id : Bytes) (ids : List Bytes) → among j (id ∷ ids) ≡ true → (id ≡ j) ⊎ (among j ids ≡ true)
unfolding among
among_cases j id ids m = elim (Bool-cases (str_eq id j)) [
  | inl same ↦ inl ((str_eq_iff id j).0 same)
  | inr differ ↦ inr (rw differ at m)
]
