-- ===== src/Sub/Race/Lost.antt =====
-- Interleavings of calls on the subscription store (sub/store.go) in which a registration is lost.
use glider_client_go.Common.{
  ℕ, ◌+◌, ◌≡◌, true, [], ◌∷◌, none, some, arith, Bytes, str_eq_refl, ◌==◌, if◌then◌else◌,
}
use glider_client_go.Common.Maps.{lookup, insert, lookup-insert, lookup-delete}
use glider_client_go.Sub.{
  Store, is_empty, others, create, append_handler, remove_handler, delete_entry, sub_register,
  sub_unregister,
}
use glider_client_go.Sub.Refine.{handlers_of}
use glider_client_go.Sub.Race.{Call, System, advance, turn, run}

module _ {ℓ} {Cb : Type ℓ} where
  -- Two calls, of the goroutines 0 and 1.
  abbrev pub two_calls : Store Cb → Call Cb → Call Cb → System Cb
  two_calls s c d = record {
    store = s;
    calls = λ i. if i == 0 then c else if i == 1 then d else Call.returned;
  }

  -- Two first registrations for an event that both find no entry: both calls return, and only the
  -- second handler is registered.
  pub register_race :
      (s : Store Cb) (name id id' : Bytes) (cb cb' : Cb)
      → lookup name s.list ≡ none
      → let t =
          run
            (0 ∷ 1 ∷ 0 ∷ 1 ∷ 0 ∷ 1 ∷ [])
            (two_calls s (Call.reg_start name id cb) (Call.reg_start name id' cb')) in
        (t.calls 0 ≡ Call.returned)
        × (t.calls 1 ≡ Call.returned)
        × (handlers_of t.store name ≡ record { id = id'; cb = cb' } ∷ [])
  unfolding run turn advance handlers_of create append_handler sub_register
  register_race s name id id' cb cb' e = ground (
    arith,
    e,
    str_eq_refl name,
    lookup-insert name name s.fresh s.list,
    lookup-insert name name (s.fresh + 1) (insert name s.fresh s.list),
  )

  -- A registration that finds the entry while the last handlers are being unregistered: both calls
  -- return, and the event is left with no handler at all.
  unregister_race :
      (s : Store Cb) (name id id' : Bytes) (cb : Cb) (p : ℕ)
      → lookup name s.list ≡ some p
      → is_empty (others id' (s.subs p).handlers) ≡ true
      → let t =
          run
            (0 ∷ 1 ∷ 1 ∷ 0 ∷ 1 ∷ [])
            (two_calls s (Call.reg_start name id cb) (Call.unreg_start name id')) in
        (t.calls 0 ≡ Call.returned) × (t.calls 1 ≡ Call.returned) × (handlers_of t.store name ≡ [])
  unfolding run turn advance handlers_of append_handler sub_register remove_handler sub_unregister
      delete_entry
  unregister_race s name id id' cb p e last =
      ground (arith, e, last, str_eq_refl name, lookup-delete name name s.list)
