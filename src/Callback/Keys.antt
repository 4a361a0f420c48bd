-- ===== src/Callback/Keys.antt =====
-- Which response reaches which caller (callback/callback.go).
use mathlib.Core.Path.{subst⁻¹}
use glider_client_go.Common.{
  append_assoc, subst, ◌≡◌, ◌≢◌, inl, inr, refl, ◌∙◌, ◌&&◌, [], ◌∷◌, ◌++◌, none, some, arith, Bytes,
  All, str_eq, str_eq_iff, str_eq_refl, if◌then◌else◌, Bool-cases,
}
use glider_client_go.Common.Maps.{lookup-insert, lookup-delete}
use glider_client_go.Callback.{Callback, cb_id, recv, register, unregister}

-- No colon, as in a UUID.
abbrev pub NoColon : Bytes → Type 0
NoColon = All (λ c. c ≢ b':')

colon_inside : (e i : Bytes) → NoColon (e ++ (b':' ∷ i)) → ⊥
colon_inside [] i h = h.0 refl
colon_inside (x ∷ e) i h = colon_inside e i h.1

-- The last colon of a key splits it, if the ids have none.
cb_id_inj :
    (e e' i i' : Bytes) → NoColon i → NoColon i' → cb_id e i ≡ cb_id e' i' → (e ≡ e') × (i ≡ i')
unfolding cb_id
cb_id_inj [] [] i i' h h' q = (refl, (cc))
cb_id_inj [] (x ∷ e') i i' h h' q =
    let t : i ≡ e' ++ (b':' ∷ i') = cc in absurd (colon_inside e' i' (subst NoColon t h))
cb_id_inj (x ∷ e) [] i i' h h' q =
    let t : e ++ (b':' ∷ i) ≡ i' = cc in absurd (colon_inside e i (subst⁻¹ NoColon t h'))
cb_id_inj (x ∷ e) (y ∷ e') i i' h h' q = let (a, b) = cb_id_inj e e' i i' h h' (cc) in ((cc a), b)

same_key :
    (e e' i i' : Bytes)
    → NoColon i
    → NoColon i'
    → str_eq (cb_id e i) (cb_id e' i') ≡ (str_eq e e' && str_eq i i')
same_key e e' i i' h h' = elim (Bool-cases (str_eq (cb_id e i) (cb_id e' i'))) [
  | inl same ↦
      let (a, b) = cb_id_inj e e' i i' h h' ((str_eq_iff _ _).0 same) in
      ground (arith, same, str_eq_iff e e', str_eq_iff i i', a, b)
  | inr differ ↦
      ground (arith, differ, str_eq_iff e e', str_eq_iff i i', str_eq_iff (cb_id e i) (cb_id e' i'))
]

module _ {ℓ} {Chan : Type ℓ} where
  -- A response reaches the channel registered for its event and request, and a registration
  -- touches no other pair, as long as the request ids have no colon.
  pub recv-register :
      (c : Callback Chan) (e i f j : Bytes) (cb : Chan)
      → NoColon i
      → NoColon j
      → recv (register c e i cb) f j ≡ (if str_eq e f && str_eq i j then some cb else recv c f j)
  unfolding recv register
  recv-register c e i f j cb h k =
      lookup-insert (cb_id e i) (cb_id f j) cb c.list ∙ rw (same_key e f i j h k) refl

  -- Unregistering silences that pair and no other.
  pub recv-unregister :
      (c : Callback Chan) (e i f j : Bytes)
      → NoColon i
      → NoColon j
      → recv (unregister c e i) f j ≡ (if str_eq e f && str_eq i j then none else recv c f j)
  unfolding recv unregister
  recv-unregister c e i f j h k =
      lookup-delete (cb_id e i) (cb_id f j) c.list ∙ rw (same_key e f i j h k) refl

  -- Without that condition keys collide: a response whose id has a colon reaches the channel of
  -- another event and request.
  recv_crosses :
      (c : Callback Chan) (e x i : Bytes) (cb : Chan)
      → recv (register c (cb_id e x) i cb) e (cb_id x i) ≡ some cb
  unfolding recv register cb_id
  recv_crosses c e x i cb =
      lookup-insert (cb_id (cb_id e x) i) (cb_id e (cb_id x i)) cb c.list
      ∙ rw (append_assoc, str_eq_refl)
