-- ===== src/Std/Context.antt =====
-- package context: values by key. A key is its Go type and its text, so keys of different types
-- never meet. `V` is the type of stored values; cancellation enters where it is waited for.
use glider_client_go.Common.{
  ◌≡◌, refl, ◌↔◌, Bool, true, false, List, [], ◌∷◌, Option, none, some, arith, Bytes, str_eq,
  str_eq_iff, if◌then◌else◌,
}

pub data Key : Type 0 where
  metadata_key context_key string_key : Bytes → Key

unfoldable pub key_eq : Key → Key → Bool
key_eq (metadata_key a) (metadata_key b) = str_eq a b
key_eq (context_key a) (context_key b) = str_eq a b
key_eq (string_key a) (string_key b) = str_eq a b
key_eq _ _ = false

key_eq_iff : (a b : Key) → (key_eq a b ≡ true) ↔ (a ≡ b)
unfolding key_eq
key_eq_iff (metadata_key a) (metadata_key b) = ground (arith, str_eq_iff a b)
key_eq_iff (context_key a) (context_key b) = ground (arith, str_eq_iff a b)
key_eq_iff (string_key a) (string_key b) = ground (arith, str_eq_iff a b)
key_eq_iff (metadata_key a) (context_key b) = ground arith
key_eq_iff (metadata_key a) (string_key b) = ground arith
key_eq_iff (context_key a) (metadata_key b) = ground arith
key_eq_iff (context_key a) (string_key b) = ground arith
key_eq_iff (string_key a) (metadata_key b) = ground arith
key_eq_iff (string_key a) (context_key b) = ground arith

module _ {ℓ} (V : Type ℓ) where
  -- The newest value first.
  pub record Context : Type ℓ where
    pub values : List (Key × V)

module _ {ℓ} {V : Type ℓ} where
  unfoldable pub background : Context V
  background = record { values = [] }

  -- context.WithValue
  unfoldable pub with_value : Context V → Key → V → Context V
  with_value c k v = record { values = (k, v) ∷ c.values }

  find : Key → List (Key × V) → Option V
  find k [] = none
  find k ((j, v) ∷ rest) = if key_eq j k then some v else find k rest

  -- ctx.Value
  unfoldable pub value : Context V → Key → Option V
  unfolding find
  value c k = find k c.values

  value-with_value :
      (c : Context V) (k j : Key) (v : V)
      → value (with_value c k v) j ≡ (if key_eq k j then some v else value c j)
  unfolding value with_value
  value-with_value c k j v = refl
