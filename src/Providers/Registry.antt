-- ===== src/Providers/Registry.antt =====
-- src/model_dispatcher/providers/registry.py: providers by name in insertion order.
pub mod Order
pub mod Tiers
pub mod Names
use model_dispatcher.Prelude.{
  ℕ, String, Bool, Option, none, some, List, [], ◌∷◌, ◌==◌, if◌then◌else◌, leb, eqb, select,
  is_some,
}
use model_dispatcher.Types.{ModelTier, tier_value, ProviderCapability, offers}
use model_dispatcher.Errors.{Res, ok, raised, key_error, no_capable_provider}
use model_dispatcher.Providers.Base.{ModelProvider}

-- `list.sort(key=...)` is stable: an element goes before the first one with a greater key, so it
-- stays behind those with the same key.
module _ {A : Type 0} (key : A → ℕ) where
  unfoldable pub insert_by : A → List A → List A
  insert_by x [] = x ∷ []
  insert_by x (y ∷ ys) = if leb (key x) (key y) then x ∷ y ∷ ys else y ∷ insert_by x ys

  unfoldable pub sorted : List A → List A
  sorted [] = []
  sorted (x ∷ xs) = insert_by x (sorted xs)

-- `_by_name`; a provider's key is its `name`
abbrev pub ProviderRegistry : Type 0 → Type 0
ProviderRegistry S = List (ModelProvider S)

module _ {S : Type 0} where
  -- `self._by_name.get(name)`
  unfoldable pub find : String → ProviderRegistry S → Option (ModelProvider S)
  find name [] = none
  find name (p ∷ r) = if name == p.name then some p else find name r

  -- `__contains__`
  unfoldable pub contains : String → ProviderRegistry S → Bool
  unfolding find
  contains name r = is_some (find name r)

  -- A provider of the same name is replaced where it stands.
  unfoldable pub register : ModelProvider S → ProviderRegistry S → ProviderRegistry S
  register p [] = p ∷ []
  register p (q ∷ r) = if p.name == q.name then p ∷ r else q ∷ register p r

  unfoldable pub get : String → ProviderRegistry S → Res (ModelProvider S)
  unfolding find
  get name r = elim (find name r) [ none ↦ raised (key_error name) | some p ↦ ok p ]

  pub by_tier : ModelTier → ProviderRegistry S → List (ModelProvider S)
  by_tier tier r = select (λ p. eqb (tier_value p.tier) (tier_value tier)) r

  unfoldable pub at_or_above : ModelTier → ProviderRegistry S → List (ModelProvider S)
  at_or_above floor r =
      sorted (λ p. tier_value p.tier) (select (λ p. leb (tier_value floor) (tier_value p.tier)) r)

  -- The loop of `cheapest_capable`.
  first_capable : ModelTier → ProviderCapability → List (ModelProvider S) → Res (ModelProvider S)
  first_capable floor required [] = raised (no_capable_provider floor required)
  first_capable floor required (p ∷ ps) =
      if offers required p.capabilities then ok p else first_capable floor required ps

  unfoldable pub cheapest_capable :
      ModelTier → ProviderCapability → ProviderRegistry S → Res (ModelProvider S)
  unfolding first_capable
  cheapest_capable floor required r = first_capable floor required (at_or_above floor r)
