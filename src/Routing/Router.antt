-- ===== src/Routing/Router.antt =====
-- src/model_dispatcher/routing/router.py: the candidates of a request, cheapest first.
pub mod Candidates
use model_dispatcher.Prelude.{
  Bool, true, Option, none, some, List, [], ◌∷◌, ltb, eqb, if◌then◌else◌, select, take,
}
use model_dispatcher.Types.{
  ModelTier, tier_value, TaskComplexity, ProviderCapability, no_capability, offers,
  CompletionRequest,
}
use model_dispatcher.Config.{RoutingPolicy}
use model_dispatcher.Providers.Base.{ModelProvider}
use model_dispatcher.Providers.Registry.{ProviderRegistry, at_or_above}

-- `_required_capabilities`
unfoldable pub required_capabilities : CompletionRequest → ProviderCapability
required_capabilities r = elim r.tools [
  | [] ↦ no_capability
  | _ ∷ _ ↦ record no_capability { tools = true }
]

-- A hint may raise the floor, never lower it.
raised_floor : ModelTier → Option ModelTier → ModelTier
raised_floor floor none = floor
raised_floor floor (some hint) = if ltb (tier_value floor) (tier_value hint) then hint else floor

unfoldable pub tier_floor : RoutingPolicy → CompletionRequest → TaskComplexity → ModelTier
unfolding raised_floor
tier_floor policy r complexity = raised_floor (policy.complexity_floor complexity) r.tier_hint

-- Without escalation only the floor's own tier stays.
narrow : {S : Type 0} → Bool → ModelTier → List (ModelProvider S) → List (ModelProvider S)
narrow allow_escalation floor ps =
    if allow_escalation then ps else select (λ p. eqb (tier_value p.tier) (tier_value floor)) ps

module _ {S : Type 0} (registry : ProviderRegistry S) (policy : RoutingPolicy) where
  -- The candidates before the cut to `max_candidates`.
  unfoldable pub eligible : CompletionRequest → TaskComplexity → List (ModelProvider S)
  unfolding narrow
  eligible r complexity =
      let floor = tier_floor policy r complexity in
      narrow policy.allow_escalation floor
        (select (λ p. offers (required_capabilities r) p.capabilities) (at_or_above floor registry))

  unfoldable pub route : CompletionRequest → TaskComplexity → List (ModelProvider S)
  unfolding eligible
  route r complexity = take policy.max_candidates (eligible r complexity)
