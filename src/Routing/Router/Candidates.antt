-- ===== src/Routing/Router/Candidates.antt =====
-- What the router hands to the fallback chain.
use model_dispatcher.Prelude.{
  ◌≤◌, ◌≡◌, ap, ◌∙◌, Bool, true, false, List, eqb, select, length, length-take, All, All-and,
  All-take, All-select, All-select_test,
}
use model_dispatcher.Types.{ModelTier, tier_value, TaskComplexity, offers, CompletionRequest}
use model_dispatcher.Config.{RoutingPolicy}
use model_dispatcher.Providers.Base.{ModelProvider}
use model_dispatcher.Providers.Registry.{ProviderRegistry, at_or_above, by_tier}
use model_dispatcher.Providers.Registry.Tiers.{
  provider_tier, at_or_above-le, Ascending-at_or_above, by_tier-at_or_above, by_tier-select,
}
use model_dispatcher.Providers.Registry.Order.{Ascending, Ascending-select, Ascending-take}
use model_dispatcher.Routing.Router.{required_capabilities, tier_floor, narrow, eligible, route}

narrow-keeps :
    {S : Type 0} (P : ModelProvider S → Type 0) (b : Bool) (floor : ModelTier)
    (ps : List (ModelProvider S))
    → All P ps
    → Ascending provider_tier ps
    → All P (narrow b floor ps) × Ascending provider_tier (narrow b floor ps)
unfolding narrow
narrow-keeps P true floor ps h up = (h, up)
narrow-keeps P false floor ps h up = (
  All-select P (λ p. eqb (tier_value p.tier) (tier_value floor)) ps h,
  Ascending-select provider_tier (λ p. eqb (tier_value p.tier) (tier_value floor)) ps up,
)

module _ {S : Type 0} (registry : ProviderRegistry S) (policy : RoutingPolicy) where
  -- A candidate stands at the floor or above and offers what the request requires.
  abbrev pub Serves : CompletionRequest → TaskComplexity → ModelProvider S → Type 0
  Serves r c p =
      (tier_value (tier_floor policy r c) ≤ provider_tier p)
      × (offers (required_capabilities r) p.capabilities ≡ true)

  capable-Serves :
      (r : CompletionRequest) (c : TaskComplexity)
      → let found : List (ModelProvider S) =
          select
            (λ p. offers (required_capabilities r) p.capabilities)
            (at_or_above (tier_floor policy r c) registry) in
        All (Serves r c) found × Ascending provider_tier found
  capable-Serves r c =
      let floor = tier_floor policy r c in
      let able = λ (p : ModelProvider S). offers (required_capabilities r) p.capabilities in
      let found : List (ModelProvider S) = at_or_above floor registry in
      (
        All-and (λ p. tier_value floor ≤ provider_tier p) (λ p. able p ≡ true) (select able found)
            (All-select (λ p. tier_value floor ≤ provider_tier p) able found
              (at_or_above-le floor registry))
            (All-select_test able found),
        Ascending-select provider_tier able found (Ascending-at_or_above floor registry),
      )

  eligible-Serves :
      (r : CompletionRequest) (c : TaskComplexity)
      → All (Serves r c) (eligible registry policy r c)
        × Ascending provider_tier (eligible registry policy r c)
  unfolding eligible
  eligible-Serves r c =
      let (good, up) = capable-Serves r c in
      narrow-keeps (Serves r c) policy.allow_escalation (tier_floor policy r c) _ good up

  -- Every candidate stands at the floor or above and has the required capabilities; they come in
  -- ascending order of tier; and there are at most `max_candidates` of them.
  pub route_sound :
      (r : CompletionRequest) (c : TaskComplexity)
      → All (Serves r c) (route registry policy r c)
        × Ascending provider_tier (route registry policy r c)
        × (length (route registry policy r c) ≤ policy.max_candidates)
  unfolding route
  route_sound r c =
      let (good, up) = eligible-Serves r c in
      (
        All-take (Serves r c) policy.max_candidates (eligible registry policy r c) good,
        Ascending-take provider_tier policy.max_candidates (eligible registry policy r c) up,
        length-take policy.max_candidates (eligible registry policy r c),
      )

  -- With escalation allowed, nothing else is lost: before the cut to `max_candidates`, the
  -- candidates of a tier at the floor or above are the registered ones that have the required
  -- capabilities, in registration order.
  pub eligible_complete :
      (r : CompletionRequest) (c : TaskComplexity) (tier : ModelTier)
      → policy.allow_escalation ≡ true
      → tier_value (tier_floor policy r c) ≤ tier_value tier
      → by_tier tier (eligible registry policy r c)
        ≡ select (λ p. offers (required_capabilities r) p.capabilities) (by_tier tier registry)
  unfolding eligible
  eligible_complete r c tier e h =
      let floor = tier_floor policy r c in
      let able = λ (p : ModelProvider S). offers (required_capabilities r) p.capabilities in
      ap (λ b. by_tier tier (narrow b floor (select able (at_or_above floor registry)))) e
      ∙ by_tier-select tier able (at_or_above floor registry)
      ∙ ap (select able) (by_tier-at_or_above floor tier registry h)
