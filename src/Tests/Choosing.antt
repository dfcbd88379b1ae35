-- ===== src/Tests/Choosing.antt =====
-- The theorems on registries, triage and routing, on two vendors.
use model_dispatcher.Prelude.{
  ◌+◌, ◌≤◌, ◌≡◌, refl, [], ◌∷◌, arith, if◌then◌else◌, length, select, All,
}
use model_dispatcher.Types.{
  cheap, standard, offers, simple, trivial, complexity_value, no_capability,
}
use model_dispatcher.Config.{default_routing}
use model_dispatcher.Errors.{ok, raised, key_error}
use model_dispatcher.Providers.Registry.{
  find, contains, register, get, by_tier, at_or_above, cheapest_capable, sorted, insert_by,
}
use model_dispatcher.Providers.Registry.Order.{Ascending}
use model_dispatcher.Providers.Registry.Tiers.{provider_tier}
use model_dispatcher.Providers.Registry.Names.{length-register}
use model_dispatcher.Routing.Triage.{default_scorer}
use model_dispatcher.Routing.Triage.Monotone.{more, default_scorer-more}
use model_dispatcher.Routing.Router.{required_capabilities, tier_floor, eligible, route}
use model_dispatcher.Routing.Router.Candidates.{Serves, route_sound, eligible_complete}
use model_dispatcher.Tests.Fixtures.{hello, request, steady, flaky, registry, look_up}

get_missing : get "other" registry ≡ raised (key_error "other")
unfolding get find
get_missing = refl

length-register_example :
    length (register flaky registry)
    ≡ length registry + (if contains flaky.name registry then 0 else 1)
length-register_example = length-register flaky registry

found : cheapest_capable cheap no_capability registry ≡ ok steady
unfolding cheapest_capable at_or_above sorted insert_by
found = refl

default_scorer-more_example :
    complexity_value (default_scorer request)
    ≤ complexity_value (default_scorer (more request (hello ∷ []) (look_up ∷ [])))
default_scorer-more_example = default_scorer-more request (hello ∷ []) (look_up ∷ [])

route_sound_example :
    All
      (Serves registry default_routing request trivial)
      (route registry default_routing request trivial)
    × Ascending provider_tier (route registry default_routing request trivial)
    × (length (route registry default_routing request trivial) ≤ default_routing.max_candidates)
route_sound_example = route_sound registry default_routing request trivial

eligible_complete_example :
    by_tier standard (eligible registry default_routing request simple)
    ≡ select
        (λ p. offers (required_capabilities request) p.capabilities)
        (by_tier standard registry)
unfolding tier_floor
eligible_complete_example =
    eligible_complete registry default_routing request simple standard refl (omega arith)
