-- ===== src/Providers/Registry/Tiers.antt =====
-- What `at_or_above`, `by_tier` and `cheapest_capable` return.
use model_dispatcher.Prelude.{
  ℕ, ◌≤◌, ◌≡◌, refl, subst, ◌∙◌, Bool, true, inl, inr, List, [], ◌∷◌, leb, eqb, select, All,
  All-map, All-select_test, Bool-cases, arith, leb→le,
}
use model_dispatcher.Types.{ModelTier, tier_value, ProviderCapability, offers}
use model_dispatcher.Errors.{ok}
use model_dispatcher.Providers.Base.{ModelProvider}
use model_dispatcher.Providers.Registry.{
  ProviderRegistry, by_tier, at_or_above, first_capable, cheapest_capable,
}
use model_dispatcher.Providers.Registry.Order.{
  Ascending, Ascending-sorted, All-sorted, All-of_sorted, select-sorted,
}

abbrev pub provider_tier : {S : Type 0} → ModelProvider S → ℕ
provider_tier p = tier_value p.tier

module _ {S : Type 0} where
  pub at_or_above-le :
      (floor : ModelTier) (r : ProviderRegistry S)
      → All (λ p. tier_value floor ≤ provider_tier p) (at_or_above floor r)
  unfolding at_or_above
  at_or_above-le floor r =
      All-sorted provider_tier (λ p. tier_value floor ≤ provider_tier p) _
        (All-map (λ p. leb (tier_value floor) (provider_tier p) ≡ true) _ (λ p e. leb→le _ _ e)
          (select (λ p. leb (tier_value floor) (provider_tier p)) r)
          (All-select_test (λ p. leb (tier_value floor) (provider_tier p)) r))

  pub Ascending-at_or_above :
      (floor : ModelTier) (r : ProviderRegistry S) → Ascending provider_tier (at_or_above floor r)
  unfolding at_or_above
  Ascending-at_or_above floor r = Ascending-sorted provider_tier _

  pub by_tier-select :
      (tier : ModelTier) (test : ModelProvider S → Bool) (r : ProviderRegistry S)
      → by_tier tier (select test r) ≡ select test (by_tier tier r)
  unfolding by_tier
  by_tier-select tier test [] = refl
  by_tier-select tier test (p ∷ r) = ground (arith, by_tier-select tier test r)

  by_tier-select_floor :
      (floor tier : ModelTier) (r : ProviderRegistry S)
      → tier_value floor ≤ tier_value tier
      → by_tier tier (select (λ p. leb (tier_value floor) (provider_tier p)) r) ≡ by_tier tier r
  unfolding by_tier
  by_tier-select_floor floor tier [] h = refl
  by_tier-select_floor floor tier (p ∷ r) h = ground (arith, by_tier-select_floor floor tier r h)

  -- At each tier from the floor up, `at_or_above` has the registered providers of that tier, all of
  -- them and in registration order.
  pub by_tier-at_or_above :
      (floor tier : ModelTier) (r : ProviderRegistry S)
      → tier_value floor ≤ tier_value tier
      → by_tier tier (at_or_above floor r) ≡ by_tier tier r
  unfolding at_or_above by_tier
  by_tier-at_or_above floor tier r h =
      select-sorted provider_tier (λ p. eqb (provider_tier p) (tier_value tier))
        (λ p q a b. ground arith) (select (λ p. leb (tier_value floor) (provider_tier p)) r)
      ∙ by_tier-select_floor floor tier r h

  abbrev pub Cheapest : ProviderCapability → ModelProvider S → ModelProvider S → Type 0
  Cheapest required p q = offers required q.capabilities ≡ true → provider_tier p ≤ provider_tier q

  first_capable-first :
      (floor : ModelTier) (required : ProviderCapability) (P : ModelProvider S → Type 0)
      {p : ModelProvider S} (ps : List (ModelProvider S))
      → All P ps
      → Ascending provider_tier ps
      → first_capable floor required ps ≡ ok p
      → P p × (offers required p.capabilities ≡ true) × All (Cheapest required p) ps
  unfolding first_capable
  first_capable-first floor required P [] h up e = cc
  first_capable-first floor required P {p} (q ∷ ps) h up e =
      elim (Bool-cases (offers required q.capabilities)) [
        | inl able ↦
            let same : q ≡ p = ground arith in
            subst
              (λ t.
                P t × (offers required t.capabilities ≡ true) × All (Cheapest required t) (q ∷ ps))
              same (h.0, able, ((λ _. omega arith), All-map _ _ (λ t le _. le) ps up.0))
        | inr no_match ↦
            let found : first_capable floor required ps ≡ ok p = ground arith in
            let (a, b, c) = first_capable-first floor required P ps h.1 up.1 found in
            (a, b, ((λ able. absurd (cc)), c))
      ]

  All-of_selected :
      (P : ModelProvider S → Type 0) (floor : ModelTier) (r : ProviderRegistry S)
      → All P (select (λ p. leb (tier_value floor) (provider_tier p)) r)
      → All (λ p. tier_value floor ≤ provider_tier p → P p) r
  All-of_selected P floor [] h = tt
  All-of_selected P floor (p ∷ r) h = elim (Bool-cases (leb (tier_value floor) (provider_tier p))) [
    | inl e ↦
        let k : All P (p ∷ select (λ p. leb (tier_value floor) (provider_tier p)) r) = rw e at h in
        ((λ _. k.0), All-of_selected P floor r k.1)
    | inr e ↦
        let k : All P (select (λ p. leb (tier_value floor) (provider_tier p)) r) = rw e at h in
        ((λ le. absurd (ground arith)), All-of_selected P floor r k)
  ]

  All-at_or_above :
      (P : ModelProvider S → Type 0) (floor : ModelTier) (r : ProviderRegistry S)
      → All P (at_or_above floor r)
      → All (λ p. tier_value floor ≤ provider_tier p → P p) r
  unfolding at_or_above
  All-at_or_above P floor r h =
      All-of_selected P floor r
        (All-of_sorted provider_tier P (select (λ p. leb (tier_value floor) (provider_tier p)) r) h)

  -- `cheapest_capable` returns a provider at the floor or above that has the required
  -- capabilities, and no registered one with both stands at a lower tier.
  pub cheapest_capable_lem :
      (floor : ModelTier) (required : ProviderCapability) {p : ModelProvider S}
      (r : ProviderRegistry S)
      → cheapest_capable floor required r ≡ ok p
      → (tier_value floor ≤ provider_tier p)
        × (offers required p.capabilities ≡ true)
        × All (λ q. tier_value floor ≤ provider_tier q → Cheapest required p q) r
  unfolding cheapest_capable
  cheapest_capable_lem floor required {p} r e =
      let (a, b, c) =
        first_capable-first floor required (λ q. tier_value floor ≤ provider_tier q)
          (at_or_above floor r) (at_or_above-le floor r) (Ascending-at_or_above floor r) e in
      (a, b, All-at_or_above (Cheapest required p) floor r c)
