-- ===== src/Byok/Registry/Usable.antt =====
-- When a registry can be built.
use model_dispatcher.Prelude.{
  String, ◌≡◌, refl, ◌∙◌, inl, inr, Bool, true, false, ◌||◌, List, [], ◌∷◌, arith, Bool-cases, any,
}
use model_dispatcher.Errors.{Res, ok, raised, dispatcher, NoProviderAvailableError}
use model_dispatcher.Onboarding.Handoff.{text}
use model_dispatcher.Providers.Base.{ModelProvider}
use model_dispatcher.Providers.Registry.{ProviderRegistry, register}
use model_dispatcher.Byok.Registry.{
  Environ, ProviderSpec, Credentials, usable, construct, register_usable, build_registry,
}

abbrev pub is_ok : {A : Type 0} → Res A → Bool
is_ok (ok a) = true
is_ok (raised e) = false

module _ {S : Type 0} where
  abbrev is_filled : ProviderRegistry S → Bool
  is_filled [] = false
  is_filled (p ∷ ps) = true

  register-is_filled :
      (p : ModelProvider S) (r : ProviderRegistry S) → is_filled (register p r) ≡ true
  unfolding register
  register-is_filled p [] = refl
  register-is_filled p (q ∷ r) = ground arith

  register_usable-is_filled :
      (env : Environ) (credentials : Credentials) (specs : List (String × ProviderSpec S))
      (r : ProviderRegistry S)
      → is_filled (register_usable env credentials specs r)
        ≡ is_filled r || any (usable env credentials) specs
  unfolding register_usable
  register_usable-is_filled env credentials [] r = ground arith
  register_usable-is_filled env credentials ((name, spec) ∷ specs) r =
      elim (Bool-cases (usable env credentials (name, spec))) [
        | inl e ↦
            rw
              (
                e,
                register_usable-is_filled env credentials specs (register (construct env spec) r),
                register-is_filled (construct env spec) r,
              )
              (ground arith)
        | inr e ↦ rw (e, register_usable-is_filled env credentials specs r) refl
      ]

  -- `build_registry` succeeds exactly when some vendor has a server key or a visitor's key.
  pub is_ok-build_registry :
      (env : Environ) (specs : List (String × ProviderSpec S)) (credentials : Credentials)
      → is_ok (build_registry env specs credentials) ≡ any (usable env credentials) specs
  unfolding build_registry
  is_ok-build_registry env specs credentials =
      go (register_usable env credentials specs [])
      ∙ register_usable-is_filled env credentials specs []
    where
      go :
          (r : ProviderRegistry S)
          → is_ok (elim r [
            | [] ↦ raised (
                dispatcher (
                  NoProviderAvailableError (
                    text "no provider key available -- set one on the server or supply your own"
                    ∷ [])))
            | p ∷ ps ↦ ok (p ∷ ps)
          ])
            ≡ is_filled r
      go [] = refl
      go (p ∷ ps) = refl
