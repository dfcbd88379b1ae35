-- ===== src/Providers/Registry/Names.antt =====
-- The registry as a dictionary by name.
use model_dispatcher.Prelude.{
  ◌≡◌, String, some, [], ◌∷◌, ◌==◌, eq_iff, if◌then◌else◌, arith, length, ◌+◌,
}
use model_dispatcher.Providers.Base.{ModelProvider}
use model_dispatcher.Providers.Registry.{ProviderRegistry, find, contains, register}

module _ {S : Type 0} where
  -- After a registration, a lookup of the provider's name gives the provider, and a lookup of any
  -- other name gives what it gave before.
  pub find-register :
      (name : String) (p : ModelProvider S) (r : ProviderRegistry S)
      → find name (register p r) ≡ (if p.name == name then some p else find name r)
  unfolding find register
  find-register name p [] = ground (arith, eq_iff p.name name, eq_iff name p.name)
  find-register name p (q ∷ r) = ground (
    arith,
    eq_iff p.name name,
    eq_iff name p.name,
    eq_iff p.name q.name,
    eq_iff name q.name,
    find-register name p r,
  )

  -- A new name is added at the end; a known one keeps its place and adds nothing.
  pub length-register :
      (p : ModelProvider S) (r : ProviderRegistry S)
      → length (register p r) ≡ length r + (if contains p.name r then 0 else 1)
  unfolding register contains find
  length-register p [] = omega arith
  length-register p (q ∷ r) = ground (arith, length-register p r)
