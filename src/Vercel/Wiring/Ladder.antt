-- ===== src/Vercel/Wiring/Ladder.antt =====
-- The routing ladder of the function.
use Prim.Native.Char.{code}
use model_dispatcher.Prelude.{
  ℕ, ◌+◌, ◌*◌, String, ◌≡◌, refl, ap, ◌∙◌, ◌≢◌, ◌⊎◌, inl, inr, false, Option, none, some, [], ◌∷◌,
  map, arith, ◌==◌, eq_iff, if◌then◌else◌, Bool-cases,
}
use model_dispatcher.Prelude.Text.{append, is_nonempty}
use model_dispatcher.Types.{ModelTier, free, standard, premium}
use model_dispatcher.Providers.Base.{ModelProvider}
use model_dispatcher.Providers.Registry.{register}
use model_dispatcher.Providers.Mock.{mock_provider}
use model_dispatcher.Providers.Openai.{openai_provider, provider_name}
use model_dispatcher.Providers.Anthropic.{anthropic_provider}
use model_dispatcher.Providers.Gemini.{gemini_provider}
use model_dispatcher.Vercel.Firebase.{Environment}
use model_dispatcher.Vercel.Wiring.{
  ProviderSlot, Vendors, tier_mock, gemini_slot, openai_slot, anthropic_slot, slots, live, mocked,
  provider_of, register_slots,
}

abbrev first_code : String → ℕ
first_code String.[] = 0
first_code (String.◌∷◌ c s) = code c

abbrev tail : String → String
tail String.[] = ""
tail (String.◌∷◌ c s) = s

-- The first and the sixth character of a name, which tell the slots' providers apart.
abbrev tag : String → ℕ
tag s = 1000 * first_code s + first_code (tail (tail (tail (tail (tail s)))))

module _ {S : Type 0} (vendors : Vendors S) (environ : Environment) where
  -- The tag of a live provider, and of a mock.
  abbrev Tagged : ProviderSlot S → ℕ → ℕ → Type 0
  Tagged slot a b =
      (tag (provider_of vendors environ slot).name ≡ a)
      ⊎ (tag (provider_of vendors environ slot).name ≡ b)

  abbrev chosen : ProviderSlot S → Option String → ModelProvider S
  chosen slot none = mocked vendors environ slot
  chosen slot (some api_key) =
      if is_nonempty api_key then live vendors environ slot api_key else mocked vendors environ slot

  provider_of-Tagged :
      (slot : ProviderSlot S) (a b : ℕ)
      → ((api_key : String) → tag (live vendors environ slot api_key).name ≡ a)
      → tag (mocked vendors environ slot).name ≡ b
      → Tagged slot a b
  unfolding provider_of
  provider_of-Tagged slot a b is_live is_mocked = go (environ slot.api_key_env)
    where
      go :
          (key : Option String)
          → (tag (chosen slot key).name ≡ a) ⊎ (tag (chosen slot key).name ≡ b)
      go none = inr is_mocked
      go (some api_key) = elim (Bool-cases (is_nonempty api_key)) [
        | inl e ↦ rw e (inl (is_live api_key))
        | inr e ↦ rw e (inr is_mocked)
      ]

  gemini-Tagged : Tagged (gemini_slot vendors) 103105 109102
  unfolding gemini_slot gemini_provider live mocked mock_provider tier_mock append
  gemini-Tagged = provider_of-Tagged (gemini_slot vendors) 103105 109102 (λ key. refl) refl

  openai-Tagged : Tagged (openai_slot vendors) 111105 109115
  unfolding openai_slot openai_provider provider_name live mocked mock_provider tier_mock append
  openai-Tagged = provider_of-Tagged (openai_slot vendors) 111105 109115 (λ key. refl) refl

  anthropic-Tagged : Tagged (anthropic_slot vendors) 97111 109112
  unfolding anthropic_slot anthropic_provider live mocked mock_provider tier_mock append
  anthropic-Tagged = provider_of-Tagged (anthropic_slot vendors) 97111 109112 (λ key. refl) refl

  differ :
      (slot slot' : ProviderSlot S) (a b c d : ℕ)
      → Tagged slot a b
      → Tagged slot' c d
      → a ≢ c
      → a ≢ d
      → b ≢ c
      → b ≢ d
      → (provider_of vendors environ slot).name ≢ (provider_of vendors environ slot').name
  differ slot slot' a b c d h h' ac ad bc bd same =
      ground (arith, h, h', ac, ad, bc, bd, ap tag same)

  names_differ :
      (slot slot' : ProviderSlot S) (a b c d : ℕ)
      → Tagged slot a b
      → Tagged slot' c d
      → a ≢ c
      → a ≢ d
      → b ≢ c
      → b ≢ d
      → ((provider_of vendors environ slot).name == (provider_of vendors environ slot').name)
        ≡ false
  names_differ slot slot' a b c d h h' ac ad bc bd =
      let name = (provider_of vendors environ slot).name in
      let name' = (provider_of vendors environ slot').name in
      elim (Bool-cases (name == name')) [
        | inl e ↦ absurd (differ slot slot' a b c d h h' ac ad bc bd ((eq_iff name name').0 e))
        | inr e ↦ e
      ]

  -- No provider displaces another, whatever the models are called.
  pub register_slots-slots :
      (s : S)
      → (register_slots vendors environ (slots vendors) [] s).0
        ≡ map (provider_of vendors environ) (slots vendors)
  unfolding register_slots register
  register_slots-slots s =
      rw
        (
          names_differ (openai_slot vendors) (gemini_slot vendors) 111105 109115 103105 109102
              openai-Tagged gemini-Tagged (omega arith) (omega arith) (omega arith) (omega arith),
          names_differ (anthropic_slot vendors) (gemini_slot vendors) 97111 109112 103105 109102
              anthropic-Tagged gemini-Tagged (omega arith) (omega arith) (omega arith)
              (omega arith),
          names_differ (anthropic_slot vendors) (openai_slot vendors) 97111 109112 111105 109115
              anthropic-Tagged openai-Tagged (omega arith) (omega arith) (omega arith)
              (omega arith),
        )
        refl

  -- A slot's provider by name and tier: the live one where the key is set and not empty, and else
  -- the mock.
  abbrev pub Rung : Type 0
  Rung = String × ModelTier

  abbrev pub rung_of : (key model : Option String) → String → String → String → ModelTier → Rung
  rung_of none model vendor default mock tier = (mock, tier)
  rung_of (some key) model vendor default mock tier = (
    if is_nonempty key then append vendor (elim model [ none ↦ default | some m ↦ m ]) else mock,
    tier,
  )

  abbrev shown : ModelProvider S → Rung
  shown p = (p.name, p.tier)

  shown_choice :
      (slot : ProviderSlot S) (key : Option String) (vendor mock : String)
      → ((api_key : String)
          → shown (live vendors environ slot api_key) ≡ (
            append vendor
                (elim (environ slot.model_env) [ none ↦ slot.default_model | some m ↦ m ]),
            slot.tier,
          ))
      → shown (mocked vendors environ slot) ≡ (mock, slot.tier)
      → shown (chosen slot key)
        ≡ rung_of key (environ slot.model_env) vendor slot.default_model mock slot.tier
  shown_choice slot none vendor mock is_live is_mocked = is_mocked
  shown_choice slot (some key) vendor mock is_live is_mocked = elim (Bool-cases (is_nonempty key)) [
    | inl e ↦ rw e (is_live key)
    | inr e ↦ rw e is_mocked
  ]

  gemini-rung :
      shown (provider_of vendors environ (gemini_slot vendors))
      ≡ rung_of
          (environ "MD_GEMINI_API_KEY")
          (environ "MD_GEMINI_MODEL")
          "gemini:"
          "gemini-1.5-flash"
          "mock:free"
          free
  unfolding provider_of gemini_slot gemini_provider live mocked mock_provider tier_mock append
  gemini-rung =
      shown_choice (gemini_slot vendors) (environ "MD_GEMINI_API_KEY") "gemini:" "mock:free"
        (λ key. refl) refl

  openai-rung :
      shown (provider_of vendors environ (openai_slot vendors))
      ≡ rung_of
          (environ "MD_OPENAI_API_KEY")
          (environ "MD_OPENAI_MODEL")
          "openai:"
          "gpt-4o-mini"
          "mock:standard"
          standard
  unfolding provider_of openai_slot openai_provider provider_name live mocked mock_provider
      tier_mock append
  openai-rung =
      shown_choice (openai_slot vendors) (environ "MD_OPENAI_API_KEY") "openai:" "mock:standard"
        (λ key. refl) refl

  anthropic-rung :
      shown (provider_of vendors environ (anthropic_slot vendors))
      ≡ rung_of
          (environ "MD_ANTHROPIC_API_KEY")
          (environ "MD_ANTHROPIC_MODEL")
          "anthropic:"
          "claude-opus-4-8"
          "mock:premium"
          premium
  unfolding provider_of anthropic_slot anthropic_provider live mocked mock_provider tier_mock append
  anthropic-rung =
      shown_choice (anthropic_slot vendors) (environ "MD_ANTHROPIC_API_KEY") "anthropic:"
        "mock:premium" (λ key. refl) refl

  -- The registry always has three providers, in this order: at the free tier Gemini with the model
  -- that is set or its default if its key is set and not empty, and `mock:free` if not; so at the
  -- standard tier OpenAI or `mock:standard`, and at the premium tier Anthropic or `mock:premium`.
  pub register_slots-rungs :
      (s : S)
      → map shown (register_slots vendors environ (slots vendors) [] s).0
        ≡ rung_of
            (environ "MD_GEMINI_API_KEY")
            (environ "MD_GEMINI_MODEL")
            "gemini:"
            "gemini-1.5-flash"
            "mock:free"
            free
          ∷ rung_of
              (environ "MD_OPENAI_API_KEY")
              (environ "MD_OPENAI_MODEL")
              "openai:"
              "gpt-4o-mini"
              "mock:standard"
              standard
          ∷ rung_of
              (environ "MD_ANTHROPIC_API_KEY")
              (environ "MD_ANTHROPIC_MODEL")
              "anthropic:"
              "claude-opus-4-8"
              "mock:premium"
              premium
          ∷ []
  register_slots-rungs s =
      ap (map shown) (register_slots-slots s) ∙ rw (gemini-rung, openai-rung, anthropic-rung) refl
