-- ===== src/Providers/Openai/Compatible.antt =====
-- src/model_dispatcher/providers/openai_compatible.py: four vendors behind the same adapter.
use model_dispatcher.Prelude.{String, Option, some}
use model_dispatcher.Prelude.Text.{append}
use model_dispatcher.Types.{ModelTier}
use model_dispatcher.Providers.Openai.{OpenaiProvider}

compatible : String → String → String → ModelTier → Option String → OpenaiProvider
compatible family base_url model tier api_key = record {
  model = model;
  tier = tier;
  api_key = api_key;
  base_url = some base_url;
  name = some (append family model);
}

unfoldable pub groq_provider : String → ModelTier → Option String → OpenaiProvider
unfolding compatible
groq_provider = compatible "groq:" "https://api.groq.com/openai/v1"

unfoldable pub open_router_provider : String → ModelTier → Option String → OpenaiProvider
unfolding compatible
open_router_provider = compatible "openrouter:" "https://openrouter.ai/api/v1"

unfoldable pub cerebras_provider : String → ModelTier → Option String → OpenaiProvider
unfolding compatible
cerebras_provider = compatible "cerebras:" "https://api.cerebras.ai/v1"

unfoldable pub mistral_provider : String → ModelTier → Option String → OpenaiProvider
unfolding compatible
mistral_provider = compatible "mistral:" "https://api.mistral.ai/v1"
