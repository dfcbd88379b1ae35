-- ===== src/Tests/Recovering.antt =====
-- The theorems on the mock provider and on the two modes of the chain.
use model_dispatcher.Prelude.{refl, [], ◌∷◌}
use model_dispatcher.Types.{transient, standard}
use model_dispatcher.Providers.Base.{ModelProvider, Clock}
use model_dispatcher.Providers.Mock.{MockState, Cell, MockProvider, initial_state, mock_provider}
use model_dispatcher.Quota.Store.{InMemoryQuotaStore}
use model_dispatcher.Quota.Manager.{QuotaStore, in_memory}
use model_dispatcher.Fallback.Context.{InvocationContext, fresh_context}
use model_dispatcher.Tests.Fixtures.{floats, request, tenant, with_tools}

abbrev pub MockWorld : Type 0
MockWorld = InMemoryQuotaStore MockState

abbrev pub world_cell : Cell MockWorld
world_cell = record {
  get = λ s. s.world;
  set = λ m s. record s { world = m };
  get_set = λ m s. refl;
}

abbrev pub mock_store : QuotaStore MockWorld
mock_store = in_memory (λ m. (0, m))

abbrev pub mock_clock : Clock MockWorld
mock_clock = record { sleep = λ delay s. s; async_sleep = λ delay s. s; monotonic = λ s. (0, s) }

abbrev shaky : MockProvider
shaky = record {
  name = "shaky";
  tier = standard;
  capabilities = with_tools;
  reply = "hi";
  fail_with = transient;
  chars_per_token = record { num = 4; den = 1 };
}

abbrev shaky_provider : ModelProvider MockWorld
shaky_provider = mock_provider world_cell floats shaky

abbrev shaky_context : InvocationContext MockWorld
shaky_context = fresh_context request tenant (shaky_provider ∷ [])

abbrev pub two_left : MockWorld
two_left = record { counts = []; world = initial_state [] 2 }
