-- ===== src/Tests/Conversation.antt =====
-- The theorems on tool calls, on the loop and on the gateway.
use model_dispatcher.Prelude.{◌≡◌, refl, none, [], ◌∷◌, ◌==◌, if◌then◌else◌}
use model_dispatcher.Errors.{ok}
use model_dispatcher.Orchestration.Tools.{ToolRegistry, register_tool, get_tool}
use model_dispatcher.Orchestration.Tools.Execute.{get_tool-register_tool}
use model_dispatcher.Orchestration.State.{ConversationState, fresh_state}
use model_dispatcher.Gateway.{create}
use model_dispatcher.Tests.Fixtures.{World, hello, store, clock, registry, gateway, look_up_tool}

created : create registry none none none store clock ≡ gateway
unfolding create
created = refl

abbrev no_tools : ToolRegistry World
no_tools = []

get_tool-register_tool_example :
    get_tool "look_up" (register_tool look_up_tool no_tools)
    ≡ (if look_up_tool.spec.name == "look_up" then ok look_up_tool else get_tool "look_up" no_tools)
get_tool-register_tool_example = get_tool-register_tool "look_up" look_up_tool no_tools

abbrev conversation : ConversationState
conversation = fresh_state "acme" (hello ∷ []) []
