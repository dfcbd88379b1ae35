-- ===== src/Security/Perimeter/Accepts.antt =====
-- Which requests pass the perimeter.
use model_dispatcher.Prelude.{
  ℕ, ◌≤◌, String, ◌≡◌, ◌≢◌, true, Option, none, some, List, [], ◌∷◌, ◌++◌, arith, ◌==◌, any,
}
use Prim.Native.String.{len}
use model_dispatcher.Prelude.Text.{characters, is_nonempty}
use model_dispatcher.Prelude.Sums.{sum}
use model_dispatcher.Types.Json.{fields_length}
use model_dispatcher.Types.{ToolSpec, Message, content_or_empty, CompletionRequest}
use model_dispatcher.Errors.{RaisesDispatcher}
use model_dispatcher.Config.{SecuritySettings}
use model_dispatcher.Quota.Tenant.{TenantContext, metadata_get}
use model_dispatcher.Security.Perimeter.{listed, forbidden, violation, check_allowlist, validate}

-- The bytes of a request's texts, one by one: the content of each message, the content of each
-- tool's result, and what each tool tells of itself.
message_sizes : List Message → List ℕ
message_sizes [] = []
message_sizes (m ∷ ms) =
    len (content_or_empty m)
    ∷ (elim m.tool_result [ none ↦ [] | some r ↦ len r.content ∷ [] ] ++ message_sizes ms)

tool_sizes : List ToolSpec → List ℕ
tool_sizes [] = []
tool_sizes (t ∷ ts) =
    characters t.name ∷ characters t.description ∷ fields_length t.parameters ∷ tool_sizes ts

pub request_sizes : CompletionRequest → List ℕ
unfolding message_sizes tool_sizes
request_sizes r = message_sizes r.messages ++ tool_sizes r.tools

-- A tenant that is pinned to a provider is pinned to one of the allowlist, if there is an allowlist.
abbrev pub IsAllowed : List String → Option String → Type 0
IsAllowed [] pinned = Unit
IsAllowed (a ∷ others) none = Unit
IsAllowed (a ∷ others) (some name) = any (λ b. name == b) (a ∷ others) ≡ true

-- The tenant is named where that is required, there is a message, the texts of the messages, of the
-- results and of the tools are within the limit, and the tenant's pin is allowed.
abbrev pub Accepts : SecuritySettings → CompletionRequest → TenantContext → Type 0
Accepts settings r t =
    ((settings.require_tenant_auth ≡ true) → is_nonempty t.tenant_id ≡ true)
    × (r.messages ≢ [])
    × (sum (request_sizes r) ≤ settings.max_payload_bytes)
    × IsAllowed settings.allowed_providers (metadata_get "forced_provider" t.metadata)

pub validate-RaisesDispatcher :
    (settings : SecuritySettings) (r : CompletionRequest) (t : TenantContext)
    → RaisesDispatcher (validate settings r t)
unfolding validate check_allowlist violation
validate-RaisesDispatcher settings r t = ground arith

-- For a tenant that is pinned to no provider the allowlist decides nothing: the same requests pass
-- as with no allowlist, whatever providers are registered.
pub validate-unpinned :
    (settings : SecuritySettings) (r : CompletionRequest) (t : TenantContext)
    → metadata_get "forced_provider" t.metadata ≡ none
    → validate settings r t ≡ validate (record settings { allowed_providers = [] }) r t
unfolding validate forbidden listed
validate-unpinned settings r t h = ground arith
