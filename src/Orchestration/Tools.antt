-- ===== src/Orchestration/Tools.antt =====
-- src/model_dispatcher/orchestration/tools.py: the tools of a run, by name, and their calls. `S` is
-- all that a tool can change.
pub mod Execute
use model_dispatcher.Prelude.{
  String, true, false, Option, none, some, List, [], ◌∷◌, map, ◌==◌, if◌then◌else◌,
}
use model_dispatcher.Prelude.Text.{append}
use model_dispatcher.Types.{ToolSpec, ToolCall, ToolResult}
use model_dispatcher.Types.Json.{Fields}
use model_dispatcher.Errors.{Res, ok, raised, key_error}

-- How a handler ends: with a content, or with an exception, of which only the text is read.
pub data Handled : Type 0 where
  content : String → Handled
  threw : String → Handled

abbrev pub ToolHandler : Type 0 → Type 0
ToolHandler S = Fields → S → Handled × S

pub record Tool (S : Type 0) : Type 0 where
  pub spec : ToolSpec
  pub handler : Option (ToolHandler S)
  pub ahandler : Option (ToolHandler S)

-- `_tools`; a tool's key is `tool.spec.name`
abbrev pub ToolRegistry : Type 0 → Type 0
ToolRegistry S = List (Tool S)

failure : ToolCall → String → ToolResult
failure call text = record { call_id = call.id; content = text; is_error = true }

module _ {S : Type 0} where
  -- A tool of the same name is replaced where it stands.
  unfoldable pub register_tool : Tool S → ToolRegistry S → ToolRegistry S
  register_tool t [] = t ∷ []
  register_tool t (u ∷ r) =
      let rest = register_tool t r in if t.spec.name == u.spec.name then t ∷ r else u ∷ rest

  unfoldable pub specs : ToolRegistry S → List ToolSpec
  specs r = map (λ t. t.spec) r

  -- `self._tools[name]`
  pub get_tool : String → ToolRegistry S → Res (Tool S)
  get_tool name [] = raised (key_error name)
  get_tool name (t ∷ r) = let rest = get_tool name r in if name == t.spec.name then ok t else rest

  -- `try: content = ...; except Exception as exc: ...`
  unfoldable pub report : ToolCall → Handled × S → ToolResult × S
  unfolding failure
  report call (content text, s) =
      (record { call_id = call.id; content = text; is_error = false }, s)
  report call (threw text, s) = (failure call (append "tool error: " text), s)

  run_sync : ToolCall → Tool S → S → ToolResult × S
  unfolding report
  run_sync call t s = elim t.handler [
    | none ↦ (failure call (append (append "tool " call.name) " has no synchronous handler"), s)
    | some h ↦ report call (h call.arguments s)
  ]

  run_async : ToolCall → Tool S → S → ToolResult × S
  unfolding report
  run_async call t s = elim t.ahandler [
    | some h ↦ report call (h call.arguments s)
    | none ↦ elim t.handler [
      | some h ↦ report call (h call.arguments s)
      | none ↦ (failure call (append (append "tool " call.name) " has no handler"), s)
    ]
  ]

  -- `try: tool = self._registry.get(call.name); except KeyError: ...`
  with_tool : (Tool S → S → ToolResult × S) → ToolCall → Res (Tool S) → S → ToolResult × S
  unfolding failure
  with_tool run call (raised e) s = (failure call (append "unknown tool: " call.name), s)
  with_tool run call (ok t) s = run t s

  -- `ToolExecutor.execute`
  pub execute : ToolRegistry S → ToolCall → S → ToolResult × S
  unfolding with_tool run_sync get_tool
  execute r call s = with_tool (run_sync call) call (get_tool call.name r) s

  -- `ToolExecutor.aexecute`
  pub aexecute : ToolRegistry S → ToolCall → S → ToolResult × S
  unfolding with_tool run_async get_tool
  aexecute r call s = with_tool (run_async call) call (get_tool call.name r) s
