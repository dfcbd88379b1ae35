-- ===== src/Orchestration/Tools/Execute.antt =====
-- What a tool call reports.
use model_dispatcher.Prelude.{
  String, ◌≡◌, refl, Option, none, some, [], ◌∷◌, arith, ◌==◌, eq_iff, if◌then◌else◌,
}
use model_dispatcher.Types.{ToolCall, ToolResult}
use model_dispatcher.Errors.{Res, ok, raised}
use model_dispatcher.Orchestration.Tools.{
  Handled, content, threw, ToolHandler, Tool, ToolRegistry, register_tool, get_tool, failure,
  report, run_sync, run_async, with_tool, execute, aexecute,
}

module _ {S : Type 0} where
  -- After a registration a name is looked up as before, but for the name that was registered, which
  -- gives the new tool.
  pub get_tool-register_tool :
      (name : String) (t : Tool S) (r : ToolRegistry S)
      → get_tool name (register_tool t r) ≡ (if t.spec.name == name then ok t else get_tool name r)
  unfolding get_tool register_tool
  get_tool-register_tool name t [] =
      ground (arith, eq_iff t.spec.name name, eq_iff name t.spec.name)
  get_tool-register_tool name t (u ∷ r) = ground (
    arith,
    eq_iff t.spec.name name,
    eq_iff name t.spec.name,
    eq_iff t.spec.name u.spec.name,
    eq_iff name u.spec.name,
    get_tool-register_tool name t r,
  )

  -- The result carries the id of the call.
  abbrev pub Answers : ToolCall → ToolResult × S → Type 0
  Answers call r = r.0.call_id ≡ call.id

  report-Answers : (call : ToolCall) (r : Handled × S) → Answers call (report call r)
  unfolding report failure
  report-Answers call (content text, s) = refl
  report-Answers call (threw text, s) = refl

  run_sync-Answers : (call : ToolCall) (t : Tool S) (s : S) → Answers call (run_sync call t s)
  unfolding run_sync failure
  run_sync-Answers call t s = go t.handler
    where
      go : (h : Option (ToolHandler S)) → Answers call (run_sync call (record t { handler = h }) s)
      go none = refl
      go (some h) = report-Answers call (h call.arguments s)

  run_async-Answers : (call : ToolCall) (t : Tool S) (s : S) → Answers call (run_async call t s)
  unfolding run_async failure
  run_async-Answers call t s = go t.ahandler t.handler
    where
      go :
          (a h : Option (ToolHandler S))
          → Answers call (run_async call (record t { ahandler = a; handler = h }) s)
      go (some a) h = report-Answers call (a call.arguments s)
      go none (some h) = report-Answers call (h call.arguments s)
      go none none = refl

  with_tool-Answers :
      (run : Tool S → S → ToolResult × S) (call : ToolCall) (r : Res (Tool S)) (s : S)
      → ((t : Tool S) → Answers call (run t s))
      → Answers call (with_tool run call r s)
  unfolding with_tool failure
  with_tool-Answers run call (raised e) s h = refl
  with_tool-Answers run call (ok t) s h = h t

  pub execute-Answers :
      (r : ToolRegistry S) (call : ToolCall) (s : S) → Answers call (execute r call s)
  unfolding execute
  execute-Answers r call s =
      with_tool-Answers (run_sync call) call (get_tool call.name r) s
        (λ t. run_sync-Answers call t s)

  pub aexecute-Answers :
      (r : ToolRegistry S) (call : ToolCall) (s : S) → Answers call (aexecute r call s)
  unfolding aexecute
  aexecute-Answers r call s =
      with_tool-Answers (run_async call) call (get_tool call.name r) s
        (λ t. run_async-Answers call t s)

  -- `handler` of `t`: what a call of `t` by `execute` runs, in the state and with the arguments of
  -- the call; a failure in it becomes the result.
  pub execute-registered :
      (t : Tool S) (h : ToolHandler S) (r : ToolRegistry S) (call : ToolCall) (s : S)
      → t.handler ≡ some h
      → call.name ≡ t.spec.name
      → execute (register_tool t r) call s ≡ report call (h call.arguments s)
  unfolding execute with_tool run_sync
  execute-registered t h r call s e n =
      ground (arith, eq_iff t.spec.name call.name, get_tool-register_tool call.name t r)
