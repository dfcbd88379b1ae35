-- ===== src/Lib.antt =====
-- The library src/model_dispatcher of ModelDispatcher: a gateway that routes a chat request to one of
-- several AI vendors, with quotas, keys, retries, failover between vendors, and a tool-calling loop;
-- and the serverless function of templates/vercel-app that puts it behind HTTP.
--
-- How the parts interact. `ModelGateway.dispatch` validates the request (Perimeter), rates it (Triage),
-- asks the router for candidates (Routing, over the provider registry), composes a chain of handlers
-- and gives all this to the agent loop (Orchestration). Each model turn of the loop runs the chain
-- (Fallback): for one candidate after another the perimeter, credential, quota and invocation handlers
-- are called on a shared context; the invocation handler calls the vendor, retries, rotates keys, and
-- commits the usage to the quota counters. The adapters (Providers) translate a conversation for a
-- vendor's package and its answer back. The function (Vercel) verifies the app and the user, parses
-- the body, dispatches for the verified tenant and serialises the result.
--
--   - Types, Errors, Config: src/model_dispatcher/types.py, exceptions.py and config.py. An enum is a
--     data type with its members, a dataclass a record; an exception is a value of `Exn` in `Res`.
--   - Onboarding: onboarding/handoff.py (`build`) and flow.py (`stage`, `escalate`).
--   - Quota: quota/tenant.py, tokenizer.py (`estimate`), store.py (`read`, `incr`, `reset_expired`) and
--     manager.py (`reserve`, `commit`). `QuotaStore` is the protocol by which the manager reaches the
--     counters, and Quota.Manager.Laws says what it relies on.
--   - Providers: providers/base.py (the contract `ModelProvider`) and registry.py; Providers.Mock:
--     mock_provider.py; Providers.Openai, with Compatible: openai_provider.py and openai_compatible.py;
--     Providers.Anthropic: anthropic_provider.py; Providers.Gemini: gemini_provider.py;
--     Providers.RetryHints: retry_hints.py. Providers.Pairing states what the vendors ask of tool calls
--     and their answers.
--   - Routing: routing/triage.py (`default_scorer`, `classify`) and router.py (`route`).
--   - Security: security/credentials.py (`resolve_candidates`, `resolve`), perimeter.py (`validate`) and
--     redaction.py (`scrub`, `scrub_text`).
--   - Fallback: fallback/conditions.py, handlers.py and chain.py. Fallback.Context has the context,
--     Fallback.Handlers the links that compute, Fallback.Invocation the one that calls a vendor,
--     Fallback.Chain the executor.
--   - Orchestration: orchestration/tools.py, state.py, result.py and loop.py.
--   - Gateway: gateway.py.
--   - Byok: byok/registry.py (`credential_metadata`, `configured_providers`, `build_registry`) and
--     dispatch.py (`dispatch_with_timeout`, `adispatch_with_timeout`).
--   - Vercel: templates/vercel-app/api/_lib: firebase_app.py, auth.py, appcheck.py, http.py, pipeline.py
--     (`run_dispatch`) and wiring.py (`build_gateway`); Vercel.Handler: api/gateway.py (`do_POST`).
--   - Observability: observability/logging.py (`event`) and metrics.py; AsyncBridge: _async_bridge.py
--     (`run_sync`).
--   - Demo: demo/backend/app.py (`dispatch`, `quota`, `_build_gateway`).
--   - Examples: examples/basic_agent.py (`build_weather_tool`, `main`).
--   - Tests: a concrete gateway, on which the theorems are applied.
--
-- State. All that a call can change outside the context (the quota counters, the clock, the vendors'
-- side, what tools touch) is one type `S`, passed through every function; a function that mutates the
-- context or the conversation returns the new one, also where it raises. A method and its async twin
-- are one function over a record that says how a vendor is called and how a pause is made.
--
-- Numbers. Counters of the quota store are signed; times are in milliseconds; ratios such as the soft
-- limit and the characters per token are fractions and are multiplied out; scores of the triage are in
-- 1/500 of a point. Floats that are only handed on are kept as their text. Strings are the native ones,
-- which have no lone surrogates: where Python has one, the perimeter lets out a UnicodeEncodeError,
-- which is a ValueError. `lower` is that of ASCII;
-- an f-string is kept as its pieces where its text is only shown.
--
-- Loops. The executor's `while True` runs on fuel, the number of candidates; each turn that goes on has
-- dropped one. All other loops are recursion on a list or on the
-- number of attempts or turns that is left.
--
-- Parameters. A vendor (its `complete`, `classify_error`, `estimate_tokens`, `retry_after`), a tool's
-- handler and the clock are arguments. Of a quota store the manager's theorems ask only its laws. For
-- the adapters the packages `openai`, `anthropic`, `google.genai` and `firebase_admin` are arguments, as
-- are `json`, `base64`, Python's floats and the environment: a call of a package answers or raises,
-- and its exception classes are tests on exceptions. A provider's `retry_after` returns a hint or raises a
-- ValueError; the providers of the library inherit the one that reads headers and texts, and a pause
-- that is negative or no number raises as `time.sleep` and `asyncio.sleep` do.
--
-- Patterns. A regular expression is a matcher on code points, written for the one pattern; `\d` is read
-- as the ASCII digits, and white space as `str.isspace` has it. A match of the secret pattern is told by
-- its length, and the text is walked once with a count of what is still to be left out.
--
-- Concurrency. Quota.Manager.Interleaving has the calls of one tenant that reserve and commit at the
-- same time, as a step relation in which each step is one call of the store, the only thing that the
-- protocol makes atomic. Elsewhere a call of the program runs to its end, and a thread pool's wait is a
-- parameter that gives an outcome or times out.
--
-- Not modelled: what FastAPI does for the demonstration, and the clients. The standard library's
-- logger, its HTTP server and asyncio are parameters. The `_next` links of the handlers are set and
-- read by nothing. JSON texts of other values than objects as the arguments of a tool call, and
-- tool calls of a type other than function, are left out.
pub mod Prelude
pub mod Types
pub mod Vercel
pub mod Demo
pub mod Examples
pub mod Errors
pub mod Config
pub mod Onboarding
pub mod Quota
pub mod Providers
pub mod Routing
pub mod Security
pub mod Fallback
pub mod Orchestration
pub mod Observability
pub mod AsyncBridge
pub mod Gateway
pub mod Byok
pub mod Tests
