-- ===== src/Tests/Sockets.antt =====
-- The theorems on the logger, on the bridge and on the handler behind the socket.
use model_dispatcher.Prelude.{ℕ, ◌+◌, String, ◌≡◌, refl, none, some, List, [], ◌∷◌, eqb}
use model_dispatcher.Prelude.Text.{codes}
use model_dispatcher.Prelude.Int.{pos, negsuc}
use model_dispatcher.Prelude.Decimal.{parse_int}
use model_dispatcher.Types.Json.{JsonValue, string, Fields, end, field}
use model_dispatcher.Errors.{Res, ok}
use model_dispatcher.Security.Redaction.Scrubbed.{IsScrubbed}
use model_dispatcher.AsyncBridge.{AsyncRuntime, run_sync, run_sync_lem}
use model_dispatcher.Vercel.Pipeline.{Body}
use model_dispatcher.Vercel.Handler.{Incoming}

-- A log that keeps the values that it is given.
abbrev keep : String → JsonValue → List JsonValue → List JsonValue
keep name value log = value ∷ log

abbrev AllScrubbed : List JsonValue → Type 0
AllScrubbed [] = Unit
AllScrubbed (v ∷ vs) = IsScrubbed v × AllScrubbed vs

abbrev two_events : List (String × Fields)
two_events =
    ("dispatch", field "api_key" (string "x") end)
    ∷ ("reply", field "note" (string "sent sk-abcdefghijklmnopqrst away") end)
    ∷ []

abbrev runtime : AsyncRuntime ℕ String
runtime = record { run = λ coro. coro; loop_running = λ s. eqb s 0; in_thread = λ task. task }

abbrev greet : ℕ → Res String × ℕ
greet n = (ok "hello", n + 1)

run_sync_lem_example : run_sync runtime greet 0 ≡ (ok "hello", 1)
run_sync_lem_example = run_sync_lem runtime (λ task s. refl) greet 0

parse_int_examples :
    (parse_int " 1_024 " ≡ some (pos 1024))
    × (parse_int "-1" ≡ some (negsuc 0))
    × (parse_int "1__0" ≡ none)
    × (parse_int "0x10" ≡ none)
unfolding parse_int
parse_int_examples = (refl, refl, refl, refl)

-- A signed-in user posts a body of two bytes.
abbrev posted : Incoming
posted = record {
  headers =
      ("content-length", "2")
      ∷ ("x-firebase-appcheck", "app")
      ∷ ("authorization", "Bearer ada")
      ∷ [];
  rest = codes "[] and more";
}

abbrev dumps : Body → List ℕ
dumps body = codes "{}"
