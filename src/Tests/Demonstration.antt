-- ===== src/Tests/Demonstration.antt =====
-- The demonstration's backend and the function's gateway, run on mocks.
use model_dispatcher.Prelude.{ℕ, String, ◌≡◌, refl, true, [], ◌∷◌, map}
use model_dispatcher.Prelude.Int.{pos}
use model_dispatcher.Types.Json.{string, object, array, integer, nil, cons, end, field, JsonValue}
use model_dispatcher.Quota.Store.{read}
use model_dispatcher.Demo.{quota_report, build_demo_gateway}
use model_dispatcher.Tests.Fixtures.{floats, store, start}
use model_dispatcher.Tests.Recovering.{world_cell, mock_store, mock_clock, two_left}

names :
    map
      (λ p. p.name)
      (build_demo_gateway
        (λ name. world_cell)
        floats
        mock_store
        mock_store
        mock_clock
        true
        two_left).0.providers
    ≡ "mock:free-overloaded" ∷ "mock:free" ∷ "mock:standard" ∷ "mock:premium" ∷ []
unfolding build_demo_gateway
names = refl

-- Nothing has been used yet.
abbrev unused : String → ℕ → ℕ → JsonValue
unused name limit period = object (
    field "name" (string name) (
      field "used" (integer (pos 0))
        (field "limit" (integer (pos limit)) (field "period_seconds" (integer (pos period)) end))))

report :
    (quota_report store "ada" start).0
    ≡ object (
        field "tenant_id" (string "ada") (
          field "windows"
            (array (
              cons (unused "requests_per_min" 30 60) (
                cons
                  (unused "tokens_per_min" 400 60)
                  (cons (unused "tokens_per_day" 4_000 86_400) nil))))
            end))
unfolding quota_report read
report = refl
