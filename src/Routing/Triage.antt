-- ===== src/Routing/Triage.antt =====
-- src/model_dispatcher/routing/triage.py: a request's complexity from what can be seen of it.
pub mod Monotone
use model_dispatcher.Prelude.{
  ℕ, ◌+◌, ◌*◌, min, String, Option, none, some, List, [], ◌∷◌, map, ltb, if◌then◌else◌, length,
}
use model_dispatcher.Prelude.Text.{codes, lower, join_spaced, occurs}
use model_dispatcher.Types.{
  content_or_empty, CompletionRequest, TaskComplexity, trivial, simple, moderate, complex,
}

abbrev pub ComplexityScorer : Type 0
ComplexityScorer = CompletionRequest → TaskComplexity

abbrev pub reasoning_markers : List String
reasoning_markers =
    "prove" ∷ "step by step" ∷ "step-by-step" ∷ "analyze" ∷ "analyse" ∷ "reason" ∷ "explain why"
    ∷ "derive" ∷ "optimize" ∷ "optimise" ∷ "design" ∷ "architect" ∷ "refactor" ∷ "debug"
    ∷ "trade-off" ∷ "tradeoff" ∷ "algorithm" ∷ []

-- A score counts in units of 1/500 of a point, so that `len(text) / 500.0` is whole.
abbrev pub point : ℕ
point = 500

-- `sum(1.0 for marker in markers if marker in text)`
marker_points : List String → List ℕ → ℕ
marker_points [] text = 0
marker_points (m ∷ ms) text = (if occurs (codes m) text then point else 0) + marker_points ms text

request_text : CompletionRequest → List ℕ
request_text r = lower (join_spaced (map (λ m. codes (content_or_empty m)) r.messages))

output_points : Option ℕ → ℕ
output_points none = 0
output_points (some n) = if ltb 1024 n then point else 0

score : CompletionRequest → ℕ
unfolding marker_points request_text output_points
score r =
    let text = request_text r in
    min (length text) (4 * point)
    + point * length r.tools
    + marker_points reasoning_markers text
    + (if occurs (codes "```") text then point else 0)
    + output_points r.max_tokens

-- The thresholds 1.5, 3.0 and 5.0.
bucket : ℕ → TaskComplexity
bucket points =
    if ltb points 750
    then trivial
    else if ltb points 1500
    then simple
    else if ltb points 2500
    then moderate
    else complex

-- `_default_scorer`
pub default_scorer : ComplexityScorer
unfolding score bucket
default_scorer r = bucket (score r)

-- `TaskTriage(scorer).classify`
unfoldable pub classify : Option ComplexityScorer → CompletionRequest → TaskComplexity
classify none r = default_scorer r
classify (some scorer) r = scorer r
