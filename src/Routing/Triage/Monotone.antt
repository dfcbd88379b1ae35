-- ===== src/Routing/Triage/Monotone.antt =====
-- The score of a request, and of one that says more.
use model_dispatcher.Prelude.{
  ℕ, ◌≤◌, ◌≡◌, refl, sym, ap, ◌∙◌, true, String, List, [], ◌∷◌, ◌++◌, map, length-append,
  if◌then◌else◌, arith,
}
use mathlib.Core.List.{append_assoc, append-nil, map-append}
use model_dispatcher.Prelude.Text.{codes, lower, join_spaced, begins, occurs, lower_code}
use model_dispatcher.Types.{
  content_or_empty, Message, CompletionRequest, complexity_value, ToolSpec,
}
use model_dispatcher.Routing.Triage.{
  reasoning_markers, marker_points, request_text, score, bucket, default_scorer,
}

begins-append : (p s t : List ℕ) → begins p s ≡ true → begins p (s ++ t) ≡ true
unfolding begins
begins-append [] s t h = refl
begins-append (c ∷ p) [] t h = ground arith
begins-append (c ∷ p) (d ∷ s) t h = ground (arith, begins-append p s t)

occurs-append : (p s t : List ℕ) → occurs p s ≡ true → occurs p (s ++ t) ≡ true
unfolding occurs
occurs-append [] [] [] h = refl
occurs-append [] [] (c ∷ t) h = refl
occurs-append (c ∷ p) [] t h = ground arith
occurs-append p (c ∷ s) t h = ground (arith, begins-append p (c ∷ s) t, occurs-append p s t)

marker_points-append :
    (ms : List String) (s t : List ℕ) → marker_points ms s ≤ marker_points ms (s ++ t)
unfolding marker_points
marker_points-append [] s t = omega arith
marker_points-append (m ∷ ms) s t =
    ground (arith, occurs-append (codes m) s t, marker_points-append ms s t)

fence-append :
    (p s t : List ℕ) (n : ℕ) → (if occurs p s then n else 0) ≤ (if occurs p (s ++ t) then n else 0)
fence-append p s t n = ground (arith, occurs-append p s t)

-- What a message adds stands behind the text.
join_spaced-append :
    (xs : List (List ℕ)) (ys : List (List ℕ))
    → (rest : List ℕ) × (join_spaced (xs ++ ys) ≡ join_spaced xs ++ rest)
unfolding join_spaced
join_spaced-append [] ys = (join_spaced ys, refl)
join_spaced-append (x ∷ []) [] = ([], sym (append-nil x))
join_spaced-append (x ∷ []) (y ∷ ys) = (b' ' ∷ join_spaced (y ∷ ys), refl)
join_spaced-append (x ∷ z ∷ xs) ys =
    let (rest, e) = join_spaced-append (z ∷ xs) ys in
    (rest, ap (λ l. x ++ b' ' ∷ l) e ∙ sym (append_assoc x (b' ' ∷ join_spaced (z ∷ xs)) rest))

bucket_mono : (a b : ℕ) → a ≤ b → complexity_value (bucket a) ≤ complexity_value (bucket b)
unfolding bucket
bucket_mono a b h = ground arith

lower-append : (s t : List ℕ) → lower (s ++ t) ≡ lower s ++ lower t
unfolding lower
lower-append s t = map-append lower_code s t

-- What is added to a request.
abbrev pub more : CompletionRequest → List Message → List ToolSpec → CompletionRequest
more r ms ts = record r { messages = r.messages ++ ms; tools = r.tools ++ ts }

request_text-more :
    (r : CompletionRequest) (ms : List Message) (ts : List ToolSpec)
    → (rest : List ℕ) × (request_text (more r ms ts) ≡ request_text r ++ rest)
unfolding request_text
request_text-more r ms ts =
    let text = λ (m : Message). codes (content_or_empty m) in
    let (rest, e) = join_spaced-append (map text r.messages) (map text ms) in
    (
      lower rest,
      ap (λ l. lower (join_spaced l)) (map-append text r.messages ms)
          ∙ ap lower e
          ∙ lower-append (join_spaced (map text r.messages)) rest,
    )

score-more :
    (r : CompletionRequest) (ms : List Message) (ts : List ToolSpec)
    → score r ≤ score (more r ms ts)
unfolding score
score-more r ms ts =
    let (rest, e) = request_text-more r ms ts in
    rw e (
      omega (
        arith,
        length-append {0} (request_text r) rest,
        length-append {0} r.tools ts,
        marker_points-append reasoning_markers (request_text r) rest,
        fence-append (codes "```") (request_text r) rest 500,
      ))

-- The default scorer never rates a request lower when messages or tools are added to it.
pub default_scorer-more :
    (r : CompletionRequest) (ms : List Message) (ts : List ToolSpec)
    → complexity_value (default_scorer r) ≤ complexity_value (default_scorer (more r ms ts))
unfolding default_scorer
default_scorer-more r ms ts = bucket_mono (score r) (score (more r ms ts)) (score-more r ms ts)
