-- ===== src/Quota/Tokenizer/Bounds.antt =====
-- What the estimate is worth, in characters.
use native.Mathlib.Nat.{div-mul-le_self, lt-div-mul-add}
use model_dispatcher.Prelude.{
  ℕ, ◌+◌, ◌-◌, ◌*◌, ◌≤◌, ◌<◌, ◌≡◌, refl, ap, Option, none, some, List, [], ◌∷◌, ◌++◌, arith, length,
}
use model_dispatcher.Prelude.Text.{characters}
use model_dispatcher.Prelude.Sums.{sum, sum-append}
use model_dispatcher.Types.Json.{fields_length}
use model_dispatcher.Types.{
  ToolSpec, ToolCall, ToolResult, Message, content_or_empty, CompletionRequest,
}
use model_dispatcher.Quota.Tokenizer.{
  message_overhead, call_chars, result_chars, message_chars, TokenCounter, messages_chars,
  tools_chars, ceil_div, estimate,
}

ceil_div-bounds : (a b : ℕ) → 0 < b → (a ≤ ceil_div a b * b) × (ceil_div a b * b < a + b)
ceil_div-bounds a b h = (
  omega (arith, h, lt-div-mul-add {a = a + b - 1} {b = b} h),
  omega (arith, h, div-mul-le_self (a + b - 1) b),
)

-- The sizes of a request's texts, one by one: the content of each message, the name and the
-- arguments of each call, the content of each result, and what each tool tells of itself.
call_sizes : List ToolCall → List ℕ
call_sizes [] = []
call_sizes (c ∷ cs) = characters c.name ∷ fields_length c.arguments ∷ call_sizes cs

message_sizes : List Message → List ℕ
unfolding call_sizes
message_sizes [] = []
message_sizes (m ∷ ms) =
    characters (content_or_empty m)
    ∷ (call_sizes m.tool_calls
        ++ (elim m.tool_result [ none ↦ [] | some r ↦ characters r.content ∷ [] ]
            ++ message_sizes ms))

tool_sizes : List ToolSpec → List ℕ
tool_sizes [] = []
tool_sizes (t ∷ ts) =
    characters t.name ∷ characters t.description ∷ fields_length t.parameters ∷ tool_sizes ts

pub request_sizes : CompletionRequest → List ℕ
unfolding message_sizes tool_sizes
request_sizes r = message_sizes r.messages ++ tool_sizes r.tools

call_chars-sum : (cs : List ToolCall) → sum (call_sizes cs) ≡ call_chars cs
unfolding call_sizes call_chars sum
call_chars-sum [] = refl
call_chars-sum (c ∷ cs) = omega (arith, call_chars-sum cs)

result_chars-sum :
    (o : Option ToolResult) (rest : List ℕ)
    → sum (elim o as (λ x. List ℕ) [ none ↦ [] | some r ↦ characters r.content ∷ [] ] ++ rest)
      ≡ result_chars o + sum rest
unfolding sum
result_chars-sum none rest = omega arith
result_chars-sum (some r) rest = refl

messages_chars-sum : (ms : List Message) → sum (message_sizes ms) ≡ messages_chars ms
unfolding message_sizes messages_chars message_chars sum
messages_chars-sum [] = refl
messages_chars-sum (m ∷ ms) = omega (
  arith,
  sum-append (call_sizes m.tool_calls) (
      elim m.tool_result as (λ x. List ℕ) [ none ↦ [] | some r ↦ characters r.content ∷ [] ]
      ++ message_sizes ms),
  result_chars-sum m.tool_result (message_sizes ms),
  call_chars-sum m.tool_calls,
  messages_chars-sum ms,
)

tools_chars-sum : (ts : List ToolSpec) → sum (tool_sizes ts) ≡ tools_chars ts
unfolding tool_sizes tools_chars sum
tools_chars-sum [] = refl
tools_chars-sum (t ∷ ts) = omega (arith, tools_chars-sum ts)

-- The characters of a request, times the denominator of `chars_per_token`.
abbrev pub weight : TokenCounter → CompletionRequest → ℕ
weight counter r = sum (request_sizes r) * counter.chars_per_token.den

chars-weight :
    (counter : TokenCounter) (r : CompletionRequest)
    → (messages_chars r.messages + tools_chars r.tools) * counter.chars_per_token.den
      ≡ weight counter r
unfolding request_sizes
chars-weight counter r =
    rw
      (
        sum-append (message_sizes r.messages) (tool_sizes r.tools),
        messages_chars-sum r.messages,
        tools_chars-sum r.tools,
      )
      refl

-- For a positive ratio n/d of characters per token, the estimate is four tokens a message and k
-- tokens for the text, with characters ≤ k·n/d < characters + n/d: the text is never undercounted,
-- and overcounted by less than a token. The characters are those of all contents, calls with their
-- arguments, results and tools.
pub estimate-bounds :
    (counter : TokenCounter) (r : CompletionRequest)
    → 0 < counter.chars_per_token.num
    → (k : ℕ) × ((estimate counter r ≡ k + 4 * length r.messages)
        × ((weight counter r ≤ k * counter.chars_per_token.num)
            × (k * counter.chars_per_token.num < weight counter r + counter.chars_per_token.num)))
unfolding estimate
estimate-bounds counter r h =
    let n = counter.chars_per_token.num in
    let (low, high) = ceil_div-bounds (weight counter r) n h in
    (
      ceil_div (weight counter r) n,
      (
        ap (λ w. ceil_div w n + message_overhead * length r.messages) (chars-weight counter r),
        (low, high),
      ),
    )
