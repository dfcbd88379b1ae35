-- ===== src/Providers/Gemini/Contents/Lookups.antt =====
-- The name that is found under the id of a call.
use model_dispatcher.Prelude.{
  String, ◌≡◌, refl, ap, ◌∙◌, ◌≢◌, inl, inr, List, [], ◌∷◌, map, ◌==◌, eq_iff, eq_refl, Bool-cases,
  All,
}
use model_dispatcher.Types.{ToolCall}
use model_dispatcher.Providers.Gemini.Contents.{CallNames, name_of, remember}

-- No two calls have the same id.
abbrev pub DistinctIds : List ToolCall → Type 0
DistinctIds [] = Unit
DistinctIds (c ∷ cs) = All (λ d. d.id ≢ c.id) cs × DistinctIds cs

skipped :
    (key name id : String) (names : CallNames)
    → key ≢ id
    → name_of ((key, name) ∷ names) id ≡ name_of names id
unfolding name_of
skipped key name id names h = elim (Bool-cases (key == id)) [
  | inl e ↦ absurd (h ((eq_iff key id).0 e))
  | inr e ↦ rw e refl
]

name_of-remember :
    (id : String) (names : CallNames) (cs : List ToolCall)
    → All (λ d. d.id ≢ id) cs
    → name_of (remember names cs) id ≡ name_of names id
unfolding name_of remember
name_of-remember id names [] h = refl
name_of-remember id names (c ∷ cs) (h, hs) =
    name_of-remember id ((c.id, c.name) ∷ names) cs hs ∙ skipped c.id c.name id names h

-- With distinct ids the name of each call is found under its id.
pub names_of-remember :
    (names : CallNames) (cs : List ToolCall)
    → DistinctIds cs
    → map (λ c. name_of (remember names cs) c.id) cs ≡ map (λ c. c.name) cs
unfolding remember name_of
names_of-remember names [] h = refl
names_of-remember names (c ∷ cs) (h, hs) =
    let found : name_of (remember ((c.id, c.name) ∷ names) cs) c.id ≡ c.name =
      name_of-remember c.id ((c.id, c.name) ∷ names) cs h ∙ rw (eq_refl c.id) refl in
    ap (λ n. n ∷ map (λ d. name_of (remember ((c.id, c.name) ∷ names) cs) d.id) cs) found
    ∙ ap (λ l. c.name ∷ l) (names_of-remember ((c.id, c.name) ∷ names) cs hs)
