-- ===== src/Prelude/Scan.antt =====
-- Python's `re` as the program's patterns use it, on code points. A character class is a test; a
-- literal under IGNORECASE is compared after `fold`.
use model_dispatcher.Prelude.Text.{is_space}
use model_dispatcher.Prelude.{
  ℕ, ◌+◌, ◌≡◌, refl, Bool, true, false, ◌&&◌, Option, none, some, List, [], ◌∷◌, ◌++◌, leb, eqb,
  if◌then◌else◌, All,
}

-- The case folding of `re` on the letters that the patterns have: besides A to Z, the dotted and
-- the dotless I, the long s and the Kelvin sign.
unfoldable pub fold : ℕ → ℕ
fold c =
    if leb b'A' c && leb c b'Z'
    then c + 32
    else if leb 304 c && leb c 305
    then b'i'
    else if eqb c 383
    then b's'
    else if eqb c 8490
    then b'k'
    else c

-- The longest prefix in a class, and what is behind it: a greedy `[...]*`.
unfoldable pub span : (ℕ → Bool) → List ℕ → List ℕ × List ℕ
span test [] = ([], [])
span test (c ∷ s) =
    let (found, rest) = span test s in if test c then (c ∷ found, rest) else ([], c ∷ s)

-- `\d`, of the ASCII digits
unfoldable pub is_digit : ℕ → Bool
is_digit c = leb b'0' c && leb c b'9'

-- What is behind a literal, if the text begins with it in any case.
unfoldable pub after_literal : List ℕ → List ℕ → Option (List ℕ)
unfolding fold
after_literal [] s = some s
after_literal (p ∷ ps) [] = none
after_literal (p ∷ ps) (c ∷ s) =
    let rest = after_literal ps s in if eqb p (fold c) then rest else none

-- The two parts of a `[...]+` that has matched.
abbrev pub found_some : List ℕ × List ℕ → Option (List ℕ × List ℕ)
found_some ([], rest) = none
found_some (d ∷ ds, rest) = some (d ∷ ds, rest)

-- `\s+`
unfoldable pub after_spaces : List ℕ → Option (List ℕ)
unfolding span is_space
after_spaces s = elim (found_some (span is_space s)) [ none ↦ none | some parts ↦ some parts.1 ]

-- `pattern.search(s)`: the leftmost position at which the pattern matches.
module _ {A : Type 0} where
  unfoldable pub search_for : (List ℕ → Option A) → List ℕ → Option A
  search_for match [] = match []
  search_for match (c ∷ s) = elim (match (c ∷ s)) [
    | some found ↦ some found
    | none ↦ search_for match s
  ]

pub span-append :
    (test : ℕ → Bool) (ds rest : List ℕ)
    → All (λ d. test d ≡ true) ds
    → span test rest ≡ ([], rest)
    → span test (ds ++ rest) ≡ (ds, rest)
unfolding span
span-append test [] rest h stops = stops
span-append test (d ∷ ds) rest h stops = rw (h.0, span-append test ds rest h.1 stops) refl

pub span-stop :
    (test : ℕ → Bool) (c : ℕ) (s : List ℕ) → test c ≡ false → span test (c ∷ s) ≡ ([], c ∷ s)
unfolding span
span-stop test c s h = rw h refl

pub search_for-here :
    {A : Type 0} (match : List ℕ → Option A) (s : List ℕ) (a : A)
    → match s ≡ some a
    → search_for match s ≡ some a
unfolding search_for
search_for-here match [] a h = h
search_for-here match (c ∷ s) a h = rw (search_for, h) refl

-- Positions at which the pattern does not match are passed over.
pub search_for-skips :
    {A : Type 0} (match : List ℕ → Option A) (ahead s : List ℕ)
    → All (λ c. (rest : List ℕ) → match (c ∷ rest) ≡ none) ahead
    → search_for match (ahead ++ s) ≡ search_for match s
unfolding search_for
search_for-skips match [] s h = refl
search_for-skips match (c ∷ ahead) s h =
    rw (search_for, h.0 (ahead ++ s)) (search_for-skips match ahead s h.1)
