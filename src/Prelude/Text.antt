-- ===== src/Prelude/Text.antt =====
-- Python's `str` operations that the program uses: on code points where it only tests a text, on
-- `String` where it keeps the parts. Upper case is the ASCII letters'.
use Prim.Native.Char.{Char, code}
use model_dispatcher.Prelude.{
  ℕ, zero, suc, ◌+◌, ◌-◌, String, Bool, true, false, ◌&&◌, ◌||◌, List, [], ◌∷◌, ◌++◌, map, eqb, leb,
  if◌then◌else◌,
}

abbrev pub codes : String → List ℕ
codes String.[] = []
codes (String.◌∷◌ c s) = code c ∷ codes s

-- `len(s)`
abbrev pub characters : String → ℕ
characters String.[] = 0
characters (String.◌∷◌ c s) = suc (characters s)

-- `if s`
abbrev pub is_nonempty : String → Bool
is_nonempty String.[] = false
is_nonempty (String.◌∷◌ c s) = true

pub lower_code : ℕ → ℕ
lower_code c = if leb b'A' c && leb c b'Z' then c + 32 else c

-- `s.lower()`
unfoldable pub lower : List ℕ → List ℕ
unfolding lower_code
lower = map lower_code

unfoldable pub begins : List ℕ → List ℕ → Bool
begins [] s = true
begins (c ∷ p) [] = false
begins (c ∷ p) (d ∷ s) = eqb c d && begins p s

-- `needle in s`
unfoldable pub occurs : List ℕ → List ℕ → Bool
unfolding begins
occurs needle [] = begins needle []
occurs needle (c ∷ s) = begins needle (c ∷ s) || occurs needle s

-- `" ".join(parts)`
unfoldable pub join_spaced : List (List ℕ) → List ℕ
join_spaced [] = []
join_spaced (p ∷ []) = p
join_spaced (p ∷ q ∷ ps) = p ++ b' ' ∷ join_spaced (q ∷ ps)

-- `c.isspace()`
unfoldable pub is_space : ℕ → Bool
is_space c =
    leb 9 c && leb c 13
    || leb 28 c && leb c 32
    || eqb c 133
    || eqb c 160
    || eqb c 5760
    || leb 8192 c && leb c 8202
    || eqb c 8232
    || eqb c 8233
    || eqb c 8239
    || eqb c 8287
    || eqb c 12288

unfoldable pub strip_left : String → String
unfolding is_space
strip_left String.[] = ""
strip_left (String.◌∷◌ c s) =
    let rest = strip_left s in if is_space (code c) then rest else String.◌∷◌ c s

-- A space is kept if something stands behind it.
unfoldable pub strip_right : String → String
unfolding is_space
strip_right String.[] = ""
strip_right (String.◌∷◌ c s) = elim (strip_right s) [
  | String.[] ↦ if is_space (code c) then "" else String.◌∷◌ c ""
  | String.◌∷◌ d r ↦ String.◌∷◌ c (String.◌∷◌ d r)
]

-- `s.strip()`
unfoldable pub strip : String → String
unfolding strip_left strip_right
strip s = strip_right (strip_left s)

abbrev pub prepend : Char → List String → List String
prepend c [] = String.◌∷◌ c "" ∷ []
prepend c (part ∷ parts) = String.◌∷◌ c part ∷ parts

-- `s.split(sep)` for a separator of one character
unfoldable pub split : ℕ → String → List String
split sep String.[] = "" ∷ []
split sep (String.◌∷◌ c s) = if eqb (code c) sep then "" ∷ split sep s else prepend c (split sep s)

-- `s.split(sep, 1)[0]`
unfoldable pub before : ℕ → String → String
before sep String.[] = ""
before sep (String.◌∷◌ c s) = if eqb (code c) sep then "" else String.◌∷◌ c (before sep s)

abbrev pub drop_characters : ℕ → String → String
drop_characters zero s = s
drop_characters (suc n) String.[] = ""
drop_characters (suc n) (String.◌∷◌ c s) = drop_characters n s

-- `s[-n:]`, for a text of at least n characters
unfoldable pub last_characters : ℕ → String → String
last_characters n s = drop_characters (characters s - n) s

-- `s + t`, by the characters of `s`
unfoldable pub append : String → String → String
append String.[] t = t
append (String.◌∷◌ c s) t = String.◌∷◌ c (append s t)

-- `sep.join(parts)` for a separator of one character
unfoldable pub join : Char → List String → String
unfolding append
join sep [] = ""
join sep (p ∷ []) = p
join sep (p ∷ q ∷ ps) = append p (String.◌∷◌ sep (join sep (q ∷ ps)))
