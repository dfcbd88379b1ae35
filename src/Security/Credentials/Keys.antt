-- ===== src/Security/Credentials/Keys.antt =====
-- Pooled keys: what joining them by commas and splitting them again comes to, and the mask.
use model_dispatcher.Prelude.{
  ℕ, String, ◌≡◌, refl, ap, ◌∙◌, true, false, some, List, [], ◌∷◌, arith, eqb, All, All-map,
}
use Prim.Native.Char.{Char, code}
use model_dispatcher.Prelude.Text.{append, join, split, prepend, strip, is_nonempty}
use model_dispatcher.Security.Credentials.{strip_parts, split_keys}

-- No character of the text is the separator.
abbrev pub Lacks : ℕ → String → Type 0
Lacks sep String.[] = Unit
Lacks sep (String.◌∷◌ c s) = (eqb (code c) sep ≡ false) × Lacks sep s

split-one : (sep : ℕ) (k : String) → Lacks sep k → split sep k ≡ k ∷ []
unfolding split
split-one sep String.[] h = refl
split-one sep (String.◌∷◌ c s) h = rw h.0 (ap (prepend c) (split-one sep s h.1))

split-append :
    (sep : Char) (k rest : String)
    → Lacks (code sep) k
    → split (code sep) (append k (String.◌∷◌ sep rest)) ≡ k ∷ split (code sep) rest
unfolding split append
split-append sep String.[] rest h = ground arith
split-append sep (String.◌∷◌ c s) rest h = rw h.0 (ap (prepend c) (split-append sep s rest h.1))

-- Splitting what was joined gives the parts back, if none of them has the separator.
pub split-join :
    (sep : Char) (k : String) (ks : List String)
    → All (Lacks (code sep)) (k ∷ ks)
    → split (code sep) (join sep (k ∷ ks)) ≡ k ∷ ks
unfolding join
split-join sep k [] h = split-one (code sep) k h.0
split-join sep k (l ∷ ks) h =
    split-append sep k (join sep (l ∷ ks)) h.0 ∙ ap (λ r. k ∷ r) (split-join sep l ks h.1)

-- A key as a visitor pastes it: not empty, no white space at its ends, no comma.
abbrev pub IsKey : String → Type 0
IsKey k = (is_nonempty k ≡ true) × (strip k ≡ k) × Lacks b',' k

strip_parts-keys : (ks : List String) → All IsKey ks → strip_parts ks ≡ ks
unfolding strip_parts
strip_parts-keys [] h = refl
strip_parts-keys (k ∷ ks) h = rw (h.0.1, h.0.0) (ap (λ r. k ∷ r) (strip_parts-keys ks h.1))

nonempty-join :
    (k : String) (ks : List String) → is_nonempty k ≡ true → is_nonempty (join "," (k ∷ ks)) ≡ true
unfolding join append
nonempty-join String.[] ks h = cc
nonempty-join (String.◌∷◌ c s) [] h = refl
nonempty-join (String.◌∷◌ c s) (l ∷ ks) h = refl

All-Lacks : (ks : List String) → All IsKey ks → All (Lacks b',') ks
All-Lacks ks = All-map IsKey (Lacks b',') (λ k h. h.2) ks

-- Keys that a visitor supplies come back from the pooled value as they were, all and in order, if
-- none is empty, has white space at its ends, or has a comma.
pub split_keys-join :
    (k : String) (ks : List String)
    → All IsKey (k ∷ ks)
    → split_keys (some (join "," (k ∷ ks))) ≡ k ∷ ks
unfolding split_keys
split_keys-join k ks h =
    rw (nonempty-join k ks h.0.0)
      (ap strip_parts (split-join "," k ks (All-Lacks (k ∷ ks) h)) ∙ strip_parts-keys (k ∷ ks) h)
