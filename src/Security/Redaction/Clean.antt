-- ===== src/Security/Redaction/Clean.antt =====
-- What is left in a scrubbed text.
use Prim.Native.Char.{Char, code}
use model_dispatcher.Prelude.{
  ℕ, zero, suc, ◌-◌, ◌≤◌, String, ◌≡◌, refl, inl, inr, Bool, true, false, Option, none, some, List,
  [], ◌∷◌, arith, leb, eqb, if◌then◌else◌, is_some, Bool-cases, length, All,
}
use model_dispatcher.Prelude.Text.{codes, is_space, append}
use model_dispatcher.Prelude.Scan.{span, is_digit}
use model_dispatcher.Security.Redaction.{
  redacted, is_alphanumeric, is_blob, is_bearer, run, behind, key_at, spaced_token, bearer_at,
  secret_at, scrub_from, after_prefix,
}

-- The second text is the first one, or it departs from it at a "[".
data Cut : List ℕ → List ℕ → Type 0 where
  both_end : Cut [] []
  kept : {s t : List ℕ} (c : ℕ) → Cut s t → Cut (c ∷ s) (c ∷ t)
  cut : {s t : List ℕ} → Cut s (b'[' ∷ t)

-- A run in a class without "[" is no longer in the second text.
span-Cut :
    (class : ℕ → Bool) (s t : List ℕ)
    → class b'[' ≡ false
    → Cut s t
    → (length (span class t).0 ≤ length (span class s).0) × Cut (span class s).1 (span class t).1
unfolding span
span-Cut class s t out both_end = (omega arith, both_end)
span-Cut class s t out (kept c h) =
    let (le, rest) = span-Cut class _ _ out h in
    elim (Bool-cases (class c)) [
      | inl e ↦ rw e (omega (arith, le), rest)
      | inr e ↦ rw e (omega arith, kept c h)
    ]
span-Cut class s t out cut = rw out (omega arith, cut)

run-Cut :
    (class : ℕ → Bool) (least : ℕ) (s t : List ℕ)
    → class b'[' ≡ false
    → Cut s t
    → is_some (run class least t) ≡ true
    → is_some (run class least s) ≡ true
unfolding run
run-Cut class least s t out h found = ground (arith, (span-Cut class s t out h).0, found)

abbrev BehindCut : Option (List ℕ) → Option (List ℕ) → Type 0
BehindCut o none = Unit
BehindCut none (some t) = ⊥
BehindCut (some s) (some t) = Cut s t

-- A literal without "[" that the second text begins with, the first one begins with too.
behind-Cut :
    (p s t : List ℕ)
    → All (λ c. eqb c b'[' ≡ false) p
    → Cut s t
    → BehindCut (behind p s) (behind p t)
unfolding behind
behind-Cut [] s t out h = h
behind-Cut (c ∷ p) s t (out, outs) both_end = tt
behind-Cut (c ∷ p) s t (out, outs) (kept d h) = elim (Bool-cases (eqb c d)) [
  | inl e ↦ rw e (behind-Cut p _ _ outs h)
  | inr e ↦ rw e tt
]
behind-Cut (c ∷ p) s t (out, outs) cut = rw out tt

-- What the matcher finds in the second text, it finds in the first one.
abbrev Reflects : Option ℕ → Option ℕ → Type 0
Reflects o p = is_some p ≡ true → is_some o ≡ true

behind-Reflects :
    (k : ℕ) (match : List ℕ → Option ℕ) (o p : Option (List ℕ))
    → BehindCut o p
    → ((s t : List ℕ) → Cut s t → Reflects (match s) (match t))
    → Reflects
        (elim o [ none ↦ none | some rest ↦ after_prefix k (match rest) ])
        (elim p [ none ↦ none | some rest ↦ after_prefix k (match rest) ])
behind-Reflects k match o none h same found = absurd cc
behind-Reflects k match none (some t) h same found = absurd h
behind-Reflects k match (some s) (some t) h same found = ground (arith, same s t h, found)

spaces-Reflects :
    (k l : ℕ) (o p : Option ℕ)
    → k ≤ l
    → Reflects o p
    → Reflects
        (if leb 1 l then after_prefix l o else none)
        (if leb 1 k then after_prefix k p else none)
spaces-Reflects k l o p le same found = ground (arith, le, same, found)

alternatives-Reflect :
    (a b c a' b' c' : Option ℕ)
    → Reflects a a'
    → Reflects b b'
    → Reflects c c'
    → Reflects
        (elim a [ some n ↦ some n | none ↦ elim b [ some n ↦ some n | none ↦ c ] ])
        (elim a' [ some n ↦ some n | none ↦ elim b' [ some n ↦ some n | none ↦ c' ] ])
alternatives-Reflect a b c a' b' c' ha hb hc found = ground (arith, ha, hb, hc, found)

spaced_token-Cut : (s t : List ℕ) → Cut s t → Reflects (spaced_token s) (spaced_token t)
unfolding spaced_token is_space is_bearer is_blob is_alphanumeric is_digit
spaced_token-Cut s t h =
    let (le, rest) = span-Cut is_space s t refl h in
    spaces-Reflects (length (span is_space t).0) (length (span is_space s).0)
      (run is_bearer 16 (span is_space s).1) (run is_bearer 16 (span is_space t).1) le
      (run-Cut is_bearer 16 _ _ refl rest)

secret_at-Cut : (s t : List ℕ) → Cut s t → Reflects (secret_at s) (secret_at t)
unfolding secret_at key_at bearer_at is_blob is_alphanumeric is_digit
secret_at-Cut s t h =
    alternatives-Reflect (key_at s) (bearer_at s) (run is_blob 32 s) (key_at t) (bearer_at t)
      (run is_blob 32 t)
      (behind-Reflects 3 (run is_alphanumeric 16) (behind (codes "sk-") s) (behind (codes "sk-") t)
        (behind-Cut (codes "sk-") s t (refl, (refl, (refl, tt))) h)
        (λ s' t' h'. run-Cut is_alphanumeric 16 s' t' refl h'))
      (behind-Reflects 6 spaced_token (behind (codes "Bearer") s) (behind (codes "Bearer") t)
        (behind-Cut (codes "Bearer") s t (refl, (refl, (refl, (refl, (refl, (refl, tt)))))) h)
        spaced_token-Cut)
      (run-Cut is_blob 32 s t refl h)

none_of_Reflects : (o p : Option ℕ) → o ≡ none → Reflects o p → p ≡ none
none_of_Reflects o none e h = refl
none_of_Reflects o (some n) e h = absurd (ground (arith, e, h refl))

-- No secret stands anywhere in a text.
abbrev pub NoSecret : List ℕ → Type 0
NoSecret [] = Unit
NoSecret (c ∷ s) = (secret_at (c ∷ s) ≡ none) × NoSecret s

-- What is written for the rest of a text, by what is found at its begin.
abbrev written : Char → String → Option ℕ → String
written c s none = String.◌∷◌ c (scrub_from 0 s)
written c s (some n) = append redacted (scrub_from (n - 1) s)

scrub_from-Cut : (s : String) → Cut (codes s) (codes (scrub_from 0 s))
unfolding scrub_from append
scrub_from-Cut String.[] = both_end
scrub_from-Cut (String.◌∷◌ c s) = go (secret_at (code c ∷ codes s)) (scrub_from-Cut s)
  where
    go :
        (o : Option ℕ)
        → Cut (codes s) (codes (scrub_from 0 s))
        → Cut (codes (String.◌∷◌ c s)) (codes (written c s o))
    go none h = kept (code c) h
    go (some n) h = cut

pub redacted-NoSecret : (s : String) → NoSecret (codes s) → NoSecret (codes (append redacted s))
unfolding append secret_at key_at bearer_at spaced_token run behind span is_space is_blob is_bearer
    is_alphanumeric is_digit
redacted-NoSecret s h =
    (refl, (refl, (refl, (refl, (refl, (refl, (refl, (refl, (refl, (refl, h))))))))))

pub scrub_from-NoSecret : (k : ℕ) (s : String) → NoSecret (codes (scrub_from k s))
unfolding scrub_from
scrub_from-NoSecret k String.[] = tt
scrub_from-NoSecret (suc k) (String.◌∷◌ c s) = scrub_from-NoSecret k s
scrub_from-NoSecret zero (String.◌∷◌ c s) =
    go (secret_at (code c ∷ codes s)) refl (λ k. scrub_from-NoSecret k s)
  where
    go :
        (o : Option ℕ)
        → secret_at (code c ∷ codes s) ≡ o
        → ((k : ℕ) → NoSecret (codes (scrub_from k s)))
        → NoSecret (codes (written c s o))
    go none e rest = (
      none_of_Reflects _ _ e (
          secret_at-Cut (code c ∷ codes s) (code c ∷ codes (scrub_from 0 s))
            (kept (code c) (scrub_from-Cut s))),
      rest 0,
    )
    go (some n) e rest = redacted-NoSecret (scrub_from (n - 1) s) (rest (n - 1))
