-- ===== src/Providers/Registry/Order.antt =====
-- Stable sorting: order, elements and ties.
use model_dispatcher.Prelude.{
  ℕ, ◌≤◌, ◌≡◌, refl, Bool, true, inl, inr, List, [], ◌∷◌, leb, select, All, All-map, All-select,
  All-take, take, zero, suc, Bool-cases, arith,
}
use model_dispatcher.Providers.Registry.{insert_by, sorted}

module _ {A : Type 0} (key : A → ℕ) where
  -- Every element's key is at most the keys behind it.
  abbrev pub Ascending : List A → Type 0
  Ascending [] = Unit
  Ascending (x ∷ xs) = All (λ y. key x ≤ key y) xs × Ascending xs

  pub All-insert_by :
      (P : A → Type 0) (x : A) (ys : List A) → P x → All P ys → All P (insert_by key x ys)
  unfolding insert_by
  All-insert_by P x [] px h = (px, tt)
  All-insert_by P x (y ∷ ys) px h = elim (Bool-cases (leb (key x) (key y))) [
    | inl e ↦ rw e (px, h)
    | inr e ↦ rw e (h.0, All-insert_by P x ys px h.1)
  ]

  pub All-sorted : (P : A → Type 0) (xs : List A) → All P xs → All P (sorted key xs)
  unfolding sorted
  All-sorted P [] h = tt
  All-sorted P (x ∷ xs) h = All-insert_by P x (sorted key xs) h.0 (All-sorted P xs h.1)

  All-of_insert_by :
      (P : A → Type 0) (x : A) (ys : List A) → All P (insert_by key x ys) → P x × All P ys
  unfolding insert_by
  All-of_insert_by P x [] h = h
  All-of_insert_by P x (y ∷ ys) h = elim (Bool-cases (leb (key x) (key y))) [
    | inl e ↦ rw e at h
    | inr e ↦
        let k : All P (y ∷ insert_by key x ys) = rw e at h in
        let (px, rest) = All-of_insert_by P x ys k.1 in (px, (k.0, rest))
  ]

  pub All-of_sorted : (P : A → Type 0) (xs : List A) → All P (sorted key xs) → All P xs
  unfolding sorted
  All-of_sorted P [] h = tt
  All-of_sorted P (x ∷ xs) h =
      let (px, rest) = All-of_insert_by P x (sorted key xs) h in (px, All-of_sorted P xs rest)

  Ascending-insert_by : (x : A) (ys : List A) → Ascending ys → Ascending (insert_by key x ys)
  unfolding insert_by
  Ascending-insert_by x [] h = (tt, tt)
  Ascending-insert_by x (y ∷ ys) h = elim (Bool-cases (leb (key x) (key y))) [
    | inl e ↦ rw e (
      (
        ground arith,
        All-map (λ z. key y ≤ key z) (λ z. key x ≤ key z) (λ z p. ground arith) ys h.0,
      ),
      h,
    )
    | inr e ↦
        rw e
          (All-insert_by (λ z. key y ≤ key z) x ys (ground arith) h.0, Ascending-insert_by x ys h.1)
  ]

  pub Ascending-sorted : (xs : List A) → Ascending (sorted key xs)
  unfolding sorted
  Ascending-sorted [] = tt
  Ascending-sorted (x ∷ xs) = Ascending-insert_by x (sorted key xs) (Ascending-sorted xs)

  -- A test that only elements of one key pass.
  abbrev pub SameKey : (A → Bool) → Type 0
  SameKey test = (x y : A) → test x ≡ true → test y ≡ true → key x ≡ key y

  module _ (test : A → Bool) (same : SameKey test) where
    select-insert_by :
        (x : A) (ys : List A) → select test (insert_by key x ys) ≡ select test (x ∷ ys)
    unfolding insert_by
    select-insert_by x [] = refl
    select-insert_by x (y ∷ ys) = ground (arith, same x y, select-insert_by x ys)

    -- The elements of one key keep their order.
    pub select-sorted : (xs : List A) → select test (sorted key xs) ≡ select test xs
    unfolding sorted
    select-sorted [] = refl
    select-sorted (x ∷ xs) = ground (arith, select-insert_by x (sorted key xs), select-sorted xs)

module _ {A : Type 0} (key : A → ℕ) where
  pub Ascending-select :
      (test : A → Bool) (xs : List A) → Ascending key xs → Ascending key (select test xs)
  Ascending-select test [] h = tt
  Ascending-select test (x ∷ xs) h = elim (Bool-cases (test x)) [
    | inl e ↦ rw e (All-select (λ y. key x ≤ key y) test xs h.0, Ascending-select test xs h.1)
    | inr e ↦ rw e (Ascending-select test xs h.1)
  ]

  pub Ascending-take : (n : ℕ) (xs : List A) → Ascending key xs → Ascending key (take n xs)
  Ascending-take zero xs h = tt
  Ascending-take (suc n) [] h = tt
  Ascending-take (suc n) (x ∷ xs) h =
      (All-take (λ y. key x ≤ key y) n xs h.0, Ascending-take n xs h.1)
