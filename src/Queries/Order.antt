-- ===== src/Queries/Order.antt =====
-- Rows in the order of a query, and those that come after one of them.
use thirdweb_engine.Base.{
  ◌≡◌, refl, sym, subst, Bool, true, false, ◌&&◌, Option, none, some, List, [], ◌∷◌, ◌++◌, filter,
  All, Bool-cases, Option-cases, or_else, inl, inr,
}

module _ {A : Type 0} where
  -- `xs[xs.length - 1]`
  abbrev pub last : List A → Option A
  last [] = none
  last (x ∷ []) = some x
  last (x ∷ y ∷ xs) = last (y ∷ xs)

  pub last_cons : (x : A) (xs : List A) → (l : A) × (last (x ∷ xs) ≡ some l)
  last_cons x [] = (x, refl)
  last_cons x (y ∷ xs) = last_cons y xs

  pub last-append : (xs ys : List A) → last (xs ++ ys) ≡ or_else (last ys) (last xs)
  last-append [] ys = elim (Option-cases (last ys)) [ inl n ↦ rw n refl | inr (l, e) ↦ rw e refl ]
  last-append (x ∷ []) [] = refl
  last-append (x ∷ []) (y ∷ ys) = let (l, e) = last_cons y ys in rw e refl
  last-append (x ∷ z ∷ xs) ys = last-append (z ∷ xs) ys

  pub filter-filter :
      (p q : A → Bool) (xs : List A) → filter (λ x. p x && q x) xs ≡ filter q (filter p xs)
  filter-filter p q [] = refl
  filter-filter p q (x ∷ xs) = elim (Bool-cases (p x)) [
    | inl y ↦ elim (Bool-cases (q x)) [
      | inl z ↦ simp (y, z, filter-filter p q xs)
      | inr z ↦ simp (y, z, filter-filter p q xs)
    ]
    | inr n ↦ simp (n, filter-filter p q xs)
  ]

  pub filter_same :
      (p q : A → Bool) (xs : List A) → ((x : A) → p x ≡ q x) → filter p xs ≡ filter q xs
  filter_same p q [] h = refl
  filter_same p q (x ∷ xs) h = rw (h x, filter_same p q xs h) refl

  filter-All : (p : A → Bool) (xs : List A) → All (λ x. p x ≡ true) xs → filter p xs ≡ xs
  filter-All p [] h = refl
  filter-All p (x ∷ xs) (h, hs) = rw (h, filter-All p xs hs) refl

  All-filter : (p : A → Bool) (P : A → Type 0) (xs : List A) → All P xs → All P (filter p xs)
  All-filter p P [] h = tt
  All-filter p P (x ∷ xs) (h, hs) = elim (Bool-cases (p x)) [
    | inl y ↦ simp y (h, All-filter p P xs hs)
    | inr n ↦ simp n (All-filter p P xs hs)
  ]

  All-last : (P : A → Type 0) (xs ys : List A) (l : A) → All P (xs ++ ys) → last xs ≡ some l → P l
  All-last P [] ys l h e = cc
  All-last P (x ∷ []) ys l (h, hs) e = let same : x ≡ l = cc in rw (sym same) h
  All-last P (x ∷ z ∷ xs) ys l (h, hs) e = All-last P (z ∷ xs) ys l hs e

  module _ (after : A → A → Bool) where
    -- Every row comes after those before it.
    abbrev pub Sorted : List A → Type 0
    Sorted [] = Unit
    Sorted (x ∷ xs) = All (λ y. after x y ≡ true) xs × Sorted xs

    pub Sorted-filter : (p : A → Bool) (xs : List A) → Sorted xs → Sorted (filter p xs)
    Sorted-filter p [] h = tt
    Sorted-filter p (x ∷ xs) (h, hs) = elim (Bool-cases (p x)) [
      | inl y ↦ simp y (All-filter p _ xs h, Sorted-filter p xs hs)
      | inr n ↦ simp n (Sorted-filter p xs hs)
    ]

    module _ (asym : (x y : A) → after x y ≡ true → after y x ≡ false) where
      irreflexive : (x : A) → after x x ≡ false
      irreflexive x = elim (Bool-cases (after x x)) [ inl y ↦ asym x x y | inr n ↦ n ]

      -- The rows after the last one of a front part are those behind that part.
      pub filter-after :
          (front back : List A) (l : A)
          → Sorted (front ++ back)
          → last front ≡ some l
          → filter (after l) (front ++ back) ≡ back
      filter-after [] back l h e = cc
      filter-after (x ∷ []) back l (h, hs) e =
          let same : x ≡ l = cc in
          subst (λ m. filter (after m) (x ∷ back) ≡ back) same
            (rw (irreflexive x) (filter-All (after x) back h))
      filter-after (x ∷ y ∷ front) back l (h, hs) e =
          rw (asym x l (All-last _ (y ∷ front) back l h e)) (filter-after (y ∷ front) back l hs e)
