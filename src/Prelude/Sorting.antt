-- ===== src/Prelude/Sorting.antt =====
-- A stable sort by insertion, and relations between all members of a list.
use Prim.Native.Nat.{ℕ, zero, suc, min}
use mathlib.Core.Path.{◌≡◌, refl}
use mathlib.Core.Logic.{inl, inr}
use mathlib.Core.Bool.{Bool, true, false}
use mathlib.Core.List.{List, [], ◌∷◌}
use native.Mathlib.Omega.{arith}
use scraper_v_hezzian.Prelude.Tests.{if◌then◌else◌, Bool-cases}
use scraper_v_hezzian.Prelude.Lists.{length, filter, take, All, All-filter, All-take}

-- Each member is in the relation to every later one.
abbrev pub Pairwise : {A : Type 0} → (A → A → Type 0) → List A → Type 0
Pairwise R [] = Unit
Pairwise R (x ∷ xs) = All (R x) xs × Pairwise R xs

module _ {A : Type 0} where
  pub Pairwise-filter :
      (R : A → A → Type 0) (p : A → Bool) (xs : List A) → Pairwise R xs → Pairwise R (filter p xs)
  Pairwise-filter R p [] h = tt
  Pairwise-filter R p (x ∷ xs) h = elim (Bool-cases (p x)) [
    | inl e ↦ rw e (All-filter (R x) p xs h.0, Pairwise-filter R p xs h.1)
    | inr e ↦ rw e (Pairwise-filter R p xs h.1)
  ]

  pub Pairwise-take :
      (R : A → A → Type 0) (n : ℕ) (xs : List A) → Pairwise R xs → Pairwise R (take n xs)
  Pairwise-take R zero xs h = tt
  Pairwise-take R (suc n) [] h = tt
  Pairwise-take R (suc n) (x ∷ xs) h = (All-take (R x) n xs h.0, Pairwise-take R n xs h.1)

  no_later :
      (R : A → A → Type 0) (p : A → Bool)
      → ((x y : A) → R x y → p y ≡ true → p x ≡ true)
      → (x : A) (ys : List A) → p x ≡ false
      → All (R x) ys
      → length (filter p ys) ≡ 0
  no_later R p up x [] h k = refl
  no_later R p up x (y ∷ ys) h k = elim (Bool-cases (p y)) [
    | inl e ↦ absurd (ground (arith, up x y k.0 e, h))
    | inr e ↦ ground (arith, e, no_later R p up x ys h k.1)
  ]

  -- The first members of a sorted list have as many above a mark as they can.
  pub length-filter-take :
      (R : A → A → Type 0) (p : A → Bool)
      → ((x y : A) → R x y → p y ≡ true → p x ≡ true)
      → (n : ℕ) (xs : List A) → Pairwise R xs
      → length (filter p (take n xs)) ≡ min n (length (filter p xs))
  length-filter-take R p up zero xs h = omega arith
  length-filter-take R p up (suc n) [] h = omega arith
  length-filter-take R p up (suc n) (x ∷ xs) h = elim (Bool-cases (p x)) [
    | inl e ↦ ground (arith, e, length-filter-take R p up n xs h.1)
    | inr e ↦ ground (
      arith,
      e,
      no_later R p up x xs e h.0,
      no_later R p up x (take n xs) e (All-take (R x) n xs h.0),
    )
  ]

  pub length-filter-filter :
      (p q : A → Bool)
      → ((x : A) → p x ≡ true → q x ≡ true)
      → (xs : List A) → length (filter p (filter q xs)) ≡ length (filter p xs)
  length-filter-filter p q h [] = refl
  length-filter-filter p q h (x ∷ xs) = elim (Bool-cases (q x)) [
    | inl e ↦ ground (arith, e, length-filter-filter p q h xs)
    | inr e ↦ elim (Bool-cases (p x)) [
      | inl k ↦ absurd (ground (arith, h x k, e))
      | inr k ↦ ground (arith, e, k, length-filter-filter p q h xs)
    ]
  ]

module _ {A : Type 0} (before : A → A → Bool) where
  unfoldable pub insert_by : A → List A → List A
  insert_by x [] = x ∷ []
  insert_by x (y ∷ ys) = let rest = insert_by x ys in if before x y then x ∷ y ∷ ys else y ∷ rest

  -- Members that are before each other stay in their order.
  unfoldable pub sort_by : List A → List A
  unfolding insert_by
  sort_by [] = []
  sort_by (x ∷ xs) = insert_by x (sort_by xs)

  length-filter-insert_by :
      (p : A → Bool) (x : A) (ys : List A)
      → length (filter p (insert_by x ys)) ≡ length (filter p (x ∷ ys))
  unfolding insert_by
  length-filter-insert_by p x [] = refl
  length-filter-insert_by p x (y ∷ ys) = ground (arith, length-filter-insert_by p x ys)

  -- A sort keeps the number of members under any test.
  pub length-filter-sort_by :
      (p : A → Bool) (xs : List A) → length (filter p (sort_by xs)) ≡ length (filter p xs)
  unfolding sort_by
  length-filter-sort_by p [] = refl
  length-filter-sort_by p (x ∷ xs) =
      ground (arith, length-filter-insert_by p x (sort_by xs), length-filter-sort_by p xs)

  length-insert_by : (x : A) (ys : List A) → length (insert_by x ys) ≡ suc (length ys)
  unfolding insert_by
  length-insert_by x [] = refl
  length-insert_by x (y ∷ ys) = ground (arith, length-insert_by x ys)

  pub length-sort_by : (xs : List A) → length (sort_by xs) ≡ length xs
  unfolding sort_by
  length-sort_by [] = refl
  length-sort_by (x ∷ xs) = omega (arith, length-insert_by x (sort_by xs), length-sort_by xs)

  All-insert_by : (P : A → Type 0) (x : A) (ys : List A) → P x → All P ys → All P (insert_by x ys)
  unfolding insert_by
  All-insert_by P x [] h k = (h, k)
  All-insert_by P x (y ∷ ys) h k = elim (Bool-cases (before x y)) [
    | inl e ↦ rw e (h, k)
    | inr e ↦ rw e (k.0, All-insert_by P x ys h k.1)
  ]

  pub All-sort_by : (P : A → Type 0) (xs : List A) → All P xs → All P (sort_by xs)
  unfolding sort_by
  All-sort_by P [] h = tt
  All-sort_by P (x ∷ xs) h = All-insert_by P x (sort_by xs) h.0 (All-sort_by P xs h.1)

  Pairwise-insert_by :
      (R : A → A → Type 0)
      → ((x y : A) → R x y → R y x)
      → (x : A) (ys : List A) → All (R x) ys
      → Pairwise R ys
      → Pairwise R (insert_by x ys)
  unfolding insert_by
  Pairwise-insert_by R swap x [] h k = (tt, tt)
  Pairwise-insert_by R swap x (y ∷ ys) h k = elim (Bool-cases (before x y)) [
    | inl e ↦ rw e (h, k)
    | inr e ↦
        rw e (All-insert_by (R y) x ys (swap x y h.0) k.0, Pairwise-insert_by R swap x ys h.1 k.1)
  ]

  pub Pairwise-sort_by :
      (R : A → A → Type 0)
      → ((x y : A) → R x y → R y x)
      → (xs : List A) → Pairwise R xs
      → Pairwise R (sort_by xs)
  unfolding sort_by
  Pairwise-sort_by R swap [] h = tt
  Pairwise-sort_by R swap (x ∷ xs) h =
      Pairwise-insert_by R swap x (sort_by xs) (All-sort_by (R x) xs h.0)
        (Pairwise-sort_by R swap xs h.1)

  abbrev pub IsBefore : A → A → Type 0
  IsBefore x y = before x y ≡ true

  module _ (total : (x y : A) → before x y ≡ false → before y x ≡ true)
      (trans : (x y z : A) → before x y ≡ true → before y z ≡ true → before x z ≡ true) where
    All-IsBefore :
        (x y : A) (ys : List A) → before x y ≡ true → All (IsBefore y) ys → All (IsBefore x) ys
    All-IsBefore x y [] h k = tt
    All-IsBefore x y (z ∷ ys) h k = (trans x y z h k.0, All-IsBefore x y ys h k.1)

    insert_by-Pairwise :
        (x : A) (ys : List A) → Pairwise IsBefore ys → Pairwise IsBefore (insert_by x ys)
    unfolding insert_by
    insert_by-Pairwise x [] h = (tt, tt)
    insert_by-Pairwise x (y ∷ ys) h = elim (Bool-cases (before x y)) [
      | inl e ↦ rw e ((e, All-IsBefore x y ys e h.0), h)
      | inr e ↦
          rw e (All-insert_by (IsBefore y) x ys (total x y e) h.0, insert_by-Pairwise x ys h.1)
    ]

    -- A sort by a total order gives a sorted list.
    pub sort_by-Pairwise : (xs : List A) → Pairwise IsBefore (sort_by xs)
    unfolding sort_by
    sort_by-Pairwise [] = tt
    sort_by-Pairwise (x ∷ xs) = insert_by-Pairwise x (sort_by xs) (sort_by-Pairwise xs)
