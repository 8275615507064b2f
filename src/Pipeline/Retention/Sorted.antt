-- ===== src/Pipeline/Retention/Sorted.antt =====
-- Sorting keeps the rows: their number under any test, and that no two have the same id.
use scraper_v_hezzian.Prelude.{
  ℕ, ◌-◌, ◌≡◌, ◌≢◌, String, Bool, not, List, [], ◌∷◌, map, length, filter, take, contains, All,
  refl, leb, Bool-cases, suc, sym, inl, inr, arith, contains-cons, zero, ap, eq_iff,
}
use scraper_v_hezzian.Core.Db.{ArticleRow}
use scraper_v_hezzian.Pipeline.Retention.{insort, by_age}

-- The primary key: no two rows have the same id.
abbrev pub HaveDistinctIds : List ArticleRow → Type 0
HaveDistinctIds [] = Unit
HaveDistinctIds (x ∷ xs) = All (λ y. x.id ≢ y.id) xs × HaveDistinctIds xs

length-filter-insort :
    (p : ArticleRow → Bool) (x : ArticleRow) (ys : List ArticleRow)
    → length (filter p (insort x ys)) ≡ length (filter p (x ∷ ys))
unfolding insort
length-filter-insort p x [] = refl
length-filter-insort p x (y ∷ ys) = ground (arith, length-filter-insort p x ys)

pub length-filter-by_age :
    (p : ArticleRow → Bool) (xs : List ArticleRow)
    → length (filter p (by_age xs)) ≡ length (filter p xs)
unfolding by_age
length-filter-by_age p [] = refl
length-filter-by_age p (x ∷ xs) =
    ground (arith, length-filter-insort p x (by_age xs), length-filter-by_age p xs)

length-insort : (x : ArticleRow) (ys : List ArticleRow) → length (insort x ys) ≡ suc (length ys)
unfolding insort
length-insort x [] = refl
length-insort x (y ∷ ys) = ground (arith, length-insort x ys)

pub length-by_age : (xs : List ArticleRow) → length (by_age xs) ≡ length xs
unfolding by_age
length-by_age [] = refl
length-by_age (x ∷ xs) = omega (arith, length-insort x (by_age xs), length-by_age xs)

All-insort :
    (P : ArticleRow → Type 0) (x : ArticleRow) (ys : List ArticleRow)
    → P x
    → All P ys
    → All P (insort x ys)
unfolding insort
All-insort P x [] h k = (h, k)
All-insort P x (y ∷ ys) h k = elim (Bool-cases (leb x.fetched_at y.fetched_at)) [
  | inl e ↦ rw e (h, k)
  | inr e ↦ rw e (k.0, All-insort P x ys h k.1)
]

insort-HaveDistinctIds :
    (x : ArticleRow) (ys : List ArticleRow)
    → All (λ y. x.id ≢ y.id) ys
    → HaveDistinctIds ys
    → HaveDistinctIds (insort x ys)
unfolding insort
insort-HaveDistinctIds x [] h d = (tt, tt)
insort-HaveDistinctIds x (y ∷ ys) h d = elim (Bool-cases (leb x.fetched_at y.fetched_at)) [
  | inl e ↦ rw e (h, d)
  | inr e ↦ rw e (
    All-insort (λ z. y.id ≢ z.id) x ys (λ s. h.0 (sym s)) d.0,
    insort-HaveDistinctIds x ys h.1 d.1,
  )
]

All-by_age : (P : ArticleRow → Type 0) (xs : List ArticleRow) → All P xs → All P (by_age xs)
unfolding by_age
All-by_age P [] h = tt
All-by_age P (x ∷ xs) h = All-insort P x (by_age xs) h.0 (All-by_age P xs h.1)

pub by_age-HaveDistinctIds :
    (xs : List ArticleRow) → HaveDistinctIds xs → HaveDistinctIds (by_age xs)
unfolding by_age
by_age-HaveDistinctIds [] d = tt
by_age-HaveDistinctIds (x ∷ xs) d =
    insort-HaveDistinctIds x (by_age xs) (All-by_age (λ y. x.id ≢ y.id) xs d.0)
      (by_age-HaveDistinctIds xs d.1)

abbrev ids : List ArticleRow → List String
ids xs = map (λ r. r.id) xs

filter-contains_ne :
    (s : String) (ss : List String) (xs : List ArticleRow)
    → All (λ y. s ≢ y.id) xs
    → filter (λ r. not (contains r.id (s ∷ ss))) xs ≡ filter (λ r. not (contains r.id ss)) xs
unfolding contains
filter-contains_ne s ss [] h = refl
filter-contains_ne s ss (x ∷ xs) h =
    ground (arith, eq_iff s x.id, filter-contains_ne s ss xs h.1, h.0)

filter-contains_nil : (xs : List ArticleRow) → filter (λ r. not (contains r.id [])) xs ≡ xs
unfolding contains
filter-contains_nil [] = refl
filter-contains_nil (x ∷ xs) = ap (λ l. x ∷ l) (filter-contains_nil xs)

-- Without the first ids, the other rows are left.
pub filter-take :
    (n : ℕ) (xs : List ArticleRow)
    → HaveDistinctIds xs
    → length (filter (λ r. not (contains r.id (take n (ids xs)))) xs) ≡ length xs - n
filter-take zero xs d = omega (arith, ap length (filter-contains_nil xs))
filter-take (suc n) [] d = omega arith
filter-take (suc n) (x ∷ xs) d = ground (
  arith,
  contains-cons x.id (take n (ids xs)),
  filter-contains_ne x.id (take n (ids xs)) xs d.0,
  filter-take n xs d.1,
)
