-- ===== src/Prelude/Slices.antt =====
-- Parts of a list after each other.
use Prim.Native.Nat.{ℕ, zero, suc, ◌+◌, ◌-◌, ◌≤◌}
use mathlib.Core.Path.{◌≡◌, refl, ap}
use mathlib.Core.List.{List, [], ◌∷◌, ◌++◌, map}
use native.Mathlib.Omega.{arith}
use scraper_v_hezzian.Prelude.Lists.{length, take, drop}

module _ {A : Type 0} where
  pub take-append_drop :
      (k n m : ℕ) (xs : List A) → k + n ≡ m → take k xs ++ take n (drop k xs) ≡ take m xs
  take-append_drop zero n m xs e = let e' : n ≡ m = omega arith in ap (λ i. take i xs) e'
  take-append_drop (suc k) n zero xs e = absurd (omega arith)
  take-append_drop (suc k) zero (suc m) [] e = refl
  take-append_drop (suc k) (suc n) (suc m) [] e = refl
  take-append_drop (suc k) n (suc m) (x ∷ xs) e =
      ap (λ ys. x ∷ ys) (take-append_drop k n m xs (omega arith))

  pub take-eq_self : (n : ℕ) (xs : List A) → length xs ≤ n → take n xs ≡ xs
  take-eq_self zero [] h = refl
  take-eq_self zero (x ∷ xs) h = absurd (omega arith)
  take-eq_self (suc n) [] h = refl
  take-eq_self (suc n) (x ∷ xs) h = ap (λ ys. x ∷ ys) (take-eq_self n xs (omega arith))

  pub length-map : {B : Type 0} (f : A → B) (xs : List A) → length (map f xs) ≡ length xs
  length-map f [] = refl
  length-map f (x ∷ xs) = omega (arith, length-map f xs)

  pub append_take-drop : (k : ℕ) (xs : List A) → take k xs ++ drop k xs ≡ xs
  append_take-drop zero xs = refl
  append_take-drop (suc k) [] = refl
  append_take-drop (suc k) (x ∷ xs) = ap (λ ys. x ∷ ys) (append_take-drop k xs)

  -- What is taken of two lists after each other.
  pub take-append :
      (n m : ℕ) (xs ys : List A)
      → n - length (take n xs) ≡ m
      → take n (xs ++ ys) ≡ take n xs ++ take m ys
  take-append zero m xs ys e = let e' : m ≡ 0 = omega arith in rw e' refl
  take-append (suc n) m [] ys e = let e' : m ≡ suc n = omega arith in rw e' refl
  take-append (suc n) m (x ∷ xs) ys e = ap (λ zs. x ∷ zs) (take-append n m xs ys (omega arith))

  pub take-nil : (n : ℕ) → take {A = A} n [] ≡ []
  take-nil zero = refl
  take-nil (suc n) = refl
