-- ===== src/Digest/Articles/Mapped.antt =====
-- The results of a function that may raise, over two lists after each other.
use scraper_v_hezzian.Prelude.{List, [], ◌∷◌, ◌++◌, ◌≡◌, refl, sym, ap, ◌∙◌, arith}
use scraper_v_hezzian.Exceptions.{Result, ok, err}
use scraper_v_hezzian.Digest.Articles.{map_result}

unfoldable pub join : {B : Type 0} → Result (List B) → Result (List B) → Result (List B)
join (err e) r = err e
join (ok ys) (err e) = err e
join (ok ys) (ok ws) = ok (ys ++ ws)

unfoldable pub push : {B : Type 0} → Result B → Result (List B) → Result (List B)
push (err e) r = err e
push (ok y) (err e) = err e
push (ok y) (ok ys) = ok (y ∷ ys)

pub map_result-cons :
    {A B : Type 0} (f : A → Result B) (x : A) (xs : List A)
    → map_result f (x ∷ xs) ≡ push (f x) (map_result f xs)
unfolding map_result push
map_result-cons f x xs = ground arith

pub join-push :
    {B : Type 0} (y : Result B) (r s : Result (List B)) → push y (join r s) ≡ join (push y r) s
unfolding push join
join-push (err e) r s = refl
join-push (ok y) (err e) s = refl
join-push (ok y) (ok ys) (err e) = refl
join-push (ok y) (ok ys) (ok ws) = refl

pub join-nil : {B : Type 0} (r : Result (List B)) → join (ok []) r ≡ r
unfolding join
join-nil (err e) = refl
join-nil (ok ws) = refl

pub map_result-append :
    {A B : Type 0} (f : A → Result B) (xs zs : List A)
    → map_result f (xs ++ zs) ≡ join (map_result f xs) (map_result f zs)
map_result-append f [] zs = unfold map_result in sym (join-nil (map_result f zs))
map_result-append f (x ∷ xs) zs =
    map_result-cons f x (xs ++ zs)
    ∙ ap (push (f x)) (map_result-append f xs zs)
    ∙ join-push (f x) (map_result f xs) (map_result f zs)
    ∙ ap (λ r. join r (map_result f zs)) (sym (map_result-cons f x xs))
