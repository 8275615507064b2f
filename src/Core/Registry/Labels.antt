-- ===== src/Core/Registry/Labels.antt =====
-- `domain.split(".")` and `".".join(…)`, of Python's `str`.
use Prim.Native.Char.{Char}
use Prim.Native.String.{String, [], ◌∷◌, ◌++◌}
use mathlib.Core.Path.{◌≡◌, refl, ap, sym, ◌∙◌}
use mathlib.Core.Bool.{Bool, true, false}
use mathlib.Core.Logic.{◌⊎◌, inl, inr}
use mathlib.Core.List.{List}
use text.Mathlib.Text.{◌==◌}
use text.Mathlib.TextEquality.{eq_iff}
use text.Mathlib.TextLemmas.{cons-append, nil-append}
use scraper_v_hezzian.Prelude.{if◌then◌else◌, Bool-cases}

abbrev is_dot : Char → Bool
is_dot c = (c ∷ []) == "."

abbrev dot : Char
dot = "."

-- One character in front of the first label.
prepend : Char → List String → List String
prepend c List.[] = List.◌∷◌ (c ∷ []) List.[]
prepend c (List.◌∷◌ l ls) = List.◌∷◌ (c ∷ l) ls

unfoldable pub split : String → List String
unfolding prepend
split [] = List.◌∷◌ "" List.[]
split (c ∷ s) = let rest = split s in if is_dot c then List.◌∷◌ "" rest else prepend c rest

unfoldable pub join : List String → String
join List.[] = ""
join (List.◌∷◌ l List.[]) = l
join (List.◌∷◌ l (List.◌∷◌ k ls)) = l ++ ("." ++ join (List.◌∷◌ k ls))

-- A list of labels is never empty.
pub split-cons : (s : String) → (l : String) × (ls : List String) × (split s ≡ List.◌∷◌ l ls)
unfolding split
split-cons [] = ("", List.[], refl)
split-cons (c ∷ s) = elim (Bool-cases (is_dot c)) [
  | inl e ↦ ("", split s, rw e)
  | inr e ↦ let (l, ls, h) = split-cons s in (c ∷ l, ls, rw (e, h))
]

join-prepend : (c : Char) (ls : List String) → join (prepend c ls) ≡ c ∷ join ls
unfolding join prepend
join-prepend c List.[] = refl
join-prepend c (List.◌∷◌ l List.[]) = refl
join-prepend c (List.◌∷◌ l (List.◌∷◌ k ls)) = cons-append c l ("." ++ join (List.◌∷◌ k ls))

join-empty :
    (ls : List String) (l : String) (ks : List String)
    → ls ≡ List.◌∷◌ l ks
    → join (List.◌∷◌ "" ls) ≡ "." ++ join ls
unfolding join
join-empty ls l ks h = rw h (nil-append ("." ++ join (List.◌∷◌ l ks)))

split-dot : (c : Char) (s : String) → is_dot c ≡ true → split (c ∷ s) ≡ List.◌∷◌ "" (split s)
unfolding split
split-dot c s e = rw e

split-char : (c : Char) (s : String) → is_dot c ≡ false → split (c ∷ s) ≡ prepend c (split s)
unfolding split
split-char c s e = rw e

dot-append : (c : Char) (s : String) → is_dot c ≡ true → "." ++ s ≡ c ∷ s
dot-append c s e =
    ap (λ t. t ++ s) (sym ((eq_iff (c ∷ []) ".").0 e))
    ∙ cons-append c [] s
    ∙ ap (λ t. c ∷ t) (nil-append s)

-- Joining the labels of a text gives the text.
pub join-split : (s : String) → join (split s) ≡ s
join-split [] = unfold split join in refl
join-split (c ∷ s) = go (Bool-cases (is_dot c)) (join-split s)
  where
    go : (is_dot c ≡ true) ⊎ (is_dot c ≡ false) → join (split s) ≡ s → join (split (c ∷ s)) ≡ c ∷ s
    go (inl e) ih =
        let (l, ls, h) = split-cons s in
        ap join (split-dot c s e)
        ∙ join-empty (split s) l ls h
        ∙ ap (λ t. "." ++ t) ih
        ∙ dot-append c s e
    go (inr e) ih = ap join (split-char c s e) ∙ join-prepend c (split s) ∙ ap (λ t. c ∷ t) ih

-- No character of the text is a dot.
abbrev pub HasNoDot : String → Type 0
HasNoDot [] = Unit
HasNoDot (c ∷ s) = (is_dot c ≡ false) × HasNoDot s

-- A label in front of a domain is its first label.
pub split-append : (l d : String) → HasNoDot l → split (l ++ ("." ++ d)) ≡ List.◌∷◌ l (split d)
unfolding prepend
split-append [] d h =
    ap split (nil-append ("." ++ d) ∙ dot-append dot d refl) ∙ split-dot dot d refl
split-append (c ∷ l) d h =
    ap split (cons-append c l ("." ++ d))
    ∙ split-char c (l ++ ("." ++ d)) h.0
    ∙ ap (prepend c) (split-append l d h.1)
