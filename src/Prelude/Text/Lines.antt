-- ===== src/Prelude/Text/Lines.antt =====
-- Lines that are appended to a text are read back.
use Prim.Native.Char.{Char, code}
use Prim.Native.String.{[] as nil, ◌∷◌ as cons, ◌++◌ as ◌<>◌}
use text.Mathlib.TextLemmas.{cons-append, nil-append, concat-ne-nil, append-ne-nil_of_right_ne-nil}
use scraper_v_hezzian.Prelude.Text.{
  is_break, is_space, onto_first, starts_lf, splitlines, lstrip, rstrip, strip, any_code, is_whole,
}
use scraper_v_hezzian.Prelude.Tests.{nat_beq, if◌then◌else◌}
use mathlib.Core.Path.{◌≡◌, refl, ap, ◌∙◌}
use mathlib.Core.Logic.{◌≢◌}
use mathlib.Core.Bool.{true, false, ◌&&◌}
use mathlib.Core.List.{List, [], ◌∷◌, ◌++◌}
use Prim.Native.String.{String}
use Prim.Native.Nat.{ℕ}
use native.Mathlib.Omega.{arith}

is_break-is_space : (c : ℕ) → is_space c ≡ false → is_break c ≡ false
unfolding is_break is_space
is_break-is_space c h = ground arith

pub any_code-is_break : (s : String) → any_code is_space s ≡ false → any_code is_break s ≡ false
unfolding any_code
any_code-is_break nil h = refl
any_code-is_break (cons c s) h = ground (arith, is_break-is_space (code c), any_code-is_break s)

starts_lf-append : (d : Char) (s t : String) → starts_lf (cons d s <> t) ≡ nat_beq (code d) 10
unfolding starts_lf
starts_lf-append d s t = rw cons-append refl

starts_lf-cons : (d : Char) (s : String) → starts_lf (cons d s) ≡ nat_beq (code d) 10
unfolding starts_lf
starts_lf-cons d s = refl

splitlines-onto_first :
    (c : Char) (s : String)
    → is_break (code c) ≡ false
    → splitlines (cons c s) ≡ onto_first c (splitlines s)
unfolding splitlines is_break
splitlines-onto_first c s h = ground arith

splitlines-first :
    (c : Char) (t : String)
    → is_break (code c) ≡ true
    → nat_beq (code c) 13 ≡ false
    → splitlines (cons c t) ≡ "" ∷ splitlines t
unfolding splitlines is_break
splitlines-first c t b r = ground arith

pub splitlines-break :
    (l : String) (c : Char) (t : String)
    → any_code is_break l ≡ false
    → is_break (code c) ≡ true
    → nat_beq (code c) 13 ≡ false
    → splitlines (l <> cons c t) ≡ l ∷ splitlines t
unfolding any_code onto_first
splitlines-break nil c t h b r = rw nil-append (splitlines-first c t b r)
splitlines-break (cons d l) c t h b r = rw cons-append (
    splitlines-onto_first d (l <> cons c t) (ground arith)
    ∙ ap (onto_first d) (splitlines-break l c t (ground arith) b r))

pub splitlines-line :
    (l t : String) → any_code is_break l ≡ false → splitlines (l <> ("\n" <> t)) ≡ l ∷ splitlines t
splitlines-line l t h =
    ap (λ s. splitlines (l <> s)) (cons-append "\n" "" t ∙ ap (λ s. cons "\n" s) (nil-append t))
    ∙ splitlines-break l "\n" t h (unfold is_break in refl) refl

-- A text that has a character has a line.
splitlines-ne : (c : Char) (s : String) → splitlines (cons c s) ≢ []
unfolding splitlines onto_first is_break starts_lf
splitlines-ne c nil e = ground arith
splitlines-ne c (cons d s) e = elim (splitlines s) [
  | [] ↦ ground (arith, splitlines-ne d s)
  | l ∷ ls ↦ ground (arith, splitlines-ne d s)
]

onto_first-append :
    (c : Char) (ls us : List String) → ls ≢ [] → onto_first c ls ++ us ≡ onto_first c (ls ++ us)
unfolding onto_first
onto_first-append c [] us h = absurd (h refl)
onto_first-append c (l ∷ ls) us h = refl

splitlines-cons :
    (c : Char) (s : String)
    → splitlines (cons c s) ≡ (
        if nat_beq (code c) 13 && starts_lf s
        then splitlines s
        else (if is_break (code c) then "" ∷ splitlines s else onto_first c (splitlines s)))
unfolding splitlines
splitlines-cons c s = refl

splitlines-step :
    (c d : Char) (s t : String)
    → splitlines (cons d s <> t) ≡ splitlines (cons d s) ++ splitlines t
    → splitlines (cons c (cons d s <> t)) ≡ splitlines (cons c (cons d s)) ++ splitlines t
splitlines-step c d s t ih = ground (
  arith,
  splitlines-cons c (cons d s <> t),
  splitlines-cons c (cons d s),
  starts_lf-append d s t,
  ih,
  onto_first-append c (splitlines (cons d s)) (splitlines t) (splitlines-ne d s),
  starts_lf-cons d s,
)

pub splitlines-append :
    (s t : String) → is_whole s ≡ true → splitlines (s <> t) ≡ splitlines s ++ splitlines t
unfolding is_whole splitlines is_break onto_first starts_lf
splitlines-append nil t h = rw nil-append refl
splitlines-append (cons c nil) t h = rw (cons-append, nil-append) (ground arith)
splitlines-append (cons c (cons d s)) t h =
    rw cons-append (splitlines-step c d s t (splitlines-append (cons d s) t h))

lstrip-eq_self : (c : Char) (s : String) → is_space (code c) ≡ false → lstrip (cons c s) ≡ cons c s
unfolding lstrip
lstrip-eq_self c s h = ground arith

rstrip-eq_self : (s : String) → any_code is_space s ≡ false → rstrip s ≡ s
unfolding rstrip any_code
rstrip-eq_self nil h = refl
rstrip-eq_self (cons c s) h = ground (arith, rstrip-eq_self s)

-- A text without white space is its own `strip`.
pub strip-eq_self : (s : String) → any_code is_space s ≡ false → strip s ≡ s
unfolding strip any_code
strip-eq_self nil h = unfold lstrip rstrip in refl
strip-eq_self (cons c s) h =
    ap rstrip (lstrip-eq_self c s (ground arith)) ∙ rstrip-eq_self (cons c s) h

is_whole-cons : (c : Char) (s : String) → is_whole s ≡ true → s ≢ "" → is_whole (cons c s) ≡ true
unfolding is_whole
is_whole-cons c nil h ne = absurd (ne refl)
is_whole-cons c (cons d s) h ne = h

-- A text is whole when a line feed is appended.
pub is_whole-lf : (s : String) → is_whole (s <> "\n") ≡ true
unfolding is_whole
is_whole-lf nil = refl
is_whole-lf (cons c s) =
    rw cons-append (is_whole-cons c (s <> "\n") (is_whole-lf s) (concat-ne-nil _ s))

is_whole-append : (s t : String) → is_whole t ≡ true → t ≢ "" → is_whole (s <> t) ≡ true
is_whole-append nil t h ne = rw nil-append h
is_whole-append (cons c s) t h ne =
    rw cons-append
      (is_whole-cons c (s <> t) (is_whole-append s t h ne) (append-ne-nil_of_right_ne-nil s ne))

-- A line that is appended leaves the text whole.
pub is_whole-line : (s l : String) → is_whole (s <> (l <> "\n")) ≡ true
is_whole-line s l = is_whole-append s (l <> "\n") (is_whole-lf l) (concat-ne-nil _ l)

-- The lines of a whole text with one more line.
pub splitlines-whole :
    (s l : String)
    → is_whole s ≡ true
    → any_code is_break l ≡ false
    → splitlines (s <> (l <> "\n")) ≡ splitlines s ++ (l ∷ [])
splitlines-whole s l w h =
    splitlines-append s (l <> "\n") w
    ∙ ap (λ ls. splitlines s ++ ls) (splitlines-line l "" h ∙ (unfold splitlines in refl))
