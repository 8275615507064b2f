-- ===== src/Digest/Models.antt =====
-- scrapeforge/digest/models.py
use mathlib.Core.List.{append_assoc}
use scraper_v_hezzian.Prelude.{
  ℕ, String, Bool, Option, List, nat_beq, length, length-append, ◌+◌, ◌≡◌, refl, sym, ap, ◌∙◌, [],
  ◌∷◌, ◌++◌, arith,
}

pub data Cadence : Type 0 where
  daily weekly : Cadence

pub record DigestPreferences : Type 0 where
  pub portfolio_companies : List String
  pub investment_themes : List String
  pub news_topics : List String
  pub data_types : List String
  pub cadence : Cadence
  pub max_items_per_section : ℕ

pub record Subscriber : Type 0 where
  pub id : String
  pub name : String
  pub email : String
  pub preferences : DigestPreferences
  pub active : Bool
  pub timezone : Option String
  pub created_at : Option ℕ

pub record DigestItem : Type 0 where
  pub title : String
  pub url : String
  pub source : String
  pub published : Option ℕ
  pub summary : String
  pub matched_on : List String
  pub bullets : List String
  pub relevance : Option ℕ
  pub reason : Option String

pub data SectionKey : Type 0 where
  portfolio themes topics top : SectionKey

pub record DigestSection : Type 0 where
  pub key : SectionKey
  pub heading : String
  pub items : List DigestItem

pub record Digest : Type 0 where
  pub subscriber_id : String
  pub subscriber_name : String
  pub subscriber_email : String
  pub cadence : Cadence
  pub period : String
  pub generated_at : ℕ
  pub sections : List DigestSection

-- What a digest uses of `urlsplit(...).hostname`, `str.lower` and `date().isoformat()`.
pub record DigestTools : Type 0 where
  pub hostname : String → Option String
  pub lower : String → String
  pub iso_date : ℕ → String

unfoldable pub count_items : List DigestSection → ℕ
count_items [] = 0
count_items (s ∷ ss) = length s.items + count_items ss

unfoldable pub total_items : Digest → ℕ
unfolding count_items
total_items d = count_items d.sections

unfoldable pub is_empty : Digest → Bool
unfolding total_items
is_empty d = nat_beq (total_items d) 0

-- All items of the sections, in order.
unfoldable pub items_in : List DigestSection → List DigestItem
items_in [] = []
items_in (s ∷ ss) = s.items ++ items_in ss

pub items_in-append :
    (xs ys : List DigestSection) → items_in (xs ++ ys) ≡ items_in xs ++ items_in ys
unfolding items_in
items_in-append [] ys = refl
items_in-append (s ∷ xs) ys =
    ap (λ l. s.items ++ l) (items_in-append xs ys)
    ∙ sym (append_assoc s.items (items_in xs) (items_in ys))

pub count_items-eq : (ss : List DigestSection) → count_items ss ≡ length (items_in ss)
unfolding count_items items_in
count_items-eq [] = refl
count_items-eq (s ∷ ss) = omega (arith, count_items-eq ss, length-append s.items (items_in ss))
