-- ===== src/Digest/Articles.antt =====
-- scrapeforge/digest/service.py, the articles of a `.jsonl` file.
pub mod Mapped
pub mod RoundTrip
pub mod Separators
mod Examples
use scraper_v_hezzian.Prelude.Text.{splitlines, strip}
use scraper_v_hezzian.Prelude.{
  string_eq, ℕ, String, Option, none, some, List, [], ◌∷◌, if◌then◌else◌, ◌==◌,
}
use scraper_v_hezzian.Exceptions.{Result, ok, err, other_error}
use scraper_v_hezzian.Core.Models.{Article}
use scraper_v_hezzian.Core.Jsonl.{Json, JsonRow}

-- `[f(x) for x in xs]`, where `f` may raise.
unfoldable pub map_result : {A B : Type 0} → (A → Result B) → List A → Result (List B)
map_result f [] = ok []
map_result f (x ∷ xs) =
    let rest = map_result f xs in
    elim (f x) [ err e ↦ err e | ok y ↦ elim rest [ err e ↦ err e | ok ys ↦ ok (y ∷ ys) ] ]

-- `[line for line in … if line.strip()]`
unfoldable pub visible_lines : List String → List String
visible_lines [] = []
visible_lines (l ∷ ls) = let rest = visible_lines ls in if strip l == "" then rest else l ∷ rest

-- `Path.read_text` of a file that is not there raises.
abbrev pub no_file : String
no_file = "No such file or directory"

module _ (json : Json) where
  -- `datetime.fromisoformat(pub) if pub else None`
  unfoldable pub date_of : Option String → Result (Option ℕ)
  date_of none = ok none
  date_of (some s) =
      if s == ""
      then ok none
      else elim (json.fromisoformat s) [ err e ↦ err e | ok d ↦ ok (some d) ]

  -- `_article_from_jsonl`
  unfoldable pub article_from_jsonl : JsonRow → Result Article
  unfolding date_of
  article_from_jsonl row = elim (date_of row.publish_date) [
    | err e ↦ err e
    | ok date ↦ ok (record {
      url = row.url;
      title = row.title;
      content = row.content;
      author = row.author;
      publish_date = date;
      raw_html = none;
      metadata = row.metadata;
    })
  ]

  -- `get_articles("jsonl:…")`: all lines are decoded before the first article is made.
  unfoldable pub articles_from_jsonl : Option String → Result (List Article)
  unfolding map_result visible_lines article_from_jsonl
  articles_from_jsonl none = err (other_error no_file)
  articles_from_jsonl (some s) = elim (map_result json.loads (visible_lines (splitlines s))) [
    | err e ↦ err e
    | ok rows ↦ map_result article_from_jsonl rows
  ]
