-- ===== src/Digest/Articles/RoundTrip.antt =====
-- What the JSONL sink writes, and the digest reads.
use Prim.Native.String.{◌++◌ as ◌<>◌}
use mathlib.Core.List.{append-nil, append_assoc}
use text.Mathlib.TextEquality.{eq_iff}
use scraper_v_hezzian.Prelude.Text.{splitlines, strip, any_code, is_break, is_whole}
use scraper_v_hezzian.Prelude.Text.Lines.{splitlines-whole, is_whole-line}
use scraper_v_hezzian.Prelude.{
  string_eq, String, true, false, Option, none, some, List, [], ◌∷◌, ◌++◌, contains, ◌≡◌, ◌≢◌, refl,
  sym, ap, ◌∙◌, arith, inl, inr, Option-cases, All, map, ap₂, Bool-cases, subst,
}
use scraper_v_hezzian.Exceptions.{Result, ok, err}
use scraper_v_hezzian.Core.Models.{Article, ScrapeResult, article_if_success}
use scraper_v_hezzian.Core.Storage.{Library}
use scraper_v_hezzian.Core.Jsonl.{
  Json, JsonRow, JsonlSink, append_text, json_row, to_write, store_article, write_json, write_line,
  write_manifest, remember, write_batch,
}
use scraper_v_hezzian.Digest.Articles.Mapped.{join, push, map_result-cons, map_result-append}
use scraper_v_hezzian.Digest.Articles.{
  map_result, visible_lines, date_of, article_from_jsonl, articles_from_jsonl,
}

pub visible_lines-append :
    (ls ks : List String) → visible_lines (ls ++ ks) ≡ visible_lines ls ++ visible_lines ks
unfolding visible_lines
visible_lines-append [] ks = refl
visible_lines-append (l ∷ ls) ks = ground (arith, visible_lines-append ls ks)

-- Without the page's HTML, which is not written.
abbrev pub without_html : Article → Article
without_html a = record a { raw_html = none }

module _ (lib : Library) (json : Json) where
  -- What JSON and the ISO dates promise on an article, of which no text has a line separator
  -- that JSON leaves as it is.
  pub record ReadsBack (a : Article) : Type 0 where
    pub row_back : json.loads (json.dumps (json_row lib json a)) ≡ ok (json_row lib json a)
    pub row_visible : strip (json.dumps (json_row lib json a)) ≢ ""
    pub row_line : any_code is_break (json.dumps (json_row lib json a)) ≡ false
    pub date_back : date_of json (json_row lib json a).publish_date ≡ ok a.publish_date

  -- The file is whole, and read as these articles.
  pub record Holds (f : Option String) (articles : List Article) : Type 0 where
    pub file : String
    pub file_there : f ≡ some file
    pub file_whole : is_whole file ≡ true
    pub file_read : articles_from_jsonl json (some file) ≡ ok articles

  article_from_jsonl-json_row :
      (a : Article)
      → ReadsBack a
      → article_from_jsonl json (json_row lib json a) ≡ ok (without_html a)
  unfolding article_from_jsonl json_row
  article_from_jsonl-json_row a r = rw r.date_back refl

  -- The rows of a file.
  unfoldable pub rows_of : String → Result (List JsonRow)
  rows_of t = map_result json.loads (visible_lines (splitlines t))

  rows_of-line :
      (t l : String)
      → is_whole t ≡ true
      → any_code is_break l ≡ false
      → strip l ≢ ""
      → rows_of (t <> (l <> "\n")) ≡ join (rows_of t) (push (json.loads l) (ok []))
  unfolding rows_of
  rows_of-line t l w b ne =
      ap (λ ls. map_result json.loads (visible_lines ls)) (splitlines-whole t l w b)
      ∙ ap (map_result json.loads) (visible_lines-append (splitlines t) (l ∷ []))
      ∙ map_result-append json.loads (visible_lines (splitlines t)) (visible_lines (l ∷ []))
      ∙ ap (join (map_result json.loads (visible_lines (splitlines t)))) (one l ne)
    where
      one :
          (l : String)
          → strip l ≢ ""
          → map_result json.loads (visible_lines (l ∷ [])) ≡ push (json.loads l) (ok [])
      one l ne = unfold visible_lines map_result push in ground (arith, eq_iff (strip l) "")

  unfoldable pub made : Result (List JsonRow) → Result (List Article)
  made (err e) = err e
  made (ok rows) = map_result (article_from_jsonl json) rows

  pub articles_from_jsonl-eq : (t : String) → articles_from_jsonl json (some t) ≡ made (rows_of t)
  unfolding articles_from_jsonl made rows_of
  articles_from_jsonl-eq t = ground arith

  made-join :
      (r : Result (List JsonRow)) (row : JsonRow) (a : Article) (articles : List Article)
      → article_from_jsonl json row ≡ ok a
      → made r ≡ ok articles
      → made (join r (push (ok row) (ok []))) ≡ ok (articles ++ (a ∷ []))
  unfolding made join push
  made-join (err x) row a articles f h = absurd (ground arith)
  made-join (ok rows) row a articles f h =
      map_result-append (article_from_jsonl json) rows (row ∷ [])
      ∙ ap₂ join {v = ok (a ∷ [])} h (
          map_result-cons (article_from_jsonl json) row []
          ∙ ap (λ y. push y (map_result (article_from_jsonl json) [])) f
          ∙ unfold map_result in refl)

  articles_from_jsonl-line :
      (t : String) (a : Article) (articles : List Article)
      → ReadsBack a
      → is_whole t ≡ true
      → articles_from_jsonl json (some t) ≡ ok articles
      → articles_from_jsonl json (some (t <> (json.dumps (json_row lib json a) <> "\n")))
        ≡ ok (articles ++ (without_html a ∷ []))
  articles_from_jsonl-line t a articles r w h =
      let line = json.dumps (json_row lib json a) in
      articles_from_jsonl-eq (t <> (line <> "\n"))
      ∙ ap made (
          rows_of-line t line w r.row_line r.row_visible
          ∙ ap (λ x. join (rows_of t) (push x (ok []))) r.row_back)
      ∙ made-join (rows_of t) (json_row lib json a) (without_html a) articles
          (article_from_jsonl-json_row a r) (sym (articles_from_jsonl-eq t) ∙ h)

  -- The articles of the successful results.
  unfoldable pub successes : List ScrapeResult → List Article
  successes [] = []
  successes (r ∷ rs) =
      let rest = successes rs in elim (article_if_success r) [ none ↦ rest | some a ↦ a ∷ rest ]

  -- The first article of each content that is not known yet.
  unfoldable pub first_contents : List String → List Article → List Article
  first_contents known [] = []
  first_contents known (a ∷ articles) = elim (contains (lib.sha256 a.content) known) [
    | true ↦ first_contents known articles
    | false ↦ a ∷ first_contents (lib.sha256 a.content ∷ known) articles
  ]

  -- What one call of `write` does to the articles that are to come.
  data Step (sink : JsonlSink) (rest : List ScrapeResult)
      : Option Article → List Article → Type 0 where
    skipped : Step sink rest none (first_contents sink.seen_content (successes rest))
    written :
        (a : Article)
        → Step sink rest
            (some a)
            (a ∷ first_contents (lib.sha256 a.content ∷ sink.seen_content) (successes rest))

  to_write-Step :
      (sink : JsonlSink) (r : ScrapeResult) (rs : List ScrapeResult)
      → Step sink rs
          (to_write lib json r sink)
          (first_contents sink.seen_content (successes (r ∷ rs)))
  unfolding to_write first_contents successes
  to_write-Step sink r rs = elim (Option-cases (article_if_success r)) [
    | inl e ↦
        let f : to_write lib json r sink ≡ none = ground arith in
        let g : successes (r ∷ rs) ≡ successes rs = ground arith in rw (f, g) skipped
    | inr (a, e) ↦
        let g : successes (r ∷ rs) ≡ a ∷ successes rs = ground arith in
        elim (Bool-cases (contains (lib.sha256 a.content) sink.seen_content)) [
          | inl k ↦
              let f : to_write lib json r sink ≡ none = ground arith in
              let l : first_contents sink.seen_content (a ∷ successes rs)
                  ≡ first_contents sink.seen_content (successes rs) =
                ground arith in
              rw (f, g, l) skipped
          | inr k ↦
              let f : to_write lib json r sink ≡ some a = ground arith in
              let l : first_contents sink.seen_content (a ∷ successes rs)
                  ≡ a ∷ first_contents (lib.sha256 a.content ∷ sink.seen_content) (successes rs) =
                ground arith in
              rw (f, g, l) (written a)
        ]
  ]

  store_article-Holds :
      (a : Article) (sink : JsonlSink) (articles : List Article)
      → ReadsBack a
      → Holds sink.data_file articles
      → Holds (store_article lib json (some a) sink).data_file (articles ++ (without_html a ∷ []))
  unfolding store_article write_line write_manifest remember append_text
  store_article-Holds a sink articles r h = record {
    file = h.file <> (json.dumps (json_row lib json a) <> "\n");
    file_there = rw h.file_there refl;
    file_whole = is_whole-line h.file (json.dumps (json_row lib json a));
    file_read = articles_from_jsonl-line h.file a articles r h.file_whole h.file_read;
  }

  -- One call, given that the calls behind it do what is claimed.
  Step-Holds :
      (sink : JsonlSink) (rs : List ScrapeResult) (articles rest : List Article)
      (o : Option Article)
      → Step sink rs o rest
      → ((sink : JsonlSink) (articles : List Article)
          → All ReadsBack (first_contents sink.seen_content (successes rs))
          → Holds sink.data_file articles
          → Holds
              (write_batch lib json rs sink).data_file
              (articles ++ map without_html (first_contents sink.seen_content (successes rs))))
      → All ReadsBack rest
      → Holds sink.data_file articles
      → Holds
          (write_batch lib json rs (store_article lib json o sink)).data_file
          (articles ++ map without_html rest)
  unfolding store_article write_line write_manifest remember
  Step-Holds sink rs articles rest o skipped ih all h = ih sink articles all h
  Step-Holds sink rs articles rest o (written a) ih all h =
      subst (Holds (write_batch lib json rs (store_article lib json (some a) sink)).data_file)
        (append_assoc articles (without_html a ∷ []) _)
        (ih (store_article lib json (some a) sink) (articles ++ (without_html a ∷ [])) all.1
          (store_article-Holds a sink articles all.0 h))

  pub write_batch-Holds :
      (rs : List ScrapeResult) (sink : JsonlSink) (articles : List Article)
      → All ReadsBack (first_contents sink.seen_content (successes rs))
      → Holds sink.data_file articles
      → Holds
          (write_batch lib json rs sink).data_file
          (articles ++ map without_html (first_contents sink.seen_content (successes rs)))
  unfolding write_batch write_json
  write_batch-Holds [] sink articles all h = unfold successes first_contents in rw append-nil h
  write_batch-Holds (r ∷ rs) sink articles all h =
      Step-Holds sink rs articles _ _ (to_write-Step sink r rs) (write_batch-Holds rs) all h

  -- From a data file that is whole and read as some articles: after any writes the digest reads
  -- those articles, and behind them, without the page's HTML, the article of each successful result
  -- with one, the first of each content that the sink has not written yet. The JSON of these
  -- articles is read back, and no line of it has a line separator inside.
  pub articles_from_jsonl-write_batch :
      (rs : List ScrapeResult) (sink : JsonlSink) (articles : List Article)
      → All ReadsBack (first_contents sink.seen_content (successes rs))
      → Holds sink.data_file articles
      → articles_from_jsonl json (write_batch lib json rs sink).data_file
        ≡ ok (articles ++ map without_html (first_contents sink.seen_content (successes rs)))
  articles_from_jsonl-write_batch rs sink articles all h =
      let held = write_batch-Holds rs sink articles all h in
      ap (articles_from_jsonl json) held.file_there ∙ held.file_read
