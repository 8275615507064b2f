-- ===== src/Digest/Articles/Examples.antt =====
-- A file that is read back, and one that is not.
use scraper_v_hezzian.Prelude.Text.{strip}
use scraper_v_hezzian.Core.Models.{Article, ScrapeResult}
use scraper_v_hezzian.Prelude.{◌≡◌, ◌≢◌, none, some, [], ◌∷◌, refl, List, arith, eq_iff}
use scraper_v_hezzian.Exceptions.{ok, err, other_error}
use scraper_v_hezzian.Core.Jsonl.{open_sink, write_batch, write_json, json_row}
use scraper_v_hezzian.Core.Jsonl.Samples.{library, plain_json, result_of_text, article_of_text}
use scraper_v_hezzian.Digest.Articles.{articles_from_jsonl}
use scraper_v_hezzian.Digest.Articles.RoundTrip.{
  ReadsBack, Holds, first_contents, successes, without_html, articles_from_jsonl-write_batch,
}
use scraper_v_hezzian.Digest.Articles.Separators.{articles_from_jsonl-write_json_separator}

abbrev results : List ScrapeResult
results = result_of_text "u" "text" ∷ result_of_text "v" "text" ∷ []

abbrev article : Article
article = article_of_text "u" "text"

visible_text : strip "{text}" ≢ ""
unfolding strip
visible_text e = ground (arith, eq_iff "{text}" "")

visible : strip (plain_json.dumps (json_row library plain_json article)) ≢ ""
unfolding json_row
visible = visible_text

back : ReadsBack library plain_json article
unfolding json_row scraper_v_hezzian.Core.Jsonl.Samples.digest
    scraper_v_hezzian.Prelude.Text.is_space scraper_v_hezzian.Prelude.Text.any_code
    scraper_v_hezzian.Prelude.Text.is_break scraper_v_hezzian.Digest.Articles.date_of
back = record { row_back = refl; row_visible = visible; row_line = refl; date_back = refl }

nothing_yet : Holds library plain_json (some "") []
unfolding scraper_v_hezzian.Prelude.Text.is_whole articles_from_jsonl
    scraper_v_hezzian.Prelude.Text.splitlines
nothing_yet = record { file = ""; file_there = refl; file_whole = refl; file_read = refl }

one : first_contents library plain_json [] (successes library plain_json results) ≡ article ∷ []
unfolding first_contents successes scraper_v_hezzian.Core.Models.article_if_success
    scraper_v_hezzian.Core.Models.is_success scraper_v_hezzian.Prelude.contains
    scraper_v_hezzian.Core.Jsonl.Samples.digest scraper_v_hezzian.Prelude.Text.is_space
one = refl

articles_from_jsonl-write_batch_example :
    articles_from_jsonl plain_json
      (write_batch library plain_json results (open_sink (some "") none)).data_file
    ≡ ok (without_html article ∷ [])
unfolding first_contents successes scraper_v_hezzian.Core.Models.article_if_success
    scraper_v_hezzian.Core.Models.is_success scraper_v_hezzian.Prelude.contains open_sink
    scraper_v_hezzian.Core.Jsonl.Samples.digest scraper_v_hezzian.Prelude.Text.is_space
articles_from_jsonl-write_batch_example =
    articles_from_jsonl-write_batch library plain_json results (open_sink (some "") none) []
      (back, tt) nothing_yet

visible_start : strip "{a" ≢ ""
unfolding strip
visible_start e = ground (arith, eq_iff "{a" "")

articles_from_jsonl-write_json_separator_example :
    articles_from_jsonl plain_json
      (write_json library plain_json
        (result_of_text "u" "a\u{2028}b")
        (open_sink (some "") none)).1.data_file
    ≡ err (other_error "no JSON")
unfolding scraper_v_hezzian.Core.Jsonl.to_write scraper_v_hezzian.Core.Models.article_if_success
    scraper_v_hezzian.Core.Models.is_success scraper_v_hezzian.Prelude.contains open_sink json_row
    scraper_v_hezzian.Prelude.Text.any_code scraper_v_hezzian.Prelude.Text.is_break
articles_from_jsonl-write_json_separator_example =
    articles_from_jsonl-write_json_separator library plain_json (result_of_text "u" "a\u{2028}b")
      (open_sink (some "") none) (article_of_text "u" "a\u{2028}b") [] "{a" "\u{2028}" "b}"
      (other_error "no JSON") refl nothing_yet refl refl refl refl visible_start refl
