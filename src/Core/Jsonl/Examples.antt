-- ===== src/Core/Jsonl/Examples.antt =====
-- Three results, two of them with one content, and a manifest of an earlier run.
use scraper_v_hezzian.Prelude.Text.{is_whole}
use scraper_v_hezzian.Core.Models.{ScrapeResult}
use scraper_v_hezzian.Prelude.{◌≡◌, none, some, true, [], ◌∷◌, refl, or_empty, List}
use scraper_v_hezzian.Core.Jsonl.{open_sink, has_seen, write_batch, load_manifest}
use scraper_v_hezzian.Core.Jsonl.Resume.{has_seen-open_sink}
use scraper_v_hezzian.Core.Jsonl.Samples.{library, digests, plain_json, result_of_text}

abbrev results : List ScrapeResult
results = result_of_text "u" "text" ∷ result_of_text "v" "text" ∷ result_of_text "w" "more" ∷ []

-- The second result has the content of the first, so only two lines are written.
both_files :
    let sink = write_batch library plain_json results (open_sink none (some "oldh\n")) in
    (sink.data_file ≡ some "{text}\n{more}\n") × (sink.manifest_file ≡ some "oldh\nuh\nwh\n")
unfolding write_batch scraper_v_hezzian.Core.Jsonl.write_json
    scraper_v_hezzian.Core.Models.article_if_success scraper_v_hezzian.Core.Models.is_success
    scraper_v_hezzian.Prelude.contains open_sink scraper_v_hezzian.Core.Jsonl.Samples.digest
    scraper_v_hezzian.Prelude.Text.is_space
both_files = (refl, refl)

loaded : load_manifest (some "oldh\r\n  uh \n\nwh") ≡ "oldh" ∷ "uh" ∷ "wh" ∷ []
unfolding load_manifest scraper_v_hezzian.Prelude.Text.splitlines
    scraper_v_hezzian.Prelude.Text.strip
loaded = refl

whole : is_whole (or_empty (some "oldh\n")) ≡ true
unfolding is_whole
whole = refl

has_seen-open_sink_example :
    let sink = write_batch library plain_json results (open_sink none (some "oldh\n")) in
    has_seen library plain_json (open_sink sink.data_file sink.manifest_file) "w"
    ≡ has_seen library plain_json sink "w"
has_seen-open_sink_example =
    has_seen-open_sink library plain_json digests none (some "oldh\n") results "w" whole
