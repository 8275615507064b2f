-- ===== src/Worker/Scheduler/Examples.antt =====
-- A tick with one publication, one page, and a source that is switched off.
use Prim.Native.String.{◌++◌ as ◌<>◌}
use scraper_v_hezzian.Prelude.{
  string_eq, ℕ, String, none, some, true, false, List, [], ◌∷◌, ◌++◌, zero, suc,
}
use scraper_v_hezzian.Core.Db.Tables.{tables}
use scraper_v_hezzian.Worker.Scheduler.{Source, SchedulerRun}

-- As many strokes as the number says.
strokes : ℕ → String
strokes zero = ""
strokes (suc n) = "|" <> strokes n

abbrev tick : SchedulerRun
tick = record {
  database = tables;
  uuid = strokes;
  message_id = strokes;
  now = λ n. n;
  job_queue = "jobs";
  ingest_queue = "ingest";
}

abbrev sources : List Source
sources =
    record {
      name = "news.a.com";
      bucket = "community";
      enabled = true;
      platform = some "substack";
      url = none;
      limit = none;
    }
    ∷ record {
      name = "off";
      bucket = "public";
      enabled = false;
      platform = none;
      url = none;
      limit = none;
    }
    ∷ record {
      name = "page";
      bucket = "public";
      enabled = true;
      platform = none;
      url = some "https://a.com/x";
      limit = none;
    }
    ∷ []
